-- ===== src/Cmb/Map.antt =====
-- Finding and mapping the controller memory buffer, ccnvme/cmb.c: init_cmb, with
-- nvme_cmb_size_unit and nvme_cmb_size of ccnvme/nvme.h; and the reads and writes by which
-- ccnvme/horae.c measures the buffer.
use native.Mathlib.Decide.{dec_lt}
use ccnvme.Prelude.{
  ℕ, ◌+◌, ◌-◌, ◌*◌, ◌/◌, ◌%◌, ◌^◌, ◌≤◌, ◌<◌, ◌≡◌, arith, Bool, false, Option, none, some, ltb, ◌==◌,
  if◌then◌else◌, refl, Bool-cases, Option-cases, inl, inr, lt→ltb, le→ltb,
}
use ccnvme.Ring.{u32, u64}
use ccnvme.Ring.Laws.{mod_below}
use ccnvme.Ometa.{ometa_bytes}
use ccnvme.Kernel.{Kernel}
use ccnvme.State.{Olayer, stream_at}
use ccnvme.Cmb.{cmb_write, cmb_read, cmb_flush}

-- What the set-up asks of the PCI bus and of the controller: the fields of the registers CMBSZ and
-- CMBLOC, as `linux/nvme.h` cuts them out, the resources of the device and the mapping of memory.
pub record Pci : Type 0 where
  pub pci_get_device : ℕ → ℕ → Option ℕ
  pub cmbsz : ℕ → ℕ
  pub cmbloc : ℕ → ℕ
  pub cmb_in_use : ℕ → Bool
  pub szu : ℕ → ℕ
  pub sz : ℕ → ℕ
  pub bir : ℕ → ℕ
  pub ofst : ℕ → ℕ
  pub sz-lt : (r : ℕ) → sz r < 2 ^ 20
  pub ofst-lt : (r : ℕ) → ofst r < 2 ^ 20
  pub resource_len : ℕ → ℕ → ℕ
  pub resource_start : ℕ → ℕ → ℕ
  pub ioremap_wc : ℕ → ℕ → Option ℕ

-- `struct cmb_info`
pub record CmbInfo : Type 0 where
  pub pci_dev : ℕ
  pub dev_addr : ℕ
  pub dev_size : ℕ
  pub raddr : ℕ

-- Without a device the code goes on with a null pointer, and faults.
pub data CmbResult : Type 0 where
  no_device : CmbResult
  einval : CmbResult
  ebusy : CmbResult
  enomem : CmbResult
  mapped : CmbInfo → CmbResult

module _ (P : Pci) where
  open P use {
    pci_get_device, cmbsz, cmbloc, cmb_in_use, szu, sz, bir, ofst, resource_len, resource_start,
    ioremap_wc,
  }

  -- the size unit, 2^12 bytes times 16 for each step of the field
  unfoldable pub nvme_cmb_size_unit : ℕ → ℕ
  nvme_cmb_size_unit d = 2 ^ (12 + 4 * szu (cmbsz d))

  abbrev pub nvme_cmb_size : ℕ → ℕ
  nvme_cmb_size d = sz (cmbsz d)

  -- StarBlaze, then Intel Qemu
  unfoldable pub find_device : Option ℕ
  find_device = elim (pci_get_device 0x9d32 0x1000) [
    | none ↦ pci_get_device 0x8086 0x5845
    | some d ↦ some d
  ]

  abbrev pub cmb_offset : ℕ → ℕ
  cmb_offset d = u64 (nvme_cmb_size_unit d * ofst (cmbloc d))

  -- the size, cut at the end of the bar
  unfoldable pub cmb_size : ℕ → ℕ
  cmb_size d =
      let size = u64 (nvme_cmb_size_unit d * nvme_cmb_size d) in
      let left = resource_len d (bir (cmbloc d)) - cmb_offset d in
      if ltb left size then left else size

  unfoldable pub map_cmb : ℕ → Option ℕ → CmbResult
  map_cmb d none = enomem
  map_cmb d (some addr) = mapped (record {
    pci_dev = d;
    dev_addr = addr;
    dev_size = cmb_size d;
    raddr = u64 (resource_start d (bir (cmbloc d)) + cmb_offset d);
  })

  unfoldable pub init_device : ℕ → CmbResult
  init_device d =
      if cmbsz d == 0
      then einval
      else (if cmb_in_use d
          then ebusy
          else (if ltb (resource_len d (bir (cmbloc d))) (cmb_offset d)
              then einval
              else map_cmb d (
                  ioremap_wc (u64 (resource_start d (bir (cmbloc d)) + cmb_offset d))
                    (cmb_size d))))

  unfoldable pub init_cmb : CmbResult
  unfolding find_device
  init_cmb = elim find_device [ none ↦ no_device | some d ↦ init_device d ]

  -- what a mapped buffer is
  abbrev pub InBar : CmbResult → Type 0
  InBar no_device = Unit
  InBar einval = Unit
  InBar ebusy = Unit
  InBar enomem = Unit
  InBar (mapped ci) =
      let bar = bir (cmbloc ci.pci_dev) in
      (resource_start ci.pci_dev bar ≤ ci.raddr)
      × (ci.raddr + ci.dev_size ≤ resource_start ci.pci_dev bar + resource_len ci.pci_dev bar)
      × (cmb_in_use ci.pci_dev ≡ false)
      × (ioremap_wc ci.raddr ci.dev_size ≡ some ci.dev_addr)

  cmb_size-le : (d : ℕ) → cmb_size d ≤ resource_len d (bir (cmbloc d)) - cmb_offset d
  unfolding cmb_size
  cmb_size-le d = ground arith

  map_cmb-InBar :
      (d : ℕ) (o : Option ℕ)
      → resource_start d (bir (cmbloc d)) + resource_len d (bir (cmbloc d)) < 2 ^ 64
      → cmb_offset d ≤ resource_len d (bir (cmbloc d))
      → cmb_in_use d ≡ false
      → ioremap_wc (u64 (resource_start d (bir (cmbloc d)) + cmb_offset d)) (cmb_size d) ≡ o
      → InBar (map_cmb d o)
  unfolding map_cmb
  map_cmb-InBar d none small fits free got = tt
  map_cmb-InBar d (some addr) small fits free got =
      (omega (arith, place), omega (arith, place, cmb_size-le d), free, got)
    where
      place :
          u64 (resource_start d (bir (cmbloc d)) + cmb_offset d)
          ≡ resource_start d (bir (cmbloc d)) + cmb_offset d
      place = mod_below (resource_start d (bir (cmbloc d)) + cmb_offset d) (2 ^ 64) (omega arith)

  init_device-InBar :
      (d : ℕ)
      → resource_start d (bir (cmbloc d)) + resource_len d (bir (cmbloc d)) < 2 ^ 64
      → InBar (init_device d)
  unfolding init_device
  init_device-InBar d small = elim (Bool-cases (cmbsz d == 0)) [
    | inl e ↦ rw e tt
    | inr e ↦ rw e (elim (Bool-cases (cmb_in_use d)) [
      | inl f ↦ rw f tt
      | inr f ↦ rw f (elim (dec_lt (resource_len d (bir (cmbloc d))) (cmb_offset d)) [
        | yes g ↦ rw (lt→ltb (resource_len d (bir (cmbloc d))) (cmb_offset d) g) tt
        | no g ↦ rw (le→ltb (resource_len d (bir (cmbloc d))) (cmb_offset d) (omega arith)) (
            map_cmb-InBar d
              (ioremap_wc (u64 (resource_start d (bir (cmbloc d)) + cmb_offset d)) (cmb_size d))
              small (omega arith) f refl)
      ])
    ])
  ]

  -- On a machine whose bars end below 2^64: where init_cmb maps a buffer, the buffer lies inside
  -- the bar that the controller names, whatever offset, size and unit the controller states; it was
  -- not in use, and what is mapped is the range that is noted down.
  pub init_cmb-InBar :
      ((d bar : ℕ) → resource_start d bar + resource_len d bar < 2 ^ 64) → InBar init_cmb
  unfolding init_cmb
  init_cmb-InBar small = elim (Option-cases find_device) [
    | inl e ↦ rw (e, init_cmb) tt
    | inr q ↦ rw (q.1, init_cmb) (init_device-InBar q.0 (small q.0 (bir (cmbloc q.0))))
  ]

module _ (K : Kernel) where
  -- `unit` words of 8 bytes from word `pos` of the queue on: flushed with `sync`. What is
  -- copied starts elsewhere: `ometa_start + pos * 8` counts entries. The result is the next position.
  unfoldable pub write_cmb_test_multithread : ℕ → Bool → ℕ → ℕ → Olayer K → ℕ × Olayer K
  unfolding cmb_write cmb_flush
  write_cmb_test_multithread unit sync pos sid w =
      let s = stream_at K w sid in
      let w1 = cmb_write K s (u32 (pos * 8) * ometa_bytes) (unit * 8) w in
      (
        u32 (pos + unit) % (s.ometa_size / 8),
        if sync then cmb_flush K s (u32 (pos * 8)) (unit * 8) w1 else w1,
      )

  unfoldable pub write_cmb_test : ℕ → Bool → ℕ → Olayer K → ℕ × Olayer K
  unfolding write_cmb_test_multithread
  write_cmb_test unit sync pos w = write_cmb_test_multithread unit sync pos 0 w

  unfoldable pub read_cmb_test_multithread : ℕ → ℕ → ℕ → Olayer K → ℕ × Olayer K
  unfolding cmb_read
  read_cmb_test_multithread unit pos sid w =
      let s = stream_at K w sid in
      (u32 (pos + unit) % (s.ometa_size / 8), cmb_read K s (u32 (pos * 8)) (unit * 8) w)

  unfoldable pub read_cmb_test : ℕ → ℕ → Olayer K → ℕ × Olayer K
  unfolding read_cmb_test_multithread
  read_cmb_test unit pos w = read_cmb_test_multithread unit pos 0 w
