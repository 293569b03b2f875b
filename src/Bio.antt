-- ===== src/Bio.antt =====
-- From a buffer head to a bio, ccnvme/submitter.c: guard_bio_eod and bh2bio. The BUG_ON conditions
-- on the buffer head hold; a device's number of sectors comes from the kernel.
use ccnvme.Prelude.{
  ℕ, ◌+◌, ◌-◌, ◌*◌, ◌/◌, ◌^◌, ◌≤◌, ◌<◌, ◌≡◌, arith, false, ◌||◌, leb, ◌==◌, if◌then◌else◌, refl,
  ==_ne, le→leb, lt→leb,
}
use native.Mathlib.Decide.{dec_le}
use ccnvme.Ring.{u32, u64}
use ccnvme.Ring.Laws.{mod_below}
use ccnvme.Kernel.{Kernel, Bio, BufferHead, Opf}

module _ (K : Kernel) where
  open K use {capacity}

  -- A bio that runs over the end of its device is cut there; one that starts behind the end, or is
  -- on a device of no size, is let through.
  unfoldable pub guard_bio_eod : Bio → Bio
  guard_bio_eod bio =
      let maxsector = capacity bio.dev in
      if maxsector == 0
      then bio
      else (if leb maxsector bio.sector
          then bio
          else (if leb (bio.size / 2 ^ 9) (maxsector - bio.sector) then bio else record bio {
            size = bio.size - u32 (bio.size + 2 ^ 64 - u64 ((maxsector - bio.sector) * 2 ^ 9));
          }))

  unfoldable pub bh2bio : BufferHead → Opf → Bio
  unfolding guard_bio_eod
  bh2bio bh op_flags =
      let bio = guard_bio_eod (record {
        dev = bh.bdev;
        sector = u64 (bh.blocknr * (bh.b_size / 2 ^ 9));
        size = bh.b_size;
        opf = op_flags;
      }) in
      record bio {
        opf = record op_flags {
          meta = op_flags.meta || bh.is_meta;
          prio = op_flags.prio || bh.is_prio;
        };
      }

  -- the bytes that are cut off, where a bio runs over the end
  cut_bytes :
      (size room : ℕ)
      → size < 2 ^ 32
      → room < size / 2 ^ 9
      → size - u32 (size + 2 ^ 64 - u64 (room * 2 ^ 9)) ≡ room * 2 ^ 9
  cut_bytes size room small over = omega (arith, mod_below (room * 2 ^ 9) (2 ^ 64) (omega arith))

  -- A bio of fewer than 2^32 bytes that starts before the end of its device afterwards ends, in
  -- whole sectors, at the device's end or before; it starts where it did and is no longer than it
  -- was, and is not changed at all if it ended there or before already.
  pub guard_bio_eod-fits :
      (bio : Bio)
      → bio.size < 2 ^ 32
      → bio.sector < capacity bio.dev
      → (bio.sector + (guard_bio_eod bio).size / 2 ^ 9 ≤ capacity bio.dev)
        × ((guard_bio_eod bio).sector ≡ bio.sector)
        × ((guard_bio_eod bio).size ≤ bio.size)
        × (bio.sector + bio.size / 2 ^ 9 ≤ capacity bio.dev → guard_bio_eod bio ≡ bio)
  unfolding guard_bio_eod
  guard_bio_eod-fits bio small inside = elim (dec_le (bio.size / 2 ^ 9) room) [
    | yes p ↦
        rw (sized, started, le→leb (bio.size / 2 ^ 9) room p)
          (omega arith, refl, omega arith, λ q. refl)
    | no p ↦
        rw (sized, started, lt→leb (bio.size / 2 ^ 9) room (omega arith))
          (
            omega (arith, cut_bytes bio.size room small (omega arith)),
            refl,
            omega (arith, cut_bytes bio.size room small (omega arith)),
            λ q. absurd (omega arith),
          )
  ]
    where
      room : ℕ
      room = capacity bio.dev - bio.sector

      sized : (capacity bio.dev == 0) ≡ false
      sized = ==_ne (capacity bio.dev) 0 (omega arith)

      started : leb (capacity bio.dev) bio.sector ≡ false
      started = lt→leb (capacity bio.dev) bio.sector inside
