-- ===== src/Mqfs/Super.antt =====
-- The streams of a mount, mqfs/super.c: how ext4_fill_super takes them and ext4_put_super gives them
-- back.
pub mod Fresh
pub mod Return
use ccnvme.Prelude.{
  ℕ, Bool, true, false, not, ◌&&◌, Option, none, some, List, [], ◌∷◌, length, replicate, ◌==◌,
  if◌then◌else◌, ◌>>=◌,
}
use ccnvme.Ometa.{Ometa}
use ccnvme.Kernel.{Kernel}
use ccnvme.State.{Olayer}
use ccnvme.Kfifo.{Kfifo}
use ccnvme.Recovery.{graceful_shutdown, olayer_crash_recovery}
use ccnvme.Register.{InitParam, Pool, olayer_register_streams, olayer_unregister_streams}
use ccnvme.Mqfs.{Sbi}

-- What the super block says: the option nr_streams, the option crashmonkey, the number of the disk,
-- the super block itself and its blocks per group.
pub record SuperBlock : Type 0 where
  pub nr_streams : ℕ
  pub crashmonkey : Bool
  pub dev : ℕ
  pub sb : ℕ
  pub blocks_per_group : ℕ

-- `param`, with its one device
abbrev pub param_of : SuperBlock → InitParam
param_of s = record {
  nr_device = 1;
  device_ids = λ i. s.dev;
  sbs = λ i. s.sb;
  cmb_device_id = s.dev;
  parea_partition_hint = s.blocks_per_group;
}

-- how many streams are asked for
unfoldable pub wanted_streams : SuperBlock → ℕ → ℕ
wanted_streams s possible_cpus =
    let nr = if s.crashmonkey then 2 else s.nr_streams in if nr == 0 then possible_cpus else nr

-- the fields of the mount, with a free lock for each stream that was registered
abbrev pub mounted : List ℕ → Sbi
mounted strs = record {
  streams = strs;
  nr_streams = length strs;
  stream_lock = replicate (length strs) false;
  txid_alloc = 0;
}

module _ (K : Kernel) (Q : Kfifo) where
  -- `buffer` is what recovery reads from the device; it runs only for crashmonkey, when fewer
  -- streams than wanted were free.
  unfoldable pub mount_streams :
      (ℕ → ℕ → Ometa) → ℕ → SuperBlock → Pool K Q → Option (Sbi × Pool K Q)
  unfolding wanted_streams
  mount_streams buffer possible_cpus s p =
      let nr = wanted_streams s possible_cpus in
      let (strs, p1) = olayer_register_streams K Q nr (param_of s) p in
      (if s.crashmonkey && not (nr == length strs)
        then (olayer_crash_recovery K buffer s.dev p1.layer >>= λ r. some (r.1))
        else some p1.layer)
      >>= λ l. some (mounted strs, record p1 { layer = l })

  -- graceful_shutdown at the beginning of ext4_put_super, olayer_unregister_streams at its end;
  -- `none` also where the shutdown ends in a fault
  unfoldable pub unmount_streams : SuperBlock → Sbi → Pool K Q → Option (Sbi × Pool K Q)
  unmount_streams s sbi p = graceful_shutdown K sbi.streams s.sb p.layer >>= λ r. r.1 >>= λ l.
      some (
        record sbi { nr_streams = 0 },
        olayer_unregister_streams K Q sbi.streams (s.dev ∷ []) (record p { layer = l }),
      )
