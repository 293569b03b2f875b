-- ===== src/Commit.antt =====
-- The checkpoint of committed transactions, ccnvme/checkpoint.c: commit_write_entry_per_stream,
-- get_sb_by_devid and commit_write.
pub mod Index
pub mod Entry
pub mod Laws
use ccnvme.Prelude.{
  ℕ, zero, suc, ◌+◌, Bool, true, false, Option, none, some, List, [], ◌∷◌, ◌++◌, ◌==◌,
  if◌then◌else◌, ◌>>=◌,
}
use ccnvme.Ometa.{Ometa}
use ccnvme.Kernel.{Kernel, Event, IpuEntry, write_bh, wait_on_buffer, put_page}
use ccnvme.State.{Stream, stream_ometa_at, RegisteredDev, minor, Olayer, emit}
use ccnvme.Ipu.{group_idx, tree_idx, tree_off}
use ccnvme.Scan.{Phase, find_begin, scan}

-- The return value of the commit routines.
pub data Status : Type 0 where
  ok enomem : Status

-- `get_sb_by_devid`: the first device with this minor number
unfoldable pub find_sb : List RegisteredDev → ℕ → Option ℕ
find_sb [] id = none
find_sb (d ∷ ds) id = if minor d.dev_id == id then some d.sb else find_sb ds id

module _ (K : Kernel) where
  open K use {tree_lookup, tree_delete, sb_getblk, buffer_locked, nr_cpus}

  -- `radix_tree_lookup` and `radix_tree_delete` at the place of a block
  unfoldable pub index_lookup : Olayer K → ℕ → Option IpuEntry
  index_lookup w lba =
      let g = group_idx lba w.blocks_per_group in
      tree_lookup (w.ipu_tree (tree_idx g nr_cpus)) (tree_off g lba w.blocks_per_group nr_cpus)

  unfoldable pub index_delete : Olayer K → ℕ → Olayer K
  index_delete w lba =
      let g = group_idx lba w.blocks_per_group in
      let t = tree_idx g nr_cpus in
      record w {
        ipu_tree = λ i.
            if i == t
            then tree_delete (w.ipu_tree t) (tree_off g lba w.blocks_per_group nr_cpus)
            else w.ipu_tree i;
      }

  -- the module's state and `bh_list`
  pub record Work : Type 0 where
    pub layer : Olayer K
    pub bh_list : List ℕ

  -- the part of a round that has found an entry of the transaction; no buffer means no memory
  unfoldable pub queue_buffer : Option ℕ → Work → Status × Work
  queue_buffer none v = (enomem, v)
  queue_buffer (some bh) v =
      if buffer_locked v.layer.io bh
      then (ok, record v { bh_list = v.bh_list ++ (bh ∷ []) })
      else (ok, record { layer = emit K (write_bh bh) v.layer; bh_list = v.bh_list ++ (bh ∷ []) })

  -- the part of a round after the deletion from the index, by what that returned
  unfoldable pub commit_found : ℕ → ℕ → ℕ → Option IpuEntry → Work → Status × Work
  unfolding queue_buffer
  commit_found sb txid lba none v = (ok, v)
  commit_found sb txid lba (some entry) v =
      if entry.txid == txid then queue_buffer (sb_getblk sb lba) v else (ok, v)

  -- one round of the loop over the blocks of an entry
  unfoldable pub commit_block : ℕ → ℕ → ℕ → Work → Status × Work
  unfolding index_lookup index_delete commit_found
  commit_block sb txid lba v =
      commit_found sb txid lba (index_lookup v.layer lba)
        (record v { layer = index_delete v.layer lba })

  unfoldable pub commit_blocks : ℕ → ℕ → ℕ → ℕ → Work → Status × Work
  commit_blocks sb txid zero lba v = (ok, v)
  commit_blocks sb txid (suc n) lba v =
      let (st, v') = commit_block sb txid lba v in
      elim st [ ok ↦ commit_blocks sb txid n (lba + 1) v' | enomem ↦ (enomem, v') ]

  unfoldable pub commit_write_entry_per_stream : Ometa → Option ℕ → ℕ → Work → Status × Work
  commit_write_entry_per_stream o none txid v = (ok, v)
  commit_write_entry_per_stream o (some sb) txid v = commit_blocks sb txid o.length o.lba v

  unfoldable pub get_sb_by_devid : Olayer K → ℕ → Option ℕ
  unfolding find_sb
  get_sb_by_devid w id = find_sb w.registered_list id

  -- the loop over `bh_list`
  unfoldable pub wait_all : List ℕ → Olayer K → Olayer K
  wait_all [] w = w
  wait_all (bh ∷ l) w =
      let w' = emit K (wait_on_buffer bh) w in
      wait_all l (if w.version_consistency then w' else emit K (put_page bh) w')

  -- what commit_write does with an entry; it drops the status
  unfoldable pub commit_entry : Ometa → ℕ → Work → Work
  unfolding commit_write_entry_per_stream get_sb_by_devid
  commit_entry o txid v =
      (commit_write_entry_per_stream o (get_sb_by_devid v.layer o.device_id) txid v).1

  -- `none` means that a walk ran out of fuel.
  unfoldable pub commit_write : Stream → Olayer K → Option (Olayer K)
  unfolding commit_entry
  commit_write s w =
      let start : Work = record { layer = w; bh_list = [] } in
      elim (scan s.nr_ometa (stream_ometa_at s) (stream_ometa_at s) commit_entry s.nr_ometa s.head
        s.flushed find_begin start) [
          | none ↦ none
          | some (phase, v) ↦ some (wait_all v.bh_list v.layer)
        ]
