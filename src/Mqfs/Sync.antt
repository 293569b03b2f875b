-- ===== src/Mqfs/Sync.antt =====
-- fsync and the atomic write of a file without a journal: mqfs/filemap_compat.c,
-- file_tag_streamwrite_range and __generic_file_atomic_write_submit, _wait and _wait_nodata, and
-- mqfs/fsync.c, ext4_sync_file and ext4_atomic_file. The branches with a jbd2 journal are ext4's.
pub mod Progress
pub mod File
pub mod Order
pub mod Waits
pub mod Result
pub mod Total
use ccnvme.Prelude.{
  ℕ, zero, suc, ◌+◌, ◌%◌, ◌^◌, Bool, true, false, not, ◌&&◌, ◌||◌, Option, none, some, List, [],
  ◌∷◌, ◌==◌, if◌then◌else◌, ◌>>=◌,
}
use ccnvme.Kernel.{Kernel, Bio, submit_bio, wait_for_completion}
use ccnvme.State.{Olayer, emit}
use ccnvme.Journal.{alloc_journal_block}
use ccnvme.Submit.{stream_commit_tx}
use ccnvme.Flush.{stream_blkdev_issue_flush}
use ccnvme.Mqfs.{Inode, Sbi, Mount, Mqfs, Vfs, eio, erofs, first_error, sync_only, set_inode}
use ccnvme.Mqfs.Streams.{Attempt, took, waits_for, get_free_stream, put_stream}
use ccnvme.Mqfs.Buffers.{
  mqfs_submit_mapping_buffers, mqfs_wait_mapping_buffers, tx_write_wait_inode_buffer,
}
use ccnvme.Mqfs.Inodes.{
  tx_write_inode_metadata, mqfs_atomic_write_parent_submit, mqfs_atomic_write_parent_wait,
}

-- the block that describes the transaction: a synchronous write with no page yet
abbrev pub jh_bio : Bio
jh_bio = record { dev = 0; sector = 0; size = 0; opf = sync_only }

abbrev pub page_size : ℕ
page_size = 4096

module _ (K : Kernel) (V : Vfs K) where
  -- `mapping_needs_writeback`
  unfoldable pub mapping_needs_writeback : ℕ → Bool
  mapping_needs_writeback ino =
      (not (V.is_dax ino) && not (V.nr_pages ino == 0))
      || (V.is_dax ino && not (V.nr_exceptional ino == 0))

  unfoldable pub file_tag_streamwrite_range : ℕ → ℕ → ℕ → ℕ → Mqfs K → Option (ℕ × Mqfs K)
  file_tag_streamwrite_range ino lstart lend sid w =
      (if mapping_needs_writeback ino
        then V.stream_write ino lstart lend sid w.layer
        else some (0, w.layer))
      >>= λ r. some (first_error r.0 (V.wb_err (r.1).io ino), record w { layer = r.1 })

  -- `inode_lock` of a lock that is held waits for ever, since nobody else runs; `inode_unlock` of
  -- one that is not held is counted.
  unfoldable pub inode_lock : ℕ → Mqfs K → Option (Mqfs K)
  inode_lock ino w =
      if (w.inodes ino).held
      then none
      else some (set_inode K ino (record (w.inodes ino) { held = true }) w)

  unfoldable pub inode_unlock : ℕ → Mqfs K → Mqfs K
  inode_unlock ino w =
      if (w.inodes ino).held
      then set_inode K ino (record (w.inodes ino) { held = false }) w
      else record w { bad_unlocks = w.bad_unlocks + 1 }

  -- behind the label `out`
  unfoldable pub submit_out : ℕ → ℕ → Mqfs K → ℕ × Mqfs K
  submit_out ino ret w =
      let err = V.wb_err w.layer.io ino in
      let ret' = first_error ret err in (if err == 0 then ret' else err, w)

  -- the part under the inode lock
  unfoldable pub submit_locked : ℕ → Bool → ℕ → Mqfs K → Option (ℕ × Mqfs K)
  submit_locked ino datasync sid w = mqfs_submit_mapping_buffers K V ino sid w >>= λ w1.
      (if not (w1.inodes ino).dirty_all || (datasync && not (w1.inodes ino).dirty_datasync)
        then some (0, w1)
        else tx_write_inode_metadata K V ino sid w1)
      >>= λ r. some (submit_out ino r.0 r.1)

  -- an error of the file's data ends it before the lock is taken
  unfoldable pub generic_file_atomic_write_submit :
      ℕ → ℕ → ℕ → Bool → ℕ → Mqfs K → Option (ℕ × Mqfs K)
  generic_file_atomic_write_submit ino start end datasync sid w =
      file_tag_streamwrite_range ino start end sid w >>= λ r.
      if r.0 == 0 then (inode_lock ino r.1 >>= λ w1. submit_locked ino datasync sid w1) else some r

  unfoldable pub generic_file_atomic_write_wait : ℕ → Mqfs K → Option (ℕ × Mqfs K)
  generic_file_atomic_write_wait ino w =
      let (ret, w1) = tx_write_wait_inode_buffer K V ino w in
      mqfs_wait_mapping_buffers K V ino w1 >>= λ r.
      let w2 = inode_unlock ino r.1 in
      let ret' = first_error (first_error ret r.0) (V.data_wait w2.layer.io ino) in
      let err = V.wb_err w2.layer.io ino in some (if err == 0 then ret' else err, w2)

  unfoldable pub generic_file_atomic_write_wait_nodata : ℕ → Mqfs K → ℕ × Mqfs K
  generic_file_atomic_write_wait_nodata ino w = (0, inode_unlock ino w)

  -- The writes of a transaction: the file and, if that has no error, the new directories above it;
  -- with whether these are waited for (`sync_parent`), and which.
  unfoldable pub submit_file : ℕ → ℕ → ℕ → ℕ → Bool → ℕ → Mqfs K → Option (Bool × List ℕ × Mqfs K)
  submit_file fuel ino start end datasync sid w =
      generic_file_atomic_write_submit ino start end datasync sid w >>= λ r.
      if r.0 == 0
      then (mqfs_atomic_write_parent_submit K V fuel ino sid r.1 >>= λ p. some (true, p.1, p.2))
      else some (false, [], r.1)

  -- The journal description block and the end of the transaction. What alloc_journal_block returns
  -- is not looked at.
  unfoldable pub end_tx : ℕ → Olayer K → Option (Olayer K)
  end_tx sid l = alloc_journal_block K sid jh_bio 1 l >>= λ r.
      some (stream_commit_tx K sid (emit K (submit_bio (record r.1 { size = page_size })) r.2))

  -- both write to the stream in the same way
  unfoldable pub submit_tx : ℕ → ℕ → ℕ → ℕ → Bool → ℕ → Mqfs K → Option (Bool × List ℕ × Mqfs K)
  submit_tx fuel ino start end datasync sid w =
      submit_file fuel ino start end datasync sid w >>= λ r.
      end_tx sid (r.2).layer >>= λ l. some (r.0, r.1, record (r.2) { layer = l })

  -- the flush, whose error is not looked at, and the stream given back
  unfoldable pub flush_and_put : Mount → ℕ → ℕ × Mqfs K → Option (ℕ × Mqfs K)
  flush_and_put m sid (ret, w) =
      (if m.barrier then stream_blkdev_issue_flush K (m.dev ∷ []) sid w.layer else some w.layer)
      >>= λ l. some (ret, record w { layer = l; sbi = put_stream w.sbi sid })

  -- with the directories, whose result takes the place of the file's
  unfoldable pub wait_tx : Mount → ℕ → Bool × List ℕ × Mqfs K → Option (ℕ × Mqfs K)
  wait_tx m ino (sync_parent, waiting, w) = generic_file_atomic_write_wait ino w >>= λ r.
      (if sync_parent then mqfs_atomic_write_parent_wait K V waiting r.1 else some r) >>= λ q.
      some (q.0, record (q.1) { layer = emit K (wait_for_completion m.dev) (q.1).layer })

  -- with the stream that get_free_stream has found; `txid` goes into a call that does not use it
  unfoldable pub sync_on : Mount → ℕ → ℕ → ℕ → ℕ → Bool → Attempt → Mqfs K → Option (ℕ × Mqfs K)
  sync_on m fuel ino start end datasync (waits_for s) w = none
  sync_on m fuel ino start end datasync (took sid sbi) w =
      submit_tx fuel ino start end datasync sid
        (record w { sbi = record sbi { txid_alloc = (sbi.txid_alloc + 1) % 2 ^ 32 } })
      >>= λ r. wait_tx m ino r >>= λ q. flush_and_put m sid q

  unfoldable pub atomic_on : Mount → ℕ → ℕ → ℕ → ℕ → Bool → Attempt → Mqfs K → Option (ℕ × Mqfs K)
  atomic_on m fuel ino start end datasync (waits_for s) w = none
  atomic_on m fuel ino start end datasync (took sid sbi) w =
      submit_tx fuel ino start end datasync sid
        (record w { sbi = record sbi { txid_alloc = (sbi.txid_alloc + 1) % 2 ^ 32 } })
      >>= λ r. flush_and_put m sid (generic_file_atomic_write_wait_nodata ino r.2)

  -- the tests at the beginning
  unfoldable pub if_writable : Mount → Mqfs K → Option (ℕ × Mqfs K) → Option (ℕ × Mqfs K)
  if_writable m w go_on =
      if m.shutdown
      then some (eio, w)
      else (if m.rdonly then some (if m.aborted then erofs else 0, w) else go_on)

  unfoldable pub ext4_sync_file : Mount → ℕ → ℕ → ℕ → ℕ → ℕ → Bool → Mqfs K → Option (ℕ × Mqfs K)
  ext4_sync_file m fuel cpu ino start end datasync w =
      if_writable m w (sync_on m fuel ino start end datasync (get_free_stream cpu w.sbi) w)

  unfoldable pub ext4_atomic_file : Mount → ℕ → ℕ → ℕ → ℕ → ℕ → Bool → Mqfs K → Option (ℕ × Mqfs K)
  ext4_atomic_file m fuel cpu ino start end datasync w =
      if_writable m w (atomic_on m fuel ino start end datasync (get_free_stream cpu w.sbi) w)
