-- ===== src/Mqfs/Inodes.antt =====
-- Inodes and the directories above them: mqfs/inode.c, ext4_write_inode without a journal and with
-- WB_SYNC_ALL, and mqfs/filemap_compat.c, tx_write_inode_metadata,
-- mqfs_atomic_write_parent_submit and mqfs_atomic_write_parent_wait. References to inodes are not
-- counted.
pub mod Phase
pub mod Mapping
pub mod Metadata
pub mod Parents
use ccnvme.Prelude.{
  ℕ, zero, suc, Bool, true, false, not, ◌&&◌, Option, none, some, List, [], ◌∷◌, ◌++◌, ◌==◌,
  if◌then◌else◌, ◌>>=◌,
}
use ccnvme.Kernel.{Kernel}
use ccnvme.Mqfs.{Buffer, Inode, Mqfs, Vfs, eio, set_buffer, set_inode}
use ccnvme.Mqfs.Buffers.{
  requested_not_uptodate, tx_write_dirty_buffer, copy_out_bh, mqfs_submit_mapping_buffers,
  mqfs_wait_mapping_buffers, tx_write_wait_inode_buffer,
}

module _ (K : Kernel) (V : Vfs K) where
  -- the test behind the write: a buffer that was sent before and whose write has failed
  unfoldable pub checked : ℕ → Mqfs K → ℕ × Mqfs K
  checked b w = (if requested_not_uptodate (w.buffers b) then eio else 0, w)

  -- `local_bh`, put on the list of copies and made dirty
  unfoldable pub note_copy : ℕ → ℕ → Mqfs K → Mqfs K
  note_copy ino local_bh w =
      let i = w.inodes ino in
      set_buffer K local_bh (record (w.buffers local_bh) { assoc_map = some ino; dirty = true })
        (set_inode K ino (record i { copyout_inode_list = local_bh ∷ i.copyout_inode_list }) w)

  -- a buffer that is associated with no mapping, and so in no list
  unfoldable pub note_inodemeta : ℕ → ℕ → Mqfs K → Mqfs K
  note_inodemeta ino b w =
      let i = w.inodes ino in
      set_buffer K b (record (w.buffers b) { assoc_map = some ino })
        (set_inode K ino
          (record i {
            inodemeta_pending_list = b ∷ i.inodemeta_pending_list;
            has_buffer_mapping = true;
          })
          w)

  -- the error of a copy, or the write of the copy
  unfoldable pub write_copy : ℕ → ℕ → ℕ → ℕ × ℕ × Mqfs K → Option (ℕ × Mqfs K)
  write_copy ino sid b (zero, local_bh, w) =
      tx_write_dirty_buffer K V local_bh sid (note_copy ino local_bh w) >>= λ w1.
      some (checked b w1)
  write_copy ino sid b (suc e, local_bh, w) = some (suc e, w)

  -- with the inode's buffer, by the mapping that it is associated with
  unfoldable pub write_located : ℕ → ℕ → ℕ → Option ℕ → Mqfs K → Option (ℕ × Mqfs K)
  write_located ino sid b (some m) w = copy_out_bh K V b w >>= λ c. write_copy ino sid b c
  write_located ino sid b none w =
      tx_write_dirty_buffer K V b sid (note_inodemeta ino b w) >>= λ w1. some (checked b w1)

  unfoldable pub write_loc : ℕ → ℕ → ℕ × ℕ → Mqfs K → Option (ℕ × Mqfs K)
  write_loc ino sid (suc err, b) w = some (suc err, w)
  write_loc ino sid (zero, b) w = write_located ino sid b (w.buffers b).assoc_map w

  unfoldable pub ext4_write_inode : ℕ → ℕ → Mqfs K → Option (ℕ × Mqfs K)
  ext4_write_inode ino sid w = write_loc ino sid (V.inode_loc ino) w

  unfoldable pub tx_write_inode_metadata : ℕ → ℕ → Mqfs K → Option (ℕ × Mqfs K)
  tx_write_inode_metadata ino sid w =
      let (calls, all, datasync) = V.writes_inode (w.inodes ino) in
      let w1 =
        set_inode K ino (record (w.inodes ino) { dirty_all = all; dirty_datasync = datasync }) w in
      if calls then ext4_write_inode ino sid w1 else some (0, w1)

  unfoldable pub clear_newentry : ℕ → Mqfs K → Mqfs K
  clear_newentry ino w = set_inode K ino (record (w.inodes ino) { newentry = false }) w

  -- a round with the inode of the parent directory, and how the loop goes on behind it
  unfoldable pub climb_to :
      (ℕ → List ℕ → Mqfs K → Option (ℕ × List ℕ × Mqfs K))
      → Option ℕ
      → ℕ
      → List ℕ
      → Mqfs K
      → Option (ℕ × List ℕ × Mqfs K)
  climb_to go_on none sid waiting w = some (0, waiting, w)
  climb_to go_on (some p) sid waiting w = mqfs_submit_mapping_buffers K V p sid w >>= λ w1.
      tx_write_inode_metadata p sid w1 >>= λ r.
      if r.0 == 0 then go_on p (waiting ++ (p ∷ [])) r.1 else some (r.0, waiting, r.1)

  -- `while (ext4_test_inode_state(inode, EXT4_STATE_NEWENTRY))`, with the inodes to wait for so far.
  -- Only the leaf loses its mark here. `fuel` bounds the rounds, see `Parents`.
  unfoldable pub climb : ℕ → Bool → ℕ → ℕ → List ℕ → Mqfs K → Option (ℕ × List ℕ × Mqfs K)
  climb zero leaf ino sid waiting w = none
  climb (suc fuel) leaf ino sid waiting w =
      if (w.inodes ino).newentry
      then climb_to (λ p. climb fuel false p sid) (V.parent_of ino) sid waiting
          (if leaf then clear_newentry ino w else w)
      else some (0, waiting, w)

  unfoldable pub mqfs_atomic_write_parent_submit : ℕ → ℕ → ℕ → Mqfs K → Option (ℕ × List ℕ × Mqfs K)
  mqfs_atomic_write_parent_submit fuel ino sid w = climb fuel true ino sid [] w

  -- the result of the inode before is not kept
  unfoldable pub parent_wait : List ℕ → ℕ → Mqfs K → Option (ℕ × Mqfs K)
  parent_wait [] ret w = some (ret, w)
  parent_wait (p ∷ ps) ret w = mqfs_wait_mapping_buffers K V p (clear_newentry p w) >>= λ r.
      let (ret', w1) = tx_write_wait_inode_buffer K V p r.1 in parent_wait ps ret' w1

  unfoldable pub mqfs_atomic_write_parent_wait : List ℕ → Mqfs K → Option (ℕ × Mqfs K)
  mqfs_atomic_write_parent_wait waiting w = parent_wait waiting 0 w
