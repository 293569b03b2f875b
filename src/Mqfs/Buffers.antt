-- ===== src/Mqfs/Buffers.antt =====
-- The metadata buffers of a file, mqfs/filemap_compat.c: tx_write_dirty_buffer,
-- mqfs_submit_mapping_buffers, osync_buffers_list, mqfs_wait_mapping_buffers and
-- tx_write_wait_inode_buffer; and mqfs/page_sharing.c. Nobody else moves the buffers of the lists
-- while a loop has let go of the lock. A get_bh and the brelse behind the same call cancel out, and
-- are left out; the reference of a write under way is counted.
pub mod Waits
pub mod Osync
pub mod Sharing
pub mod Dirty
pub mod Sends
use ccnvme.Prelude.{
  ℕ, zero, suc, ◌+◌, ◌-◌, Bool, true, false, not, ◌&&◌, ◌||◌, Option, none, some, List, [], ◌∷◌,
  ◌++◌, ◌==◌, if◌then◌else◌, ◌>>=◌, length,
}
use mathlib.Core.List.{reverse, filter}
use ccnvme.Kernel.{Kernel, BufferHead}
use ccnvme.Submit.{stream_submit_bh_force_ipu}
use ccnvme.Mqfs.{
  Buffer, Inode, Mqfs, Vfs, eio, enomem, first_error, set_buffer, set_inode, wait_buffer, tx_sync,
  update, is_power_of_two, is_aligned,
}

-- `list_del_init`, by the node that is taken off
abbrev pub list_del : ℕ → List ℕ → List ℕ
list_del b [] = []
list_del b (c ∷ l) = if b == c then list_del b l else c ∷ list_del b l

-- a head as alloc_buffer_head returns it, with what copy_out_bh sets: its place, its count of
-- references, the address of its bytes, and these
abbrev pub fresh_head : BufferHead → ℕ → ℕ → List ℕ → Buffer
fresh_head h count tmp bytes = record {
  head = record h { is_meta = false; is_prio = false };
  dirty = false;
  locked = false;
  uptodate = false;
  req = false;
  assoc_map = none;
  count = count;
  b_private = tmp;
  b_data = bytes;
}

-- what is left of a range of pages when a range of a size is given back there
abbrev pub freed : Option ℕ → ℕ → Option ℕ
freed none size = none
freed (some n) size = if n == size then none else some n

-- the tests of the waits
abbrev pub not_uptodate : Buffer → Bool
not_uptodate v = not v.uptodate

abbrev pub requested_not_uptodate : Buffer → Bool
requested_not_uptodate v = v.req && not v.uptodate

module _ (K : Kernel) (V : Vfs K) where
  -- Metadata always takes the in-place-update path. A buffer that is not dirty is left unlocked.
  unfoldable pub tx_write_dirty_buffer : ℕ → ℕ → Mqfs K → Option (Mqfs K)
  tx_write_dirty_buffer b sid w =
      let w1 = wait_buffer K V b w in
      let v = w1.buffers b in
      if v.dirty
      then stream_submit_bh_force_ipu K v.head tx_sync sid w1.layer >>= (λ l. some (
          set_buffer K b
            (record v { dirty = false; locked = true; req = true; count = v.count + 1 })
            (record w1 { layer = l })))
      else some w1

  -- A buffer is taken off the private list, which is then `rest`; a dirty or locked one goes to the
  -- head of the pending list and keeps its mapping.
  unfoldable pub move_to_pending : ℕ → ℕ → List ℕ → Mqfs K → Mqfs K
  move_to_pending ino b rest w =
      let v = w.buffers b in
      let i = record (w.inodes ino) { private_list = rest } in
      if v.dirty || v.locked
      then set_inode K ino (record i { fsmeta_pending_list = b ∷ i.fsmeta_pending_list }) w
      else set_buffer K b (record v { assoc_map = none }) (set_inode K ino i w)

  -- `while (!list_empty(list))`, over what is left of the list
  unfoldable pub submit_buffers : ℕ → ℕ → List ℕ → Mqfs K → Option (Mqfs K)
  submit_buffers ino sid [] w = some w
  submit_buffers ino sid (b ∷ rest) w =
      let w1 = move_to_pending ino b rest w in
      (if (w.buffers b).dirty then tx_write_dirty_buffer b sid w1 else some w1) >>= λ w2.
      submit_buffers ino sid rest w2

  -- mqfs_submit_mapping_buffers and mqfs_submit_buffers_list, which always return 0
  unfoldable pub mqfs_submit_mapping_buffers : ℕ → ℕ → Mqfs K → Option (Mqfs K)
  mqfs_submit_mapping_buffers ino sid w =
      if not (w.inodes ino).has_buffer_mapping
      then some w
      else submit_buffers ino sid (w.inodes ino).private_list w

  -- a loop that waits for buffer after buffer, with what it does before the wait, its test for an
  -- error, and what it does last
  unfoldable pub wait_each :
      (ℕ → Mqfs K → Mqfs K)
      → (Buffer → Bool)
      → (ℕ → Mqfs K → Mqfs K)
      → List ℕ
      → ℕ
      → Mqfs K
      → ℕ × Mqfs K
  wait_each before failed after [] err w = (err, w)
  wait_each before failed after (b ∷ bs) err w =
      let w1 = wait_buffer K V b (before b w) in
      wait_each before failed after bs (if failed (w1.buffers b) then eio else err) (after b w1)

  -- the last locked buffer of a list that is given from its end
  unfoldable pub first_locked : List ℕ → Mqfs K → Option ℕ
  first_locked [] w = none
  first_locked (b ∷ bs) w = if (w.buffers b).locked then some b else first_locked bs w

  -- osync_buffers_list, on a list given from its end: after each wait it starts again. `fuel`
  -- bounds the rounds.
  unfoldable pub osync_buffers_list : ℕ → List ℕ → ℕ → Mqfs K → Option (ℕ × Mqfs K)
  osync_buffers_list zero l err w = none
  osync_buffers_list (suc fuel) l err w = elim (first_locked l w) [
    | none ↦ some (err, w)
    | some b ↦
        let w1 = wait_buffer K V b w in
        osync_buffers_list fuel l (if (w1.buffers b).uptodate then err else eio) w1
  ]

  -- a buffer that has become dirty again goes back to the private list of its mapping,
  -- which every buffer of a pending list has
  abbrev pub put_back_dirty : ℕ → Option ℕ → Buffer → Mqfs K → Mqfs K
  put_back_dirty b none v w = w
  put_back_dirty b (some m) v w =
      if v.dirty
      then set_buffer K b v
          (set_inode K m (record (w.inodes m) { private_list = b ∷ (w.inodes m).private_list }) w)
      else w

  unfoldable pub take_pending : ℕ → ℕ → Mqfs K → Mqfs K
  take_pending ino b w =
      let i = w.inodes ino in
      let v = w.buffers b in
      put_back_dirty b v.assoc_map v (
        set_buffer K b (record v { assoc_map = none })
          (set_inode K ino (record i { fsmeta_pending_list = list_del b i.fsmeta_pending_list }) w))

  abbrev pub same : ℕ → Mqfs K → Mqfs K
  same b w = w

  -- mqfs_wait_mapping_buffers and mqfs_wait_buffers_list: the pending buffers from the end of their
  -- list on, then those of the private list that are locked. The rounds are enough, see `Osync`.
  unfoldable pub mqfs_wait_mapping_buffers : ℕ → Mqfs K → Option (ℕ × Mqfs K)
  mqfs_wait_mapping_buffers ino w =
      if not (w.inodes ino).has_buffer_mapping
      then some (0, w)
      else (let (err, w1) =
            wait_each (take_pending ino) not_uptodate same
              (reverse (w.inodes ino).fsmeta_pending_list) 0 w in
          let l = (w1.inodes ino).private_list in
          osync_buffers_list (suc (length l)) (reverse l) 0 w1 >>= λ r.
          some (first_error err r.0, r.1))

  -- free_pages at an address, of the order of `size`: a range of that size is given back.
  unfoldable pub mqfs_free : ℕ → ℕ → Mqfs K → Mqfs K
  mqfs_free ptr size w = record w {
    pages = w.pages - 1;
    ranges = update w.ranges ptr (freed (w.ranges ptr) size);
  }

  -- release_copy_out_bh, with the size of the buffer, as its caller gives it
  unfoldable pub release_copy_out_bh : ℕ → Mqfs K → Mqfs K
  release_copy_out_bh b w =
      let v = w.buffers b in
      let w1 = mqfs_free v.b_private v.head.b_size w in record w1 { heads = w1.heads - 1 }

  unfoldable pub take_inodemeta : ℕ → ℕ → Mqfs K → Mqfs K
  take_inodemeta ino b w =
      let i = w.inodes ino in
      set_buffer K b (record (w.buffers b) { assoc_map = none })
        (set_inode K ino (record i { inodemeta_pending_list = list_del b i.inodemeta_pending_list })
          w)

  unfoldable pub take_copyout : ℕ → ℕ → Mqfs K → Mqfs K
  take_copyout ino b w =
      let i = w.inodes ino in
      set_buffer K b (record (w.buffers b) { assoc_map = none })
        (set_inode K ino (record i { copyout_inode_list = list_del b i.copyout_inode_list }) w)

  unfoldable pub tx_write_wait_inode_buffer : ℕ → Mqfs K → ℕ × Mqfs K
  tx_write_wait_inode_buffer ino w =
      let (err, w1) =
        wait_each (take_inodemeta ino) requested_not_uptodate same
          (reverse (w.inodes ino).inodemeta_pending_list) 0 w in
      wait_each (take_copyout ino) requested_not_uptodate release_copy_out_bh
        (reverse (w1.inodes ino).copyout_inode_list) err w1

  -- the range noted, unless the address is 0
  abbrev pub note_range : ℕ → ℕ → Mqfs K → Mqfs K
  note_range ptr size w =
      if ptr == 0
      then w
      else record w { pages = w.pages + 1; ranges = update w.ranges ptr (some size) }

  -- mqfs_alloc: an address, or 0 where there is no memory. `none` stands for a BUG_ON; the warnings
  -- are left out.
  unfoldable pub mqfs_alloc : ℕ → Mqfs K → Option (ℕ × Mqfs K)
  mqfs_alloc size w =
      let ptr = V.get_free_pages w.layer.io size in
      if is_power_of_two size
      then (if is_aligned ptr size then some (ptr, note_range ptr size w) else none)
      else none

  -- copy_out_bh behind mqfs_alloc: the error, the new head and the state. Where there is no memory
  -- the head is given up by brelse, which frees nothing.
  unfoldable pub copy_bytes : ℕ → ℕ → ℕ → Mqfs K → ℕ × ℕ × Mqfs K
  copy_bytes bh_in new_bh tmp w =
      if tmp == 0
      then (enomem, new_bh, w)
      else (let w1 = wait_buffer K V bh_in w in
          let v = w1.buffers bh_in in
          (0, new_bh, set_buffer K new_bh (fresh_head v.head 1 tmp v.b_data) w1))

  unfoldable pub copy_out_bh : ℕ → Mqfs K → Option (ℕ × ℕ × Mqfs K)
  copy_out_bh bh_in w =
      mqfs_alloc (w.buffers bh_in).head.b_size (record w { heads = w.heads + 1 }) >>= λ r.
      some (copy_bytes bh_in (V.new_head w.layer.io) r.0 r.1)
