-- ===== src/Mqfs.antt =====
-- MQFS on ccNVMe, mqfs/ext4.h and mqfs/filemap_compat.c: the parts of the super block, of inodes
-- and of buffer heads by which a file is written as a transaction, and what they ask of Linux.
pub mod Streams
pub mod Buffers
pub mod Inodes
pub mod Sync
pub mod PageIo
pub mod Super
use Prim.Native.Nat.{bit_and}
use ccnvme.Prelude.{ℕ, ◌-◌, ◌≡◌, Bool, true, false, Option, List, ◌==◌, if◌then◌else◌}
use ccnvme.Kernel.{Kernel, BufferHead, Opf, Event, wait_on_buffer}
use ccnvme.State.{Olayer, emit}

-- Return values: 0, or the number of the error that the source returns negated.
abbrev pub eio : ℕ
eio = 5

abbrev pub enomem : ℕ
enomem = 12

abbrev pub erofs : ℕ
erofs = 30

-- `if (!err) err = err2`
abbrev pub first_error : ℕ → ℕ → ℕ
first_error err err2 = if err == 0 then err2 else err

-- `struct buffer_head` with its state bits, its count of references and the mapping that it is
-- associated with, by the number of the inode
pub record Buffer : Type 0 where
  pub head : BufferHead
  pub dirty : Bool
  pub locked : Bool
  pub uptodate : Bool
  pub req : Bool
  pub assoc_map : Option ℕ
  pub count : ℕ
  pub b_private : ℕ
  pub b_data : List ℕ

-- `struct ext4_inode_info` with the lists of its address space; `next` of a list is its first
-- element and `prev` its last. `newentry` is EXT4_STATE_NEWENTRY.
pub record Inode : Type 0 where
  pub private_list : List ℕ
  pub fsmeta_pending_list : List ℕ
  pub inodemeta_pending_list : List ℕ
  pub copyout_inode_list : List ℕ
  pub has_buffer_mapping : Bool
  pub newentry : Bool
  pub dirty_all : Bool
  pub dirty_datasync : Bool
  pub held : Bool

-- The fields of `struct ext4_sb_info` that MQFS adds; a lock is `true` while somebody holds it.
pub record Sbi : Type 0 where
  pub streams : List ℕ
  pub nr_streams : ℕ
  pub stream_lock : List Bool
  pub txid_alloc : ℕ

-- The mount as far as it is read here: whether it is shut down, read-only and aborted, whether it has
-- the option BARRIER, and its device.
pub record Mount : Type 0 where
  pub shutdown : Bool
  pub rdonly : Bool
  pub aborted : Bool
  pub barrier : Bool
  pub dev : ℕ

-- the test behind `BUG_ON(size & (size - 1))`
abbrev pub is_power_of_two : ℕ → Bool
is_power_of_two size = bit_and size (size - 1) == 0

-- the test behind `BUG_ON(ptr & (size - 1))`
abbrev pub is_aligned : ℕ → ℕ → Bool
is_aligned ptr size = bit_and ptr (size - 1) == 0

-- a store at one place
abbrev pub update {ℓ} : {A : Type ℓ} → (ℕ → A) → ℕ → A → ℕ → A
update f i v j = if i == j then v else f j

-- REQ_TX | REQ_SYNC, and REQ_SYNC alone
abbrev pub sync_only : Opf
sync_only = record {
  ordered = false;
  barrier = false;
  fua = false;
  preflush = false;
  tx = false;
  tx_commit = false;
  meta = false;
  prio = false;
  rest = 1;
}

abbrev pub tx_sync : Opf
tx_sync = record sync_only { tx = true }

module _ (K : Kernel) where
  -- The state of a file system and of the module below it. `bad_unlocks` counts unlock calls on an
  -- inode lock that nobody holds; `heads` counts the buffer heads that copy_out_bh has allocated and
  -- nobody has freed, `pages` the ranges of pages that mqfs_alloc has got less the calls of mqfs_free,
  -- and `ranges` gives the size of the range that lies at an address, if there is one.
  pub record Mqfs : Type 0 where
    pub layer : Olayer K
    pub buffers : ℕ → Buffer
    pub inodes : ℕ → Inode
    pub sbi : Sbi
    pub bad_unlocks : ℕ
    pub heads : ℕ
    pub pages : ℕ
    pub ranges : ℕ → Option ℕ

  -- What the source calls of Linux, of the patch to it and of ext4.
  pub record Vfs : Type 0 where
    -- whether the write of a buffer that is waited for has ended well
    pub write_ok : List Event → ℕ → Bool
    -- `mapping_needs_writeback`'s three reads
    pub is_dax : ℕ → Bool
    pub nr_pages : ℕ → ℕ
    pub nr_exceptional : ℕ → ℕ
    -- filemap_fstreamwrite_tag_range: inode, start, end and stream
    pub stream_write : ℕ → ℕ → ℕ → ℕ → Olayer K → Option (ℕ × Olayer K)
    -- file_check_and_advance_wb_err and file_fdatawait_range, by inode
    pub wb_err : List Event → ℕ → ℕ
    pub data_wait : List Event → ℕ → ℕ
    -- sync_inode_nowait_data: whether it calls ext4_write_inode, and what is then left of the flags
    -- I_DIRTY_ALL and I_DIRTY_DATASYNC
    pub writes_inode : Inode → Bool × Bool × Bool
    -- __ext4_get_inode_loc: an error, 0 for none, and the buffer of an inode
    pub inode_loc : ℕ → ℕ × ℕ
    -- d_find_any_alias, d_parent and igrab: the inode of a parent directory
    pub parent_of : ℕ → Option ℕ
    -- alloc_buffer_head
    pub new_head : List Event → ℕ
    -- __get_free_pages of the order of a size: an address, or 0. A range is aligned to its size.
    pub get_free_pages : List Event → ℕ → ℕ
    pub pages-aligned :
        (io : List Event) (size : ℕ)
        → is_power_of_two size ≡ true
        → is_aligned (get_free_pages io size) size ≡ true

  unfoldable pub set_buffer : ℕ → Buffer → Mqfs → Mqfs
  set_buffer b v w = record w { buffers = update w.buffers b v }

  unfoldable pub set_inode : ℕ → Inode → Mqfs → Mqfs
  set_inode ino i w = record w { inodes = update w.inodes ino i }

  -- end_buffer_write_sync_nolock: the end of a write, with its reference given up
  unfoldable pub end_buffer_write_sync_nolock : Buffer → Bool → Buffer
  end_buffer_write_sync_nolock v uptodate = record v { uptodate = uptodate; count = v.count - 1 }

  module _ (V : Vfs) where
    -- `wait_on_buffer`, and the wait of `lock_buffer`: a write that is under way comes to its end
    unfoldable pub wait_buffer : ℕ → Mqfs → Mqfs
    unfolding end_buffer_write_sync_nolock set_buffer
    wait_buffer b w =
        let v = w.buffers b in
        if v.locked
        then set_buffer b
            (record (end_buffer_write_sync_nolock v (V.write_ok w.layer.io b)) { locked = false })
            (record w { layer = emit K (wait_on_buffer b) w.layer })
        else w
