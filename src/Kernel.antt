-- ===== src/Kernel.antt =====
-- What ccNVMe asks of the Linux kernel: the radix tree of the in-place-update index, buffer heads
-- and the number of processors. The kernel is not part of the repository, so it is a parameter.
use ccnvme.Prelude.{ℕ, ◌≤◌, ◌≡◌, Bool, Option, none, some, ◌==◌, if◌then◌else◌, List}

-- `struct ipu_entry` (ccnvme/horae.h): where the newest journaled copy of a block lies.
pub record IpuEntry : Type 0 where
  pub lba : ℕ
  pub plba : ℕ
  pub txid : ℕ

-- The flags of a request that ccNVMe tests, sets or clears; `rest` stands for those it passes on.
pub record Opf : Type 0 where
  pub ordered : Bool
  pub barrier : Bool
  pub fua : Bool
  pub preflush : Bool
  pub tx : Bool
  pub tx_commit : Bool
  pub meta : Bool
  pub prio : Bool
  pub rest : ℕ

-- `struct bio`, as far as ccNVMe sets or reads it
pub record Bio : Type 0 where
  pub dev : ℕ
  pub sector : ℕ
  pub size : ℕ
  pub opf : Opf

-- `struct buffer_head`, as far as ccNVMe reads it
pub record BufferHead : Type 0 where
  pub blocknr : ℕ
  pub b_size : ℕ
  pub bdev : ℕ
  pub is_meta : Bool
  pub is_prio : Bool

-- The calls that reach a device or the buffer cache; and, last, the store of a stream's `flushed`,
-- by stream and value, whose place among them matters.
pub data Event : Type 0 where
  submit_bio : Bio → Event
  submit_bio_wait : Bio → Event
  submit_bh : BufferHead → Opf → Event
  write_bh : ℕ → Event
  wait_on_buffer : ℕ → Event
  get_page : ℕ → Event
  put_page : ℕ → Event
  memcpy_toio : ℕ → ℕ → ℕ → Event
  memcpy_fromio : ℕ → ℕ → Event
  clflush : ℕ → Event
  writel : ℕ → ℕ → Event
  issue_flush : ℕ → Event
  issue_flush_async : ℕ → Event
  wait_for_completion : ℕ → Event
  store_flushed : ℕ → ℕ → Event

pub record Kernel : Type 1 where
  -- lib/radix-tree: `tree_write` is a store through the pointer that a lookup has returned.
  pub Tree : Type 0
  pub tree_empty : Tree
  pub tree_lookup : Tree → ℕ → Option IpuEntry
  pub tree_insert : Tree → ℕ → IpuEntry → Tree
  pub tree_write : Tree → ℕ → IpuEntry → Tree
  pub tree_delete : Tree → ℕ → Tree
  pub lookup-empty : (i : ℕ) → tree_lookup tree_empty i ≡ none
  pub lookup-insert :
      (t : Tree) (i : ℕ) (e : IpuEntry) (j : ℕ)
      → tree_lookup t i ≡ none
      → tree_lookup (tree_insert t i e) j ≡ (if i == j then some e else tree_lookup t j)
  pub lookup-write :
      (t : Tree) (i : ℕ) (e old : IpuEntry) (j : ℕ)
      → tree_lookup t i ≡ some old
      → tree_lookup (tree_write t i e) j ≡ (if i == j then some e else tree_lookup t j)
  pub lookup-delete :
      (t : Tree) (i j : ℕ)
      → tree_lookup (tree_delete t i) j ≡ (if i == j then none else tree_lookup t j)
  -- `sb_getblk`, by super block and block number, and `buffer_locked` after some events
  pub sb_getblk : ℕ → ℕ → Option ℕ
  pub buffer_locked : List Event → ℕ → Bool
  -- the sectors of a device or partition: `part_nr_sects_read` or `get_capacity`
  pub capacity : ℕ → ℕ
  -- `disk_devt(bi_disk)`: the disk that a device or partition is on
  pub disk_devt : ℕ → ℕ
  -- QUEUE_FLAG_WC of a device's queue; and whether disk, queue and request function are there
  pub has_write_cache : ℕ → Bool
  pub has_queue : ℕ → Bool
  -- `num_online_cpus`
  pub nr_cpus : ℕ
  pub nr_cpus_pos : 1 ≤ nr_cpus
