-- ===== src/Examples/Files.antt =====
-- A file system on a kernel whose data writes are journaled, and the theorems on fsync at it.
mod Streams
mod Buffers
mod Sync
mod PageIo
mod Super
use ccnvme.Prelude.{
  ℕ, ◌≡◌, arith, refl, Bool, true, false, Option, none, some, List, [], ◌∷◌, ◌>>=◌,
}
use ccnvme.Kernel.{BufferHead}
use ccnvme.State.{stream_at}
use ccnvme.Submit.{stream_submit_bio_ipu, horae_path, op_is_ordered_write, op_is_barrier_write}
use ccnvme.Submit.Chain.{Ready, Fits, Writes, done, write, ipu_goes_through}
use ccnvme.Mqfs.{Buffer, Inode, Sbi, Mount, Mqfs, Vfs, eio}
use ccnvme.Mqfs.Buffers.Dirty.{or_true}
use ccnvme.Mqfs.Sync.Progress.{DataIsJournaled}
use ccnvme.Examples.{host, busy, layer_of, two_blocks, busy-IsSound, busy-IsQuiet}

-- a kernel with one parent directory, 8, where waiting for the data of file 3 fails
abbrev pub vfs : Vfs host
vfs = record {
  write_ok = λ io b. false;
  is_dax = λ ino. false;
  nr_pages = λ ino. ino;
  nr_exceptional = λ ino. 0;
  stream_write = λ ino start end sid l.
      stream_submit_bio_ipu host two_blocks sid true l >>= λ l'. some (0, l');
  wb_err = λ io ino. 0;
  data_wait = λ io ino. eio;
  writes_inode = λ i. (true, false, false);
  inode_loc = λ ino. (0, 20);
  parent_of = λ ino. none;
  new_head = λ io. 100;
  get_free_pages = λ io size. size;
  pages-aligned = λ io size two. two;
}

abbrev pub dirty_block : Buffer
dirty_block = record {
  head = record { blocknr = 41; b_size = 4096; bdev = 3; is_meta = true; is_prio = false };
  dirty = true;
  locked = false;
  uptodate = true;
  req = false;
  assoc_map = some 3;
  count = 1;
  b_private = 0;
  b_data = 7 ∷ 8 ∷ [];
}

abbrev pub plain_file : Inode
plain_file = record {
  private_list = 1 ∷ 2 ∷ [];
  fsmeta_pending_list = [];
  inodemeta_pending_list = [];
  copyout_inode_list = [];
  has_buffer_mapping = true;
  newentry = true;
  dirty_all = true;
  dirty_datasync = true;
  held = false;
}

-- two streams, the first of which is taken
abbrev pub two_streams : Sbi
two_streams = record {
  streams = 0 ∷ 1 ∷ [];
  nr_streams = 2;
  stream_lock = true ∷ false ∷ [];
  txid_alloc = 6;
}

abbrev pub one_stream : Sbi
one_stream = record { streams = 0 ∷ []; nr_streams = 1; stream_lock = false ∷ []; txid_alloc = 6 }

abbrev pub files : Mqfs host
files = record {
  layer = layer_of busy;
  buffers = λ b. dirty_block;
  inodes = λ ino. plain_file;
  sbi = one_stream;
  bad_unlocks = 0;
  heads = 0;
  pages = 0;
  ranges = λ p. none;
}

abbrev pub mount : Mount
mount = record { shutdown = false; rdonly = false; aborted = false; barrier = true; dev = 3 }

pub files-Ready : Ready host 0 2 (layer_of busy)
unfolding stream_at
files-Ready = record {
  known = omega arith;
  sound = busy-IsSound;
  quiet = busy-IsQuiet;
  two = omega arith;
  region = omega arith;
}

two_blocks-Fits : Fits host 2 two_blocks
unfolding horae_path op_is_ordered_write op_is_barrier_write
two_blocks-Fits = record { path = refl; few = omega arith; small = omega arith }

-- What the kernel does with the data of a file is journaled.
pub vfs-DataIsJournaled : DataIsJournaled host vfs 0 2
vfs-DataIsJournaled ino start end l r =
    let x =
      ipu_goes_through host 0 2 two_blocks true l (or_true l.version_consistency) r
        two_blocks-Fits in
    (0, two_blocks ∷ [], x.0, rw (x.1) refl, write refl x.2 (done refl))
