-- ===== src/Examples.antt =====
-- A kernel and a state at which the theorems are applied: two processors, a stream of four entries
-- and a journal of sixteen blocks.
mod Walk
mod Queue
mod Journal
mod Recover
mod Delegate
mod Sent
mod Race
mod Mapping
mod Register
mod Files
use ccnvme.Prelude.{
  ℕ, zero, suc, ◌≤◌, ◌<◌, ◌≡◌, arith, Bool, true, false, Option, none, some, List, [], ◌∷◌, refl,
  ◌==◌, if◌then◌else◌,
}
use ccnvme.Ometa.{Ometa, zero_ometa}
use ccnvme.Kernel.{Kernel, IpuEntry, Opf, Bio}
use ccnvme.State.{Stream, Olayer, RegisteredDev, blank_stream, stream_at}
use ccnvme.Commit.Laws.{IsRing}
use ccnvme.Journal.Region.{IsJournal}
use ccnvme.Journal.Bounds.{IsSound}
use ccnvme.Submit.Queue.{IsQuiet}

abbrev IndexTree : Type 0
IndexTree = ℕ → Option IpuEntry

abbrev put_entry : IndexTree → ℕ → IpuEntry → IndexTree
put_entry t i e j = if i == j then some e else t j

abbrev pub host : Kernel
host = record {
  Tree = IndexTree;
  tree_empty = λ i. none;
  tree_lookup = λ t i. t i;
  tree_insert = put_entry;
  tree_write = put_entry;
  tree_delete = λ t i j. if i == j then none else t j;
  lookup-empty = λ i. refl;
  lookup-insert = λ t i e j h. refl;
  lookup-write = λ t i e old j h. refl;
  lookup-delete = λ t i j. refl;
  sb_getblk = λ sb b. some b;
  buffer_locked = λ io bh. false;
  capacity = λ d. 1000;
  disk_devt = λ d. d;
  has_write_cache = λ d. true;
  has_queue = λ d. true;
  nr_cpus = 2;
  nr_cpus_pos = omega arith;
}

abbrev pub entry : ℕ → ℕ → Ometa
entry lba tag = record { lba = lba; length = 1; txid = 7; tag = tag; device_id = 3; plba = 2 }

-- a transaction of three entries: its begin, its middle and its end
abbrev pub busy : Stream
busy = record blank_stream {
  ometa_size = 256;
  nr_ometa = 4;
  tail = 3;
  tail_watermark = 3;
  flushed = 3;
  ometa = entry 40 1 ∷ entry 41 2 ∷ entry 42 4 ∷ zero_ometa ∷ [];
  nr_journal_block = 16;
  j_size = 65536;
  j_write_ptr = 14;
  nr_devices = 1;
}

-- the same before its end mark, and with one entry less
abbrev pub open_tx : Stream
open_tx = record busy { tail = 2; tail_watermark = 2; flushed = 2 }

-- the index of a state: a copy of block 41 of transaction 7
abbrev pub layer_of : Stream → Olayer host
layer_of s = record {
  streams = s ∷ [];
  olog_size = 256;
  registered_list = record { dev_id = 3; sb = 5 } ∷ [];
  ipu_tree = λ t.
      if t == 1
      then put_entry (λ i. none) 20 (record { lba = 41; plba = 2; txid = 7 })
      else (λ i. none);
  blocks_per_group = 1;
  nr_streams = 1;
  version_consistency = true;
  journal_size = 1;
  cp_size = 1;
  cp_dev = 9;
  dev_size = 256;
  io = [];
}

abbrev pub write_opf : Opf
write_opf = record {
  ordered = true;
  barrier = false;
  fua = false;
  preflush = false;
  tx = true;
  tx_commit = false;
  meta = false;
  prio = false;
  rest = 0;
}

-- two blocks from block 41 on
abbrev pub two_blocks : Bio
two_blocks = record { dev = 3; sector = 328; size = 8192; opf = write_opf }

pub busy-IsRing : IsRing busy
busy-IsRing = omega arith

pub open_tx-IsRing : IsRing open_tx
open_tx-IsRing = omega arith

pub busy-IsSound : IsSound host (layer_of busy) 0
unfolding stream_at
busy-IsSound = record { known = omega arith; ring = busy-IsRing; journal = omega arith }

pub open_tx-IsSound : IsSound host (layer_of open_tx) 0
unfolding stream_at
open_tx-IsSound = record { known = omega arith; ring = open_tx-IsRing; journal = omega arith }

pub busy-IsQuiet : IsQuiet (stream_at host (layer_of busy) 0)
unfolding stream_at
busy-IsQuiet = record { array = refl; published = refl }

pub open_tx-IsQuiet : IsQuiet (stream_at host (layer_of open_tx) 0)
unfolding stream_at
open_tx-IsQuiet = record { array = refl; published = refl }
