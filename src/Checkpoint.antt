-- ===== src/Checkpoint.antt =====
-- Making space in a submission queue, ccnvme/checkpoint.c: truncate_ordering_log, write_checkpoint,
-- stream_do_checkpoint and stream_init_cp.
pub mod Region
pub mod Space
use ccnvme.Prelude.{
  ℕ, ◌+◌, ◌*◌, ◌/◌, ◌%◌, min, Bool, true, false, Option, none, some, ltb, leb, ◌==◌, if◌then◌else◌,
  ◌>>=◌,
}
use ccnvme.Ring.{u32, ring_space, ring_count}
use ccnvme.Ometa.{ometa_bytes}
use ccnvme.Kernel.{Kernel, Bio, Opf, submit_bio_wait}
use ccnvme.State.{Stream, Olayer, emit, stream_at, put_stream}
use ccnvme.Commit.{commit_write}

-- BIO_MAX_PAGES of the kernel
abbrev pub bio_max_pages : ℕ
bio_max_pages = 256

-- NR_JOURNAL_REGION_BLOCK, and CP_REGION_START, which follows the journal
abbrev pub nr_journal_region_block : ℕ → ℕ
nr_journal_region_block journal_size = u32 (256 * journal_size)

abbrev pub cp_region_start : ℕ → ℕ
cp_region_start journal_size = u32 (0 + nr_journal_region_block journal_size)

abbrev pub sync_fua : Opf
sync_fua = record {
  ordered = false;
  barrier = false;
  fua = true;
  preflush = false;
  tx = false;
  tx_commit = false;
  meta = false;
  prio = false;
  rest = 0;
}

module _ (K : Kernel) where
  unfoldable pub truncate_ordering_log : ℕ → Olayer K → Option (Olayer K)
  truncate_ordering_log sid w =
      let s = stream_at K w sid in
      if s.head == s.flushed
      then some w
      else commit_write K s w >>= λ w'.
          let s' = stream_at K w' sid in
          some
            (put_stream K w' sid (record s' { head = s'.flushed; j_write_ptr = s'.off_in_journal }))

  -- the pages of the bio: those that the valid entries take, 256 at most
  unfoldable pub checkpoint_pages : Stream → ℕ
  checkpoint_pages s =
      let space = u32 (ring_count s.head s.tail s.nr_ometa * ometa_bytes) in
      min (if space % 4096 == 0 then space / 4096 else space / 4096 + 1) bio_max_pages

  unfoldable pub write_checkpoint : Stream → Olayer K → Olayer K
  unfolding checkpoint_pages
  write_checkpoint s w =
      emit K
        (submit_bio_wait (record {
          dev = w.cp_dev;
          sector = cp_region_start w.journal_size;
          size = checkpoint_pages s * 4096;
          opf = sync_fua;
        }))
        w

  unfoldable pub stream_do_checkpoint : ℕ → ℕ → Olayer K → Option (Olayer K)
  stream_do_checkpoint sid nr_entries w =
      let s = stream_at K w sid in
      if leb nr_entries (ring_space s.head s.tail s.nr_ometa)
      then some w
      else truncate_ordering_log sid w >>= λ w'.
          let s' = stream_at K w' sid in
          if leb nr_entries (ring_space s'.head s'.tail s'.nr_ometa)
          then some w'
          else some (
              put_stream K (write_checkpoint s' w') sid
                (record s' { head = s'.tail; flushed = s'.tail }))

  unfoldable pub stream_init_cp : Olayer K → Stream → Stream
  stream_init_cp w s =
      let nr = u32 (256 * w.cp_size) / w.nr_streams in
      record s { nr_cp_block = nr; cp_size = nr * 4096; off_in_cp = s.stream_id * nr }
