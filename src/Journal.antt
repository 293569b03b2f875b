-- ===== src/Journal.antt =====
-- The journal region of a stream, ccnvme/checkpoint.c: alloc_journal_block, journal_write_alloc and
-- stream_init_journal.
pub mod Region
pub mod Bounds
pub mod Alloc
pub mod Index
use ccnvme.Prelude.{
  ℕ, zero, suc, ◌+◌, ◌-◌, ◌*◌, ◌/◌, ◌^◌, Bool, true, false, Option, none, some, ltb, ◌==◌,
  if◌then◌else◌, ◌>>=◌,
}
use ccnvme.Ring.{u32, u64}
use ccnvme.Kernel.{Kernel, IpuEntry, Bio, get_page}
use ccnvme.State.{Stream, Olayer, emit, stream_at, put_stream}
use ccnvme.Ipu.{group_idx, tree_idx, tree_off}
use ccnvme.Commit.{index_lookup, commit_write}

-- `-1` as a u32
abbrev pub no_block : ℕ
no_block = 2 ^ 32 - 1

-- JOURNAL_REGION_START
abbrev pub journal_region_start : ℕ
journal_region_start = 0

-- `horae_get_lba` and `horae_get_secs`
abbrev pub horae_get_lba : Bio → ℕ
horae_get_lba bio = bio.sector / 8

abbrev pub horae_get_secs : Bio → ℕ
horae_get_secs bio = bio.size / 4096

-- `parea_right_boundary`, an unsigned int
abbrev pub right_boundary : Stream → ℕ
right_boundary s = u32 (s.off_in_journal + s.nr_journal_block)

module _ (K : Kernel) where
  open K use {tree_lookup, tree_insert, tree_write, nr_cpus}

  -- where the region is used up: checkpoint, and start again at its left end
  unfoldable pub make_room : ℕ → ℕ → Olayer K → Option (Olayer K)
  make_room sid nr_blocks w =
      let s = stream_at K w sid in
      if ltb (right_boundary s) (u64 (nr_blocks + s.j_write_ptr))
      then commit_write K s w >>= (λ w'.
        let s' = stream_at K w' sid in
        some
          (put_stream K w' sid (record s' { head = s'.flushed; j_write_ptr = s'.off_in_journal })))
      else some w

  -- the section under `journal_lock`: the block number and the state behind it
  unfoldable pub reserve : ℕ → ℕ → Olayer K → Option (ℕ × Olayer K)
  unfolding make_room
  reserve sid nr_blocks w = make_room sid nr_blocks w >>= λ w'.
      let s = stream_at K w' sid in
      some (
        s.j_write_ptr,
        put_stream K w' sid (record s { j_write_ptr = u64 (s.j_write_ptr + nr_blocks) }),
      )

  -- the bio is turned to the journal device at the block
  abbrev pub redirect : Olayer K → ℕ → Bio → Bio
  redirect w ptr bio = record bio { dev = w.cp_dev; sector = (journal_region_start + ptr) * 8 }

  unfoldable pub alloc_journal_block : ℕ → Bio → ℕ → Olayer K → Option (ℕ × Bio × Olayer K)
  alloc_journal_block sid bio nr_blocks w =
      if ltb (stream_at K w sid).nr_journal_block nr_blocks
      then some (no_block, bio, w)
      else reserve sid nr_blocks w >>= λ r.
          some (u32 (journal_region_start + r.0), redirect r.1 r.0 bio, r.1)

  -- the place of a block in the index, with a new tree there
  unfoldable pub index_set : Olayer K → ℕ → (K.Tree → ℕ → K.Tree) → Olayer K
  index_set w lba f =
      let g = group_idx lba w.blocks_per_group in
      let t = tree_idx g nr_cpus in
      record w {
        ipu_tree = λ i.
            if i == t
            then f (w.ipu_tree t) (tree_off g lba w.blocks_per_group nr_cpus)
            else w.ipu_tree i;
      }

  -- the round of a block, by what the lookup returned
  unfoldable pub note_block : ℕ → ℕ → ℕ → Option IpuEntry → Olayer K → Olayer K
  unfolding index_set
  note_block txid lba plba none w =
      let w' =
        index_set w lba
          (λ t o. tree_insert t o (record { lba = u32 lba; plba = u32 plba; txid = txid })) in
      if w.version_consistency then w' else emit K (get_page lba) w'
  note_block txid lba plba (some old) w =
      if ltb old.txid txid
      then index_set w lba
          (λ t o. tree_write t o (record { lba = u32 lba; plba = u32 plba; txid = txid }))
      else w

  -- `for (i = 0; i < nr_blocks; i++, start_lba++)`
  unfoldable pub note_blocks : ℕ → ℕ → ℕ → ℕ → Olayer K → Olayer K
  unfolding note_block index_lookup
  note_blocks txid zero lba plba w = w
  note_blocks txid (suc n) lba plba w =
      note_blocks txid n (lba + 1) (plba + 1) (note_block txid lba plba (index_lookup K w lba) w)

  unfoldable pub journal_write_alloc : ℕ → Bio → Olayer K → Option (ℕ × Bio × Olayer K)
  unfolding note_blocks
  journal_write_alloc sid bio w =
      let nr_blocks = horae_get_secs bio in
      if ltb (stream_at K w sid).nr_journal_block nr_blocks
      then some (no_block, bio, w)
      else reserve sid nr_blocks w >>= λ r.
          let w' =
            note_blocks (stream_at K r.1 sid).last_txid nr_blocks (horae_get_lba bio)
              (journal_region_start + r.0) r.1 in
          some (u32 (journal_region_start + r.0), redirect w' r.0 bio, w')

  -- `stream_init_journal`: MB / HORAE_BLOCK_SIZE * journal_size blocks, shared out evenly
  unfoldable pub stream_init_journal : Olayer K → Stream → Stream
  stream_init_journal w s =
      let nr = u32 (256 * w.journal_size) / w.nr_streams in
      record s {
        nr_journal_block = nr;
        j_size = nr * 4096;
        off_in_journal = s.stream_id * nr;
        j_write_ptr = s.stream_id * nr;
      }
