-- ===== src/Submit.antt =====
-- Appending to a submission queue, ccnvme/horae.c: stream_submit_bio_core, stream_tx_commit_core and
-- the entry points stream_commit_tx, stream_submit_bh, stream_submit_bio, stream_submit_bio_ipu,
-- stream_submit_bh_force_IPU and stream_submit_bio_noop. The calls of one stream do not overlap
-- here; `Race` has the interleaved ones.
pub mod Queue
pub mod Append
pub mod Sent
pub mod Chain
pub mod Marks
use ccnvme.Prelude.{
  ℕ, zero, suc, ◌+◌, ◌*◌, ◌/◌, ◌%◌, ◌^◌, Bool, true, false, ◌||◌, ◌&&◌, not, Option, none, some,
  set, ltb, leb, ◌==◌, if◌then◌else◌, ◌>>=◌,
}
use ccnvme.Ring.{u32, ring_space, ring_count, ring_next}
use ccnvme.Ometa.{Ometa, horae_tx_begin, horae_tx, horae_tx_end, ometa_bytes}
use ccnvme.Kernel.{Kernel, Bio, BufferHead, Opf, submit_bio, submit_bh, writel}
use ccnvme.State.{Stream, Olayer, emit, stream_at, put_stream, stream_ometa_at, minor}
use ccnvme.Cmb.{copy_from_buff_to_dev, cmb_flush}
use ccnvme.Journal.{horae_get_lba, horae_get_secs, journal_write_alloc}
use ccnvme.Bio.{bh2bio}
use ccnvme.Checkpoint.{stream_do_checkpoint}

-- The tag of a new entry: the first of a transaction is marked as its begin.
unfoldable pub entry_tag : ℕ → Bool → ℕ
entry_tag flags committed = if flags == horae_tx && committed then 2 ^ horae_tx_begin else 2 ^ flags

unfoldable pub still_committed : ℕ → Bool → Bool
still_committed flags committed = if flags == horae_tx && committed then false else committed

-- What is stored at the reserved slot; `txid` is not written.
unfoldable pub filled : Ometa → ℕ → ℕ → ℕ → ℕ → ℕ → Ometa
filled old lba nr_pages device_id plba tag = record old {
  lba = lba;
  length = nr_pages % 2 ^ 16;
  device_id = device_id % 2 ^ 8;
  plba = u32 plba;
  tag = tag;
}

module _ (K : Kernel) where
  -- The part after the compare-and-swap on the watermark has taken the slot `tail_old`. The loop
  -- `while (cmpxchg(&stream->tail, tail_old, tail_new) != tail_old)` waits until the tail is at the
  -- slot; with nobody to move it, it waits for ever, which is `none`.
  unfoldable pub fill_slot : ℕ → ℕ → ℕ → ℕ → ℕ → ℕ → ℕ → Olayer K → Option (ℕ × Olayer K)
  unfolding entry_tag still_committed filled stream_ometa_at
  fill_slot sid tail_old lba nr_pages device_id plba flags w =
      let s = stream_at K w sid in
      let o =
        filled (stream_ometa_at s tail_old) lba nr_pages device_id plba
          (entry_tag flags s.committed) in
      let s1 = record s {
        tail_watermark = ring_next tail_old s.nr_ometa;
        ometa = set s.ometa tail_old o;
        committed = still_committed flags s.committed;
      } in
      let w1 =
        copy_from_buff_to_dev K s1 (tail_old * ometa_bytes) ometa_bytes (put_stream K w sid s1) in
      if s1.tail == tail_old
      then some (tail_old, put_stream K w1 sid (record s1 { tail = ring_next tail_old s.nr_ometa }))
      else none

  -- `fuel` bounds the jumps to `retry`
  unfoldable pub stream_submit_bio_core :
      ℕ → ℕ → ℕ → ℕ → ℕ → ℕ → ℕ → Olayer K → Option (ℕ × Olayer K)
  unfolding fill_slot
  stream_submit_bio_core zero sid lba nr_pages device_id plba flags w = none
  stream_submit_bio_core (suc fuel) sid lba nr_pages device_id plba flags w =
      let s = stream_at K w sid in
      let tail_old = u32 s.tail_watermark in
      elim (ltb (ring_space s.head tail_old s.nr_ometa) 1) [
        | true ↦ stream_do_checkpoint K sid 1 w >>= λ w'.
            stream_submit_bio_core fuel sid lba nr_pages device_id plba flags w'
        | false ↦ fill_slot sid tail_old lba nr_pages device_id plba flags w
      ]

  -- the doorbell: write the tail to the first word of the buffer
  unfoldable pub stream_tx_commit_core : ℕ → Olayer K → Olayer K
  unfolding stream_ometa_at
  stream_tx_commit_core sid w =
      let s = stream_at K w sid in
      let nr_q_entries = u32 (ring_count s.last_queue_flushed s.tail s.nr_ometa) in
      let o = record (stream_ometa_at s s.tail) { tag = 2 ^ horae_tx_end } in
      let s1 = record s { ometa = set s.ometa s.tail o; committed = true } in
      let w1 =
        cmb_flush K s1 (u32 (s.last_queue_flushed * ometa_bytes)) (u32 (ometa_bytes * nr_q_entries))
          (put_stream K w sid s1) in
      let w2 = cmb_flush K s1 0 8 (emit K (writel (u32 s.tail) 0) w1) in
      put_stream K w2 sid (record s1 { last_queue_flushed = s.tail })

  unfoldable pub stream_commit_tx : ℕ → Olayer K → Olayer K
  unfolding stream_tx_commit_core
  stream_commit_tx sid w = stream_tx_commit_core sid w

-- `op_is_barrier_write` and `op_is_ordered_write`
unfoldable pub op_is_barrier_write : Opf → Bool
op_is_barrier_write op = op.barrier || op.fua

unfoldable pub op_is_ordered_write : Opf → Bool
unfolding op_is_barrier_write
op_is_ordered_write op = op.ordered || op_is_barrier_write op

-- `horae_path`: the flags that send a write through the queue
unfoldable pub horae_path : Opf → Bool
unfolding op_is_ordered_write
horae_path op = op_is_ordered_write op || op_is_barrier_write op || op.tx || op.tx_commit

-- `flag`: the kind of the entry
unfoldable pub tx_flag : Opf → ℕ
tx_flag op = if op.tx_commit then horae_tx_end else (if op.tx then horae_tx else 0)

-- The flags that are left for the block layer, as stream_submit_bio clears them.
unfoldable pub strip_bio : Opf → Opf
unfolding op_is_barrier_write op_is_ordered_write
strip_bio op =
    let op1 = if op_is_ordered_write op then record op { ordered = false } else op in
    let op2 =
      if op_is_barrier_write op
      then record op1 { barrier = false; preflush = false; fua = false }
      else op1 in
    record op2 { tx = false; tx_commit = false }

-- two rounds are enough, see `Append`
abbrev pub retries : ℕ
retries = 2

-- of a barrier write only the barrier flag is cleared
abbrev pub strip_bh : Opf → Opf
strip_bh op = record op { ordered = false; barrier = false; tx = false; tx_commit = false }

-- Only the ordering flags are cleared on the bio; `plba < 0` never holds of a u32.
abbrev pub strip_ipu : Opf → Opf
strip_ipu op =
    if op.barrier || op.fua
    then record op { ordered = false; barrier = false; preflush = false; fua = false }
    else record op { ordered = false }

module _ (K : Kernel) where
  -- `if (sid >= nr_streams) sid = 0`
  unfoldable pub known_sid : Olayer K → ℕ → ℕ
  known_sid w sid = if leb w.nr_streams sid then 0 else sid

  unfoldable pub stream_submit_bio : Bio → ℕ → Olayer K → Option (Olayer K)
  stream_submit_bio bio sid w =
      let bio' = record bio { opf = strip_bio bio.opf } in
      if horae_path bio.opf
      then stream_submit_bio_core K retries (known_sid w sid) (horae_get_lba bio)
          (horae_get_secs bio) (minor (K.disk_devt bio.dev)) 0 (tx_flag bio.opf) w
        >>= (λ r. some (emit K (submit_bio bio') r.1))
      else some (emit K (submit_bio bio') w)

  unfoldable pub stream_submit_bh : BufferHead → Opf → ℕ → Olayer K → Option (Olayer K)
  stream_submit_bh bh op_flags sid w =
      if horae_path op_flags
      then stream_submit_bio_core K retries (known_sid w sid) bh.blocknr (bh.b_size / 4096)
          (minor (K.disk_devt bh.bdev)) 0 (tx_flag op_flags) w
        >>= (λ r. some (emit K (submit_bh bh (strip_bh op_flags)) r.1))
      else some (emit K (submit_bh bh (strip_bh op_flags)) w)

  unfoldable pub stream_submit_bio_ipu : Bio → ℕ → Bool → Olayer K → Option (Olayer K)
  stream_submit_bio_ipu bio sid forced w =
      let bio' = record bio { opf = strip_ipu bio.opf } in
      let id = known_sid w sid in
      if horae_path bio.opf && (w.version_consistency || forced)
      then journal_write_alloc K id bio' w >>= (λ r.
        stream_submit_bio_core K retries id (horae_get_lba bio) (horae_get_secs bio)
          (minor (K.disk_devt bio.dev)) r.0 (tx_flag bio.opf) r.2
        >>= (λ q. some (emit K (submit_bio r.1) q.1)))
      else some (emit K (submit_bio bio') w)

  unfoldable pub stream_submit_bh_force_ipu : BufferHead → Opf → ℕ → Olayer K → Option (Olayer K)
  unfolding stream_submit_bio_ipu op_is_ordered_write bh2bio
  stream_submit_bh_force_ipu bh op_flags sid w =
      if op_is_ordered_write op_flags || op_is_barrier_write op_flags || op_flags.tx
      then stream_submit_bio_ipu (bh2bio K bh op_flags) sid true w
      else some (emit K (submit_bh bh op_flags) w)

  unfoldable pub stream_submit_bio_noop : Bio → ℕ → Olayer K → Option (Olayer K)
  unfolding known_sid op_is_ordered_write
  stream_submit_bio_noop bio sid w =
      if op_is_ordered_write bio.opf || op_is_barrier_write bio.opf
      then stream_submit_bio_core K retries (known_sid w sid) (horae_get_lba bio)
          (horae_get_secs bio) 0 0 horae_tx w
        >>= (λ r. some r.1)
      else some w
