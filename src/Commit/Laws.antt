-- ===== src/Commit/Laws.antt =====
-- commit_write (ccnvme/checkpoint.c) as a whole: it ends, and leaves the streams and the settings.
use ccnvme.Prelude.{
  ℕ, zero, suc, ◌+◌, ◌^◌, ◌≤◌, ◌<◌, ◌≡◌, arith, List, [], ◌∷◌, ◌++◌, All, Option, none, some, ◌==◌,
  refl, ap, ◌∙◌, Bool, Bool-cases, inl, inr, ◌⊎◌,
}
use ccnvme.Ometa.{Ometa, horae_tx_begin, horae_tx_end}
use ccnvme.Kernel.{Kernel, IpuEntry}
use ccnvme.State.{Stream, stream_ometa_at, RegisteredDev, Olayer, emit}
use ccnvme.Ring.Window.{visited}
use ccnvme.Scan.{Phase, find_begin, scan}
use ccnvme.Scan.Atomic.{HasMark, LacksMark, scan-unfinished}
use ccnvme.Scan.Run.{commit_all, commit_all-keeps}
use ccnvme.Scan.Transactions.{committed, scan_refines}
use ccnvme.Commit.Entry.{go_on, go_stop}
use ccnvme.Commit.{
  Status, ok, enomem, Work, index_lookup, index_delete, queue_buffer, commit_found, commit_block,
  commit_blocks, commit_write_entry_per_stream, get_sb_by_devid, commit_entry, wait_all,
  commit_write,
}

-- The indices of a stream are inside its ring, which is one.
pub record IsRing (s : Stream) : Type 0 where
  pub small : s.nr_ometa ≤ 2 ^ 31
  pub head_in : s.head < s.nr_ometa
  pub tail_in : s.tail < s.nr_ometa
  pub flushed_in : s.flushed < s.nr_ometa

Status-cases : (st : Status) → (st ≡ ok) ⊎ (st ≡ enomem)
Status-cases ok = inl refl
Status-cases enomem = inr refl

-- all of the state but the index and the events
pub record Frame : Type 0 where
  pub streams : List Stream
  pub olog_size : ℕ
  pub registered_list : List RegisteredDev
  pub blocks_per_group : ℕ
  pub nr_streams : ℕ
  pub version_consistency : Bool
  pub journal_size : ℕ
  pub cp_size : ℕ
  pub cp_dev : ℕ
  pub dev_size : ℕ

module _ (K : Kernel) where
  abbrev pub frame : Olayer K → Frame
  frame w = record {
    streams = w.streams;
    olog_size = w.olog_size;
    registered_list = w.registered_list;
    blocks_per_group = w.blocks_per_group;
    nr_streams = w.nr_streams;
    version_consistency = w.version_consistency;
    journal_size = w.journal_size;
    cp_size = w.cp_size;
    cp_dev = w.cp_dev;
    dev_size = w.dev_size;
  }

  frame-queue : (o : Option ℕ) (v : Work K) → frame (queue_buffer K o v).1.layer ≡ frame v.layer
  unfolding queue_buffer emit
  frame-queue none v = refl
  frame-queue (some bh) v = elim (Bool-cases (K.buffer_locked v.layer.io bh)) [
    | inl e ↦ rw e refl
    | inr e ↦ rw e refl
  ]

  frame-found :
      (sb txid lba : ℕ) (o : Option IpuEntry) (v : Work K)
      → frame (commit_found K sb txid lba o v).1.layer ≡ frame v.layer
  unfolding commit_found
  frame-found sb txid lba none v = refl
  frame-found sb txid lba (some e) v = elim (Bool-cases (e.txid == txid)) [
    | inl q ↦ rw q (frame-queue (K.sb_getblk sb lba) v)
    | inr q ↦ rw q refl
  ]

  frame-block :
      (sb txid lba : ℕ) (v : Work K) → frame (commit_block K sb txid lba v).1.layer ≡ frame v.layer
  unfolding commit_block index_delete
  frame-block sb txid lba v =
      frame-found sb txid lba (index_lookup K v.layer lba)
        (record v { layer = index_delete K v.layer lba })

  frame-blocks :
      (sb txid n lba : ℕ) (v : Work K)
      → frame (commit_blocks K sb txid n lba v).1.layer ≡ frame v.layer
  frame-blocks sb txid zero lba v = unfold commit_blocks in refl
  frame-blocks sb txid (suc n) lba v = elim (Status-cases (commit_block K sb txid lba v).0) [
    | inl e ↦
        ap (λ r. frame r.1.layer) (go_on K sb txid n lba v e)
        ∙ frame-blocks sb txid n (lba + 1) (commit_block K sb txid lba v).1
        ∙ frame-block sb txid lba v
    | inr e ↦ ap (λ r. frame r.1.layer) (go_stop K sb txid n lba v e) ∙ frame-block sb txid lba v
  ]

  frame-entry :
      (o : Ometa) (sb : Option ℕ) (txid : ℕ) (v : Work K)
      → frame (commit_write_entry_per_stream K o sb txid v).1.layer ≡ frame v.layer
  unfolding commit_write_entry_per_stream
  frame-entry o none txid v = refl
  frame-entry o (some sb) txid v = frame-blocks sb txid o.length o.lba v

  pub frame-commit_entry :
      (o : Ometa) (txid : ℕ) (v : Work K) → frame (commit_entry K o txid v).layer ≡ frame v.layer
  unfolding commit_entry
  frame-commit_entry o txid v = frame-entry o (get_sb_by_devid K v.layer o.device_id) txid v

  frame-wait_all : (l : List ℕ) (w : Olayer K) → frame (wait_all K l w) ≡ frame w
  unfolding wait_all emit
  frame-wait_all [] w = refl
  frame-wait_all (bh ∷ l) w = elim (Bool-cases w.version_consistency) [
    | inl e ↦ rw e (frame-wait_all l _)
    | inr e ↦ rw e (frame-wait_all l _)
  ]

  -- For a stream whose indices lie in its ring of at most 2^31 entries, the checkpoint of its
  -- committed transactions comes to its end, and changes nothing but the index and the events: the
  -- streams, the registered devices and the settings stay.
  pub commit_write_total :
      (s : Stream) (w : Olayer K)
      → IsRing s
      → (w' : Olayer K) × (commit_write K s w ≡ some w') × (frame w' ≡ frame w)
  unfolding commit_write
  commit_write_total s w r = (
    wait_all K v.bh_list v.layer,
    rw
        (
          scan_refines s.nr_ometa (omega (arith, r.small)) (stream_ometa_at s) (stream_ometa_at s)
              (commit_entry K) s.head s.flushed start r.head_in r.flushed_in,
          commit_write,
        )
        refl,
    frame-wait_all v.bh_list v.layer ∙ kept,
  )
    where
      start : Work K
      start = record { layer = w; bh_list = [] }

      v : Work K
      v =
          commit_all (stream_ometa_at s) (commit_entry K)
            (committed (stream_ometa_at s) none (visited s.nr_ometa s.head s.flushed)) start

      kept : frame v.layer ≡ frame w
      kept =
          commit_all-keeps (stream_ometa_at s) (commit_entry K) (λ u. frame u.layer ≡ frame w)
            (λ k txid u h. frame-commit_entry (stream_ometa_at s k) txid u ∙ h)
            (committed (stream_ometa_at s) none (visited s.nr_ometa s.head s.flushed)) start refl

  -- For a stream whose indices lie in its ring of at most 2^31 entries: if its entries from `head`
  -- to `flushed` are some without a begin mark, a begin mark at `b` and then none with an end mark,
  -- the checkpoint ends and changes nothing at all: no block of the unfinished transaction is
  -- written, and the index still has every one of them.
  pub commit_write-unfinished :
      (s : Stream) (w : Olayer K) (idle body : List ℕ) (b : ℕ)
      → IsRing s
      → visited s.nr_ometa s.head s.flushed ≡ idle ++ (b ∷ body)
      → All (LacksMark (stream_ometa_at s) horae_tx_begin) idle
      → HasMark (stream_ometa_at s) horae_tx_begin b
      → All (LacksMark (stream_ometa_at s) horae_tx_end) body
      → commit_write K s w ≡ some w
  unfolding commit_write wait_all
  commit_write-unfinished s w idle body b r shape hi hb hl = rw (walk.1, commit_write) refl
    where
      start : Work K
      start = record { layer = w; bh_list = [] }

      walk :
          (p : Phase) × (scan s.nr_ometa
              (stream_ometa_at s)
              (stream_ometa_at s)
              (commit_entry K)
              s.nr_ometa
              s.head
              s.flushed
              find_begin
              start
            ≡ some (p, start))
      walk =
          scan-unfinished s.nr_ometa (stream_ometa_at s) (stream_ometa_at s) (commit_entry K) s.head
            s.flushed idle body b start (omega (arith, r.small)) r.head_in r.flushed_in shape hi hb
            hl
