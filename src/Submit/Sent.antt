-- ===== src/Submit/Sent.antt =====
-- The entry points of ccnvme/horae.c: a write is in the queue, and with in-place update in the
-- journal, before its bio is sent.
use ccnvme.Prelude.{
  ℕ, ◌+◌, ◌/◌, ◌%◌, false, ◌&&◌, not, if◌then◌else◌, ◌*◌, ◌^◌, ◌≤◌, ◌<◌, ◌≡◌, arith, Bool, true,
  ◌||◌, some, length, refl, ap, ◌∙◌, sym, lt→leb,
}
use ccnvme.Ometa.{Ometa}
use ccnvme.Kernel.{Kernel, Bio, Opf, submit_bio}
use ccnvme.State.{Stream, Olayer, emit, stream_at, minor}
use ccnvme.Journal.{horae_get_lba, horae_get_secs}
use ccnvme.Journal.Bounds.{IsSound, Reserved}
use ccnvme.Journal.Alloc.{journal_write-Reserved}
use ccnvme.Checkpoint.Space.{Keeping}
use ccnvme.Submit.{
  horae_path, tx_flag, strip_bio, strip_ipu, op_is_barrier_write, op_is_ordered_write, known_sid,
  stream_submit_bio, stream_submit_bio_ipu,
}
use ccnvme.Submit.Queue.{IsQuiet}
use ccnvme.Submit.Append.{new_entry, Appended, submit_total}

-- the kind of an entry: 2 for the last of a transaction, 1 for another of one, else 0
abbrev pub kind_of : Opf → ℕ
kind_of op = if op.tx_commit then 2 else if op.tx then 1 else 0

-- The flags without the ordering ones; a barrier or FUA write has lost its flush, too.
abbrev pub unordered : Opf → Opf
unordered op = record op {
  ordered = false;
  barrier = false;
  fua = false;
  preflush = op.preflush && not (op.barrier || op.fua);
}

-- and without those of a transaction
abbrev pub plain : Opf → Opf
plain op = record (unordered op) { tx = false; tx_commit = false }

abbrev opf_with : Opf → Bool → Bool → Bool → Bool → Opf
opf_with op o b f p = record op { ordered = o; barrier = b; fua = f; preflush = p }

strip_ipu-unordered : (op : Opf) → strip_ipu op ≡ unordered op
strip_ipu-unordered op = cleared op.barrier op.fua op.preflush
  where
    cleared :
        (b f p : Bool)
        → (if b || f then opf_with op false false false false else opf_with op false b f p)
          ≡ opf_with op false false false (p && not (b || f))
    cleared true f true = refl
    cleared true f false = refl
    cleared false true true = refl
    cleared false true false = refl
    cleared false false true = refl
    cleared false false false = refl

strip_bio-plain : (op : Opf) → strip_bio op ≡ plain op
unfolding strip_bio op_is_barrier_write op_is_ordered_write
strip_bio-plain op = cleared op.ordered op.barrier op.fua op.preflush
  where
    cleared : (o b f p : Bool) → strip_bio (opf_with op o b f p) ≡ plain (opf_with op o b f p)
    cleared true true f true = refl
    cleared true true f false = refl
    cleared true false true true = refl
    cleared true false true false = refl
    cleared true false false true = refl
    cleared true false false false = refl
    cleared false true f true = refl
    cleared false true f false = refl
    cleared false false true true = refl
    cleared false false true false = refl
    cleared false false false true = refl
    cleared false false false false = refl

module _ (K : Kernel) where
  -- the entry of a bio, by the stream as it was, the kind and the first journal block
  abbrev pub entry_of : Stream → Bio → ℕ → Ometa
  entry_of s bio plba =
      new_entry K s (bio.sector / 8) (bio.size / 4096) (K.disk_devt bio.dev % 2 ^ 20) plba
        (kind_of bio.opf)

  known_sid_self : (w : Olayer K) (sid : ℕ) → sid < w.nr_streams → known_sid K w sid ≡ sid
  unfolding known_sid
  known_sid_self w sid h = rw (lt→leb w.nr_streams sid h) refl

  -- An ordered write or one of a transaction, on a sound and quiet stream of at least two entries:
  -- its entry is appended to the queue, after a checkpoint if there was no space, with journal
  -- block 0; and then, as the last event, the bio is sent with its flags of ordering and transactions
  -- cleared. The entry has the bio's first block and number of blocks, the number of its disk and
  -- the mark of its kind.
  pub submit_bio-queued :
      (bio : Bio) (sid : ℕ) (w : Olayer K)
      → horae_path bio.opf ≡ true
      → sid < w.nr_streams
      → IsSound K w sid
      → IsQuiet (stream_at K w sid)
      → 2 ≤ (stream_at K w sid).nr_ometa
      → (w1 : Olayer K) × (w2 : Olayer K) × Keeping K sid w w1
        × Appended K sid (kind_of bio.opf) (entry_of (stream_at K w1 sid) bio 0) w1 w2
        × (stream_submit_bio K bio sid w
            ≡ some (emit K (submit_bio (record bio { opf = plain bio.opf })) w2))
  unfolding stream_submit_bio tx_flag
  submit_bio-queued bio sid w path known v q two =
      let a =
        submit_total K sid (horae_get_lba bio) (horae_get_secs bio) (minor (K.disk_devt bio.dev)) 0
          (tx_flag bio.opf) w v q two in
      (
        a.0,
        a.1,
        a.2,
        a.4,
        rw (known_sid_self w sid known, path, strip_bio-plain bio.opf) (rw (a.3) refl),
      )

  pub submit_ipu-journaled :
      (bio : Bio) (sid : ℕ) (forced : Bool) (w : Olayer K)
      → horae_path bio.opf ≡ true
      → (w.version_consistency || forced) ≡ true
      → sid < w.nr_streams
      → IsSound K w sid
      → IsQuiet (stream_at K w sid)
      → 2 ≤ (stream_at K w sid).nr_ometa
      → horae_get_secs bio ≤ (stream_at K w sid).nr_journal_block
      → horae_get_lba bio + horae_get_secs bio ≤ 2 ^ 32
      → (ptr : ℕ) × (w1 : Olayer K) × (w2 : Olayer K) × (w3 : Olayer K) × Reserved K sid
          (horae_get_secs bio)
          ptr
          w
          w1
        × Keeping K sid w1 w2
        × Appended K sid (kind_of bio.opf) (entry_of (stream_at K w2 sid) bio ptr) w2 w3
        × (stream_submit_bio_ipu K bio sid forced w
            ≡ some (
                emit K
                  (submit_bio
                    (record bio { dev = w1.cp_dev; sector = ptr * 8; opf = unordered bio.opf }))
                  w3))
  unfolding stream_submit_bio_ipu tx_flag
  submit_ipu-journaled bio sid forced w path forced' known v q two fits small =
      let bio' = record bio { opf = unordered bio.opf } in
      let j = journal_write-Reserved K sid bio' w v fits small in
      let quiet : IsQuiet (stream_at K j.2 sid) = record {
        array = ap length j.5.untouched.entries ∙ q.array ∙ sym j.5.untouched.size;
        published = j.5.untouched.watermark ∙ q.published ∙ sym j.5.untouched.tail;
      } in
      let a =
        submit_total K sid (horae_get_lba bio) (horae_get_secs bio) (minor (K.disk_devt bio.dev))
          j.0 (tx_flag bio.opf) j.2 j.5.sound quiet (omega (arith, two, j.5.untouched.size)) in
      (
        j.0,
        j.2,
        a.0,
        a.1,
        j.5,
        a.2,
        a.4,
        rw (known_sid_self w sid known, path, forced', strip_ipu-unordered bio.opf)
            (rw (j.3) (rw (a.3) refl)),
      )
