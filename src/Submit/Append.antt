-- ===== src/Submit/Append.antt =====
-- One append at a time: the submission queue grows by the entry at its end (ccnvme/horae.c,
-- stream_submit_bio_core).
use native.Mathlib.Decide.{dec_lt}
use ccnvme.Prelude.{
  ℕ, suc, ◌*◌, ◌%◌, ◌^◌, true, false, ◌&&◌, ◌==◌, if◌then◌else◌, ◌≤◌, ◌<◌, ◌≡◌, arith, [], ◌∷◌,
  ◌++◌, some, length, set, refl, ap, sym, subst, ◌∙◌, lt→ltb, le→ltb, Bool, ==_refl, length-set,
  get_or-set_self,
}
use ccnvme.Ring.{u32, ring_space, ring_next}
use ccnvme.Ring.Laws.{ring_next-lt}
use ccnvme.Ometa.{Ometa, ometa_bytes, zero_ometa}
use ccnvme.Kernel.{Kernel}
use ccnvme.State.{Stream, Olayer, stream_at, put_stream, stream_ometa_at, stream_at-put_self}
use ccnvme.Cmb.{copy_from_buff_to_dev}
use ccnvme.Cmb.Ranges.{frame-copy}
use ccnvme.Commit.Laws.{IsRing, frame}
use ccnvme.Journal.Region.{IsJournal}
use ccnvme.Journal.Bounds.{IsSound, Apart, Apart-refl, Apart-trans, Apart-put, Apart-frame}
use ccnvme.Checkpoint.{stream_do_checkpoint}
use ccnvme.Checkpoint.Space.{Keeping, Keeping-refl, do_checkpoint-space}
use ccnvme.Submit.{entry_tag, still_committed, filled, fill_slot, stream_submit_bio_core}
use ccnvme.Submit.Queue.{queue, IsQuiet, appended, queue-appended}

module _ (K : Kernel) where
  -- the entry that an append stores, field by field: the transaction number is the slot's old one,
  -- and the tag is one bit, the begin mark for the first entry of a transaction
  abbrev pub new_entry : Stream → ℕ → ℕ → ℕ → ℕ → ℕ → Ometa
  new_entry s lba nr_pages device_id plba flags = record {
    lba = lba;
    length = nr_pages % 2 ^ 16;
    txid = (stream_ometa_at s s.tail).txid;
    tag = if flags == 1 && s.committed then 1 else 2 ^ flags;
    device_id = device_id % 2 ^ 8;
    plba = plba % 2 ^ 32;
  }

  -- What an append of `o` leaves of the stream and of the others; an entry of a transaction opens one.
  pub record Appended (sid flags : ℕ) (o : Ometa) (w w' : Olayer K) : Type 0 where
    pub contents : queue (stream_at K w' sid) ≡ queue (stream_at K w sid) ++ (o ∷ [])
    pub stored : stream_ometa_at (stream_at K w' sid) (stream_at K w sid).tail ≡ o
    pub committed :
        (stream_at K w' sid).committed
        ≡ (if flags == 1 then false else (stream_at K w sid).committed)
    pub sound : IsSound K w' sid
    pub quiet : IsQuiet (stream_at K w' sid)
    pub apart : Apart K sid w w'

  slot_filled :
      (s : Stream) (o : Ometa) (c : Bool)
      → s.tail < length s.ometa
      → stream_ometa_at (appended o c s) s.tail ≡ o
  unfolding stream_ometa_at
  slot_filled s o c h = get_or-set_self s.ometa s.tail o zero_ometa h

  reopened : (p c : Bool) → (if p && c then false else c) ≡ (if p then false else c)
  reopened true true = refl
  reopened true false = refl
  reopened false c = refl

  module _ (sid lba nr_pages device_id plba flags : ℕ) where
    fill_slot_lem :
        (w : Olayer K)
        → IsSound K w sid
        → IsQuiet (stream_at K w sid)
        → 1
          ≤ ring_space
              (stream_at K w sid).head
              (stream_at K w sid).tail
              (stream_at K w sid).nr_ometa
        → (w' : Olayer K) × (fill_slot K sid
              (stream_at K w sid).tail
              lba
              nr_pages
              device_id
              plba
              flags
              w
            ≡ some ((stream_at K w sid).tail, w'))
          × Appended sid flags
              (new_entry (stream_at K w sid) lba nr_pages device_id plba flags)
              w
              w'
    unfolding fill_slot filled entry_tag still_committed
    fill_slot_lem w v q space = (
      w3,
      rw (==_refl s.tail),
      record {
        contents = ap queue here ∙ queue-appended s o c v.ring q.array space;
        stored =
            ap (λ x. stream_ometa_at x s.tail) here
            ∙ slot_filled s o c (omega (arith, v.ring.tail_in, q.array));
        committed = ap (λ x. x.committed) here ∙ reopened (flags == 1) s.committed;
        sound = record {
          known = omega (arith, v.known, apart.number);
          ring = subst IsRing (sym here) (record {
            small = v.ring.small;
            head_in = v.ring.head_in;
            tail_in = ring_next-lt s.tail s.nr_ometa v.ring.tail_in;
            flushed_in = v.ring.flushed_in;
          });
          journal = subst IsJournal (sym here) (record {
            end_small = v.journal.end_small;
            from_left = v.journal.from_left;
            to_right = v.journal.to_right;
          });
        };
        quiet =
            subst IsQuiet (sym here)
              (record { array = length-set s.ometa s.tail o ∙ q.array; published = refl });
        apart = apart;
      },
    )
      where
        s : Stream
        s = stream_at K w sid

        o : Ometa
        o = new_entry s lba nr_pages device_id plba flags

        c : Bool
        c = still_committed flags s.committed

        s1 : Stream
        s1 = record s {
          tail_watermark = ring_next s.tail s.nr_ometa;
          ometa = set s.ometa s.tail o;
          committed = c;
        }

        w1 : Olayer K
        w1 = put_stream K w sid s1

        w2 : Olayer K
        w2 = copy_from_buff_to_dev K s1 (s.tail * ometa_bytes) ometa_bytes w1

        w3 : Olayer K
        w3 = put_stream K w2 sid (appended o c s)

        copied : frame K w2 ≡ frame K w1
        copied = frame-copy K s1 (s.tail * ometa_bytes) ometa_bytes w1

        early : Apart K sid w w2
        early =
            Apart-trans K sid w w1 w2 (Apart-put K sid w w s1 (Apart-refl K sid w) refl refl)
              (Apart-frame K sid w1 w2 copied)

        apart : Apart K sid w w3
        apart = Apart-put K sid w w2 (appended o c s) early refl refl

        here : stream_at K w3 sid ≡ appended o c s
        here = stream_at-put_self K w2 sid (appended o c s) (omega (arith, v.known, early.number))

    slot_lem :
        (w : Olayer K)
        → IsSound K w sid
        → IsQuiet (stream_at K w sid)
        → u32 (stream_at K w sid).tail_watermark ≡ (stream_at K w sid).tail
    slot_lem w v q = omega (arith, q.published, v.ring.tail_in, v.ring.small)

    has_space :
        (w : Olayer K) (fuel : ℕ)
        → IsSound K w sid
        → IsQuiet (stream_at K w sid)
        → 1
          ≤ ring_space
              (stream_at K w sid).head
              (stream_at K w sid).tail
              (stream_at K w sid).nr_ometa
        → stream_submit_bio_core K (suc fuel) sid lba nr_pages device_id plba flags w
          ≡ fill_slot K sid (stream_at K w sid).tail lba nr_pages device_id plba flags w
    unfolding stream_submit_bio_core
    has_space w fuel v q space =
        rw (slot_lem w v q, le→ltb _ 1 space, stream_submit_bio_core) (rw (slot_lem w v q))

    no_space :
        (w w1 : Olayer K) (fuel : ℕ)
        → IsSound K w sid
        → IsQuiet (stream_at K w sid)
        → ring_space (stream_at K w sid).head (stream_at K w sid).tail (stream_at K w sid).nr_ometa
          < 1
        → stream_do_checkpoint K sid 1 w ≡ some w1
        → stream_submit_bio_core K (suc fuel) sid lba nr_pages device_id plba flags w
          ≡ stream_submit_bio_core K fuel sid lba nr_pages device_id plba flags w1
    unfolding stream_submit_bio_core
    no_space w w1 fuel v q full e = rw (slot_lem w v q, lt→ltb _ 1 full, e, stream_submit_bio_core)

    -- A sound and quiet stream with space: the append takes the slot at the tail, its queue is
    -- from then on the old one with the new entry behind it, it is sound and quiet again, and the
    -- other streams stay as they were. The entry has the block, the pages, the device, the journal
    -- block and the tag that the call says, and the transaction number that the slot had before.
    pub submit-Appended :
        (w : Olayer K) (fuel : ℕ)
        → IsSound K w sid
        → IsQuiet (stream_at K w sid)
        → 1
          ≤ ring_space
              (stream_at K w sid).head
              (stream_at K w sid).tail
              (stream_at K w sid).nr_ometa
        → (w' : Olayer K) × (stream_submit_bio_core K
              (suc fuel)
              sid
              lba
              nr_pages
              device_id
              plba
              flags
              w
            ≡ some ((stream_at K w sid).tail, w'))
          × Appended sid flags
              (new_entry (stream_at K w sid) lba nr_pages device_id plba flags)
              w
              w'
    submit-Appended w fuel v q space =
        let f = fill_slot_lem w v q space in (f.0, has_space w fuel v q space ∙ f.1, f.2)

    -- A sound and quiet stream of at least two entries: two rounds are enough, with or without
    -- space. There is a state, reached from the given one by making space if there was none, from
    -- which the append takes the slot at the tail as above.
    pub submit_total :
        (w : Olayer K)
        → IsSound K w sid
        → IsQuiet (stream_at K w sid)
        → 2 ≤ (stream_at K w sid).nr_ometa
        → (w1 : Olayer K) × (w' : Olayer K) × Keeping K sid w w1
          × (stream_submit_bio_core K 2 sid lba nr_pages device_id plba flags w
              ≡ some ((stream_at K w sid).tail, w'))
          × Appended sid flags
              (new_entry (stream_at K w1 sid) lba nr_pages device_id plba flags)
              w1
              w'
    submit_total w v q two = elim (dec_lt space 1) [
      | no p ↦
          let a = submit-Appended w 1 v q (omega arith) in
          (w, a.0, Keeping-refl K sid w v, a.1, a.2)
      | yes p ↦
          let a = submit-Appended w1 0 c.2.sound quiet (omega (arith, c.3)) in
          (w1, a.0, c.2, no_space w w1 1 v q p c.1 ∙ a.1 ∙ ap (λ t. some (t, a.0)) c.2.tail, a.2)
    ]
      where
        space : ℕ
        space =
            ring_space (stream_at K w sid).head (stream_at K w sid).tail
              (stream_at K w sid).nr_ometa

        c :
            (w' : Olayer K) × (stream_do_checkpoint K sid 1 w ≡ some w')
            × Keeping K sid w w'
            × (1
                ≤ ring_space
                    (stream_at K w' sid).head
                    (stream_at K w' sid).tail
                    (stream_at K w' sid).nr_ometa)
        c = do_checkpoint-space K sid 1 w v (omega arith)

        w1 : Olayer K
        w1 = c.0

        quiet : IsQuiet (stream_at K w1 sid)
        quiet = record {
          array = ap length c.2.entries ∙ q.array ∙ sym c.2.size;
          published = c.2.watermark ∙ q.published ∙ sym c.2.tail;
        }
