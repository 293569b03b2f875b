-- ===== src/Submit/Marks.antt =====
-- Where the end mark of a transaction goes (ccnvme/horae.c, stream_tx_commit_core).
use ccnvme.Prelude.{
  ℕ, ◌*◌, ◌^◌, ◌≤◌, ◌≡◌, ◌≢◌, arith, [], ◌∷◌, ◌++◌, some, set, refl, ap, sym, subst, ◌∙◌, true,
  false, length-set, get_or-set_ne, get_or-set_self, length, ◌<◌,
}
use ccnvme.Ring.{u32, ring_space, ring_count}
use ccnvme.Ring.Window.{visited, visited-ne}
use ccnvme.Ometa.{Ometa, ometa_bytes, zero_ometa, has_bit, horae_tx, horae_tx_end, horae_tx_begin}
use ccnvme.Kernel.{Kernel, writel}
use ccnvme.State.{Stream, Olayer, stream_at, put_stream, stream_ometa_at, stream_at-put_self, emit}
use ccnvme.Cmb.{cmb_flush}
use ccnvme.Cmb.Ranges.{frame-cmb_flush}
use ccnvme.Commit.Laws.{IsRing, frame}
use ccnvme.Journal.Region.{IsJournal}
use ccnvme.Journal.Bounds.{IsSound, Apart, Apart-refl, Apart-trans, Apart-put, Apart-frame}
use ccnvme.Submit.{entry_tag, filled, stream_commit_tx, stream_submit_bio_core}
use ccnvme.Submit.Queue.{queue, map-cong, IsQuiet}
use ccnvme.Submit.Append.{Appended, new_entry, submit-Appended}

-- the stream after the end mark
abbrev closed : Stream → Stream
closed s = record s {
  ometa = set s.ometa s.tail (record (stream_ometa_at s s.tail) { tag = 2 ^ horae_tx_end });
  committed = true;
  last_queue_flushed = s.tail;
}

queue-closed : (s : Stream) → IsRing s → queue (closed s) ≡ queue s
unfolding queue stream_ometa_at
queue-closed s r =
    map-cong (λ j. j ≢ s.tail) (stream_ometa_at (closed s)) (stream_ometa_at s)
      (visited s.nr_ometa s.head s.tail)
      (visited-ne s.nr_ometa s.head s.tail (omega (arith, r.small)) r.head_in r.tail_in)
      (λ j ne. get_or-set_ne s.ometa s.tail j _ zero_ometa (λ q. ne (sym q)))

marked :
    (s : Stream)
    → s.tail < length s.ometa
    → stream_ometa_at (closed s) s.tail ≡ record (stream_ometa_at s s.tail) { tag = 4 }
unfolding stream_ometa_at
marked s h = get_or-set_self s.ometa s.tail _ zero_ometa h

module _ (K : Kernel) where
  -- What a commit leaves of the stream and of the others.
  pub record Closed (sid : ℕ) (w w' : Olayer K) : Type 0 where
    pub contents : queue (stream_at K w' sid) ≡ queue (stream_at K w sid)
    pub mark :
        stream_ometa_at (stream_at K w' sid) (stream_at K w sid).tail
        ≡ record (stream_ometa_at (stream_at K w sid) (stream_at K w sid).tail) { tag = 4 }
    pub committed : (stream_at K w' sid).committed ≡ true
    pub last_queue_flushed : (stream_at K w' sid).last_queue_flushed ≡ (stream_at K w sid).tail
    pub tail : (stream_at K w' sid).tail ≡ (stream_at K w sid).tail
    pub head : (stream_at K w' sid).head ≡ (stream_at K w sid).head
    pub size : (stream_at K w' sid).nr_ometa ≡ (stream_at K w sid).nr_ometa
    pub sound : IsSound K w' sid
    pub quiet : IsQuiet (stream_at K w' sid)
    pub apart : Apart K sid w w'

  pub commit_tx-Closed :
      (sid : ℕ) (w : Olayer K)
      → IsSound K w sid
      → IsQuiet (stream_at K w sid)
      → Closed sid w (stream_commit_tx K sid w)
  unfolding stream_commit_tx emit
  commit_tx-Closed sid w v q = record {
    contents = ap queue here ∙ queue-closed s v.ring;
    mark =
        ap (λ x. stream_ometa_at x s.tail) here ∙ marked s (omega (arith, q.array, v.ring.tail_in));
    committed = ap (λ x. x.committed) here;
    last_queue_flushed = ap (λ x. x.last_queue_flushed) here;
    tail = ap (λ x. x.tail) here;
    head = ap (λ x. x.head) here;
    size = ap (λ x. x.nr_ometa) here;
    sound = record {
      known = omega (arith, v.known, apart.number);
      ring = subst IsRing (sym here) (record {
        small = v.ring.small;
        head_in = v.ring.head_in;
        tail_in = v.ring.tail_in;
        flushed_in = v.ring.flushed_in;
      });
      journal = subst IsJournal (sym here) (record {
        end_small = v.journal.end_small;
        from_left = v.journal.from_left;
        to_right = v.journal.to_right;
      });
    };
    quiet =
        subst IsQuiet (sym here)
          (record { array = length-set s.ometa s.tail _ ∙ q.array; published = q.published });
    apart = apart;
  }
    where
      s : Stream
      s = stream_at K w sid

      s1 : Stream
      s1 = record (closed s) { last_queue_flushed = s.last_queue_flushed }

      w0 : Olayer K
      w0 = put_stream K w sid s1

      off : ℕ
      off = u32 (s.last_queue_flushed * ometa_bytes)

      len : ℕ
      len = u32 (ometa_bytes * u32 (ring_count s.last_queue_flushed s.tail s.nr_ometa))

      w1 : Olayer K
      w1 = emit K (writel (u32 s.tail) 0) (cmb_flush K s1 off len w0)

      w2 : Olayer K
      w2 = cmb_flush K s1 0 8 w1

      flushed : frame K w2 ≡ frame K w0
      flushed = frame-cmb_flush K s1 0 8 w1 ∙ frame-cmb_flush K s1 off len w0

      early : Apart K sid w w2
      early =
          Apart-trans K sid w w0 w2 (Apart-put K sid w w s1 (Apart-refl K sid w) refl refl)
            (Apart-frame K sid w0 w2 flushed)

      apart : Apart K sid w (put_stream K w2 sid (closed s))
      apart = Apart-put K sid w w2 (closed s) early refl refl

      here : stream_at K (put_stream K w2 sid (closed s)) sid ≡ closed s
      here = stream_at-put_self K w2 sid (closed s) (omega (arith, v.known, early.number))

  -- A sound and quiet stream with space, whose transaction is committed and which is then given the
  -- first entry of the next: the end mark is lost. The slot at the tail carries it before the append;
  -- the append takes that slot; the queue is the one from before the commit with the new
  -- entry behind it, which has the begin mark and not the end mark.
  pub commit_tx-mark_lost :
      (sid lba nr_pages device_id plba : ℕ) (w : Olayer K)
      → IsSound K w sid
      → IsQuiet (stream_at K w sid)
      → 1
        ≤ ring_space (stream_at K w sid).head (stream_at K w sid).tail (stream_at K w sid).nr_ometa
      → (w' : Olayer K) × (o : Ometa) × (stream_submit_bio_core K 1 sid lba nr_pages device_id plba
            horae_tx
            (stream_commit_tx K sid w)
          ≡ some ((stream_at K w sid).tail, w'))
        × (has_bit
              (stream_ometa_at
                (stream_at K (stream_commit_tx K sid w) sid)
                (stream_at K w sid).tail).tag
              horae_tx_end
            ≡ true)
        × (stream_ometa_at (stream_at K w' sid) (stream_at K w sid).tail ≡ o)
        × (queue (stream_at K w' sid) ≡ queue (stream_at K w sid) ++ (o ∷ []))
        × (has_bit o.tag horae_tx_begin ≡ true)
        × (has_bit o.tag horae_tx_end ≡ false)
  unfolding filled entry_tag
  commit_tx-mark_lost sid lba nr_pages device_id plba w v q space = (
    a.0,
    new_entry K (stream_at K w1 sid) lba nr_pages device_id plba horae_tx,
    a.1 ∙ ap (λ t. some (t, a.0)) c.tail,
    rw (c.mark),
    ap (λ t. stream_ometa_at (stream_at K a.0 sid) t) (sym c.tail) ∙ a.2.stored,
    a.2.contents
        ∙ ap
            (λ l. l ++ (new_entry K (stream_at K w1 sid) lba nr_pages device_id plba horae_tx ∷ []))
            c.contents,
    rw (c.committed),
    rw (c.committed),
  )
    where
      w1 : Olayer K
      w1 = stream_commit_tx K sid w

      c : Closed sid w w1
      c = commit_tx-Closed sid w v q

      room :
          1
          ≤ ring_space
              (stream_at K w1 sid).head
              (stream_at K w1 sid).tail
              (stream_at K w1 sid).nr_ometa
      room = rw (c.head, c.tail, c.size) space

      a :
          (w' : Olayer K) × (stream_submit_bio_core K 1 sid lba nr_pages device_id plba horae_tx w1
            ≡ some ((stream_at K w1 sid).tail, w'))
          × Appended K sid horae_tx
              (new_entry K (stream_at K w1 sid) lba nr_pages device_id plba horae_tx)
              w1
              w'
      a = submit-Appended K sid lba nr_pages device_id plba horae_tx w1 0 c.sound c.quiet room
