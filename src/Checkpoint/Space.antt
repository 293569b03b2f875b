-- ===== src/Checkpoint/Space.antt =====
-- A checkpoint makes the space that is asked for (ccnvme/checkpoint.c, stream_do_checkpoint).
use native.Mathlib.Decide.{dec_le, ℕ_discrete}
use ccnvme.Prelude.{
  ℕ, ◌+◌, ◌≤◌, ◌<◌, ◌≡◌, arith, some, refl, ap, sym, subst, ◌∙◌, ==_iff, ==_ne, le→leb, lt→leb,
}
use ccnvme.Ring.{ring_space}
use ccnvme.Ring.Laws.{ring_space-add-count, ring_count-zero}
use ccnvme.Kernel.{Kernel}
use ccnvme.State.{Stream, Olayer, stream_at, put_stream, stream_at-put_self, emit}
use ccnvme.Commit.{commit_write}
use ccnvme.Commit.Laws.{IsRing, frame, commit_write_total}
use ccnvme.Journal.Region.{IsJournal}
use ccnvme.Journal.Bounds.{
  IsSound, Apart, Apart-refl, Apart-trans, Apart-put, Apart-frame, stream_at-frame,
}
use ccnvme.Checkpoint.{truncate_ordering_log, write_checkpoint, stream_do_checkpoint}

module _ (K : Kernel) where
  -- What a step that may move `head` leaves of the stream: its ring, its region and its tail.
  pub record Keeping (sid : ℕ) (w w' : Olayer K) : Type 0 where
    pub sound : IsSound K w' sid
    pub apart : Apart K sid w w'
    pub tail : (stream_at K w' sid).tail ≡ (stream_at K w sid).tail
    pub watermark : (stream_at K w' sid).tail_watermark ≡ (stream_at K w sid).tail_watermark
    pub size : (stream_at K w' sid).nr_ometa ≡ (stream_at K w sid).nr_ometa
    pub entries : (stream_at K w' sid).ometa ≡ (stream_at K w sid).ometa
    pub marked : (stream_at K w' sid).committed ≡ (stream_at K w sid).committed

  pub Keeping-refl : (sid : ℕ) (w : Olayer K) → IsSound K w sid → Keeping sid w w
  Keeping-refl sid w v = record {
    sound = v;
    apart = Apart-refl K sid w;
    tail = refl;
    watermark = refl;
    size = refl;
    entries = refl;
    marked = refl;
  }

  Keeping-trans : (sid : ℕ) (u v w : Olayer K) → Keeping sid u v → Keeping sid v w → Keeping sid u w
  Keeping-trans sid u v w p q = record {
    sound = q.sound;
    apart = Apart-trans K sid u v w p.apart q.apart;
    tail = q.tail ∙ p.tail;
    watermark = q.watermark ∙ p.watermark;
    size = q.size ∙ p.size;
    entries = q.entries ∙ p.entries;
    marked = q.marked ∙ p.marked;
  }

  -- a stream that is put back with nothing changed but `head`, `flushed` and the write pointer
  Keeping-put :
      (sid h f p : ℕ) (w u : Olayer K)
      → IsSound K w sid
      → frame K u ≡ frame K w
      → h < (stream_at K w sid).nr_ometa
      → f < (stream_at K w sid).nr_ometa
      → (stream_at K w sid).off_in_journal ≤ p
      → p ≤ (stream_at K w sid).off_in_journal + (stream_at K w sid).nr_journal_block
      → Keeping sid w (
          put_stream K u sid
            (record (stream_at K w sid) { head = h; flushed = f; j_write_ptr = p }))
  Keeping-put sid h f p w u v e hh hf lo hi = record {
    sound = record {
      known = omega (arith, v.known, (apart).number);
      ring = subst IsRing (sym here) (record {
        small = v.ring.small;
        head_in = hh;
        tail_in = v.ring.tail_in;
        flushed_in = hf;
      });
      journal =
          subst IsJournal (sym here)
            (record { end_small = v.journal.end_small; from_left = lo; to_right = hi });
    };
    apart = apart;
    tail = ap (λ x. x.tail) here;
    watermark = ap (λ x. x.tail_watermark) here;
    size = ap (λ x. x.nr_ometa) here;
    entries = ap (λ x. x.ometa) here;
    marked = ap (λ x. x.committed) here;
  }
    where
      s : Stream
      s = record (stream_at K w sid) { head = h; flushed = f; j_write_ptr = p }

      apart : Apart K sid w (put_stream K u sid s)
      apart = Apart-put K sid w u s (Apart-frame K sid w u e) refl refl

      here : stream_at K (put_stream K u sid s) sid ≡ s
      here = stream_at-put_self K u sid s (omega (arith, v.known, (Apart-frame K sid w u e).number))

  truncate_lem :
      (sid : ℕ) (w : Olayer K)
      → IsSound K w sid
      → (w' : Olayer K) × (truncate_ordering_log K sid w ≡ some w') × Keeping sid w w'
  unfolding truncate_ordering_log
  truncate_lem sid w v = elim (ℕ_discrete s.head s.flushed) [
    | yes e ↦ (w, rw ((==_iff s.head s.flushed).1 e), Keeping-refl sid w v)
    | no ne ↦ (
      put_stream K w1 sid (record s { head = s.flushed; j_write_ptr = s.off_in_journal }),
      rw (==_ne s.head s.flushed ne, done.1) (rw (stream_at-frame K w w1 sid done.2)),
      Keeping-put sid s.flushed s.flushed s.off_in_journal w w1 v done.2 v.ring.flushed_in
          v.ring.flushed_in (omega arith) (omega arith),
    )
  ]
    where
      s : Stream
      s = stream_at K w sid

      done : (w' : Olayer K) × (commit_write K s w ≡ some w') × (frame K w' ≡ frame K w)
      done = commit_write_total K s w v.ring

      w1 : Olayer K
      w1 = done.0

  -- A sound stream asked to make space for at most as many entries as its ring holds, one slot
  -- staying empty: the checkpoint ends, there is then that much space before its tail, the entries
  -- themselves, the tail and the mark of a committed transaction are as they were, the stream is still sound,
  -- and the other streams are untouched.
  pub do_checkpoint-space :
      (sid nr_entries : ℕ) (w : Olayer K)
      → IsSound K w sid
      → nr_entries + 1 ≤ (stream_at K w sid).nr_ometa
      → (w' : Olayer K) × (stream_do_checkpoint K sid nr_entries w ≡ some w')
        × Keeping sid w w'
        × (nr_entries
            ≤ ring_space
                (stream_at K w' sid).head
                (stream_at K w' sid).tail
                (stream_at K w' sid).nr_ometa)
  unfolding stream_do_checkpoint write_checkpoint emit
  do_checkpoint-space sid nr w v h = elim (dec_le nr (space s)) [
    | yes p ↦ (w, rw (le→leb nr (space s) p), Keeping-refl sid w v, p)
    | no p ↦ elim (dec_le nr (space s1)) [
      | yes q ↦
          (w1, rw (lt→leb nr (space s) (omega arith), t.1) (rw (le→leb nr (space s1) q)), t.2, q)
      | no q ↦ (
        w2,
        rw (lt→leb nr (space s) (omega arith), t.1) (rw (lt→leb nr (space s1) (omega arith))),
        Keeping-trans sid w w1 w2 t.2 k2,
        subst (λ x. nr ≤ space x) (sym here) (omega (arith, all_free)),
      )
    ]
  ]
    where
      space : Stream → ℕ
      space x = ring_space x.head x.tail x.nr_ometa

      s : Stream
      s = stream_at K w sid

      t : (w' : Olayer K) × (truncate_ordering_log K sid w ≡ some w') × Keeping sid w w'
      t = truncate_lem sid w v

      w1 : Olayer K
      w1 = t.0

      s1 : Stream
      s1 = stream_at K w1 sid

      v1 : IsSound K w1 sid
      v1 = t.2.sound

      s2 : Stream
      s2 = record s1 { head = s1.tail; flushed = s1.tail }

      w2 : Olayer K
      w2 = put_stream K (write_checkpoint K s1 w1) sid s2

      k2 : Keeping sid w1 w2
      k2 =
          Keeping-put sid s1.tail s1.tail s1.j_write_ptr w1 (write_checkpoint K s1 w1) v1 refl
            v1.ring.tail_in v1.ring.tail_in v1.journal.from_left v1.journal.to_right

      here : stream_at K w2 sid ≡ s2
      here = stream_at-put_self K (write_checkpoint K s1 w1) sid s2 v1.known

      all_free : nr ≤ ring_space s1.tail s1.tail s1.nr_ometa
      all_free = omega (
        arith,
        h,
        t.2.size,
        ring_space-add-count s1.tail s1.tail s1.nr_ometa v1.ring.tail_in v1.ring.tail_in
            (omega (arith, v1.ring.small)),
        ring_count-zero s1.tail s1.tail s1.nr_ometa v1.ring.tail_in v1.ring.tail_in
            (omega (arith, v1.ring.small)) refl,
      )
