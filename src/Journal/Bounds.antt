-- ===== src/Journal/Bounds.antt =====
-- The blocks that the journal hands out lie in the stream's own region.
use ccnvme.Prelude.{
  ℕ, ◌+◌, ◌^◌, ◌≤◌, ◌<◌, ◌≡◌, ◌≢◌, arith, some, length, refl, ap, sym, subst, ◌∙◌, lt→ltb, le→ltb,
}
use native.Mathlib.Decide.{dec_lt, ℕ_discrete}
use ccnvme.Ring.{u64}
use ccnvme.Ring.Laws.{mod_below}
use ccnvme.Kernel.{Kernel}
use ccnvme.State.{
  Stream, Olayer, stream_at, put_stream, stream_at-put_self, stream_at-put_ne, stream_at-put_out,
  length-put_stream,
}
use ccnvme.Commit.{commit_write}
use ccnvme.Commit.Laws.{IsRing, frame, commit_write_total}
use ccnvme.Journal.{right_boundary, make_room, reserve}
use ccnvme.Journal.Region.{IsJournal, rewound, edge, pick, advanced, Picked, pick-Picked, Untouched}

module _ (K : Kernel) where
  -- a registered stream whose ring and journal region are sound
  pub record IsSound (w : Olayer K) (sid : ℕ) : Type 0 where
    pub known : sid < length w.streams
    pub ring : IsRing (stream_at K w sid)
    pub journal : IsJournal (stream_at K w sid)

  -- What a call of one stream leaves of the others, and of the sizes of all.
  pub record Apart (sid : ℕ) (w w' : Olayer K) : Type 0 where
    pub counted : w'.nr_streams ≡ w.nr_streams
    pub regions : (n : ℕ) → (stream_at K w' n).nr_journal_block ≡ (stream_at K w n).nr_journal_block
    pub rings : (n : ℕ) → (stream_at K w' n).nr_ometa ≡ (stream_at K w n).nr_ometa
    pub others : (other : ℕ) → sid ≢ other → stream_at K w' other ≡ stream_at K w other
    pub number : length w'.streams ≡ length w.streams

  pub Apart-refl : (sid : ℕ) (w : Olayer K) → Apart sid w w
  Apart-refl sid w = record {
    counted = refl;
    regions = λ n. refl;
    rings = λ n. refl;
    others = λ o ne. refl;
    number = refl;
  }

  pub Apart-trans : (sid : ℕ) (u v w : Olayer K) → Apart sid u v → Apart sid v w → Apart sid u w
  Apart-trans sid u v w p q = record {
    counted = q.counted ∙ p.counted;
    regions = λ n. q.regions n ∙ p.regions n;
    rings = λ n. q.rings n ∙ p.rings n;
    others = λ o ne. q.others o ne ∙ p.others o ne;
    number = q.number ∙ p.number;
  }

  -- a size that a stream keeps when it is put back, in every stream
  size-put :
      (size : Stream → ℕ) (sid : ℕ) (w : Olayer K) (s : Stream)
      → size s ≡ size (stream_at K w sid)
      → (n : ℕ) → size (stream_at K (put_stream K w sid s) n) ≡ size (stream_at K w n)
  size-put size sid w s e n = elim (ℕ_discrete sid n) [
    | yes q ↦ elim (dec_lt sid (length w.streams)) [
      | yes h ↦
          subst (λ m. size (stream_at K (put_stream K w sid s) m) ≡ size (stream_at K w m)) q
            (ap size (stream_at-put_self K w sid s h) ∙ e)
      | no h ↦
          subst (λ m. size (stream_at K (put_stream K w sid s) m) ≡ size (stream_at K w m)) q
            (ap size (stream_at-put_out K w sid s (omega arith)))
    ]
    | no ne ↦ ap size (stream_at-put_ne K w sid n s ne)
  ]

  -- a stream that is put back with its sizes
  pub Apart-put :
      (sid : ℕ) (w u : Olayer K) (s : Stream)
      → Apart sid w u
      → s.nr_journal_block ≡ (stream_at K w sid).nr_journal_block
      → s.nr_ometa ≡ (stream_at K w sid).nr_ometa
      → Apart sid w (put_stream K u sid s)
  unfolding put_stream
  Apart-put sid w u s a region ring = record {
    counted = a.counted;
    regions = λ n.
        size-put (λ t. t.nr_journal_block) sid u s (region ∙ sym (a.regions sid)) n ∙ a.regions n;
    rings = λ n. size-put (λ t. t.nr_ometa) sid u s (ring ∙ sym (a.rings sid)) n ∙ a.rings n;
    others = λ o ne. stream_at-put_ne K u sid o s ne ∙ a.others o ne;
    number = length-put_stream K u sid s ∙ a.number;
  }

  pub stream_at-frame :
      (w w' : Olayer K) (sid : ℕ) → frame K w' ≡ frame K w → stream_at K w' sid ≡ stream_at K w sid
  unfolding stream_at
  stream_at-frame w w' sid e = rw (ap (λ f. f.streams) e) refl

  pub Apart-frame : (sid : ℕ) (w w' : Olayer K) → frame K w' ≡ frame K w → Apart sid w w'
  Apart-frame sid w w' e = record {
    counted = ap (λ f. f.nr_streams) e;
    regions = λ n. ap (λ t. t.nr_journal_block) (stream_at-frame w w' n e);
    rings = λ n. ap (λ t. t.nr_ometa) (stream_at-frame w w' n e);
    others = λ o ne. stream_at-frame w w' o e;
    number = ap (λ f. length f.streams) e;
  }

  pub record Room (sid n : ℕ) (w w' : Olayer K) : Type 0 where
    pub apart : Apart sid w w'
    pub stream : stream_at K w' sid ≡ pick n (stream_at K w sid)

  make_room_lem :
      (sid n : ℕ) (w : Olayer K)
      → IsSound w sid
      → n ≤ (stream_at K w sid).nr_journal_block
      → (w' : Olayer K) × (make_room K sid n w ≡ some w') × Room sid n w w'
  unfolding make_room
  make_room_lem sid n w v h = elim (dec_lt (edge s) (n + s.j_write_ptr)) [
    | yes full ↦ (
      put_stream K w1 sid (rewound (stream_at K w1 sid)),
      rw (boundary, whole, lt→ltb (edge s) (n + s.j_write_ptr) full) (rw (done.1)),
      record {
        apart =
            Apart-trans sid w w1 _ (Apart-frame sid w w1 done.2)
              (Apart-put sid w1 w1 _ (Apart-refl sid w1) refl refl);
        stream =
            stream_at-put_self K w1 sid _
              (omega (arith, v.known, (Apart-frame sid w w1 done.2).number))
            ∙ ap rewound (stream_at-frame w w1 sid done.2)
            ∙ rw (lt→ltb (edge s) (n + s.j_write_ptr) full);
      },
    )
    | no fits ↦ (
      w,
      rw (boundary, whole, le→ltb (edge s) (n + s.j_write_ptr) (omega arith)),
      record {
        apart = Apart-refl sid w;
        stream = rw (le→ltb (edge s) (n + s.j_write_ptr) (omega arith));
      },
    )
  ]
    where
      s : Stream
      s = stream_at K w sid

      boundary : right_boundary s ≡ edge s
      boundary = mod_below (edge s) (2 ^ 32) v.journal.end_small

      whole : u64 (n + s.j_write_ptr) ≡ n + s.j_write_ptr
      whole =
          mod_below (n + s.j_write_ptr) (2 ^ 64)
            (omega (arith, v.journal.end_small, v.journal.to_right))

      done : (w' : Olayer K) × (commit_write K s w ≡ some w') × (frame K w' ≡ frame K w)
      done = commit_write_total K s w v.ring

      w1 : Olayer K
      w1 = done.0

  -- What an allocation of `n` blocks at `ptr` promises.
  pub record Reserved (sid n ptr : ℕ) (w w' : Olayer K) : Type 0 where
    pub left : (stream_at K w sid).off_in_journal ≤ ptr
    pub right : ptr + n ≤ edge (stream_at K w sid)
    pub next : (stream_at K w' sid).j_write_ptr ≡ ptr + n
    pub in_order :
        n + (stream_at K w sid).j_write_ptr ≤ edge (stream_at K w sid)
        → (ptr ≡ (stream_at K w sid).j_write_ptr)
          × ((stream_at K w' sid).head ≡ (stream_at K w sid).head)
    pub restarted :
        edge (stream_at K w sid) < n + (stream_at K w sid).j_write_ptr
        → (ptr ≡ (stream_at K w sid).off_in_journal)
          × ((stream_at K w' sid).head ≡ (stream_at K w sid).flushed)
    pub sound : IsSound w' sid
    pub apart : Apart sid w w'
    pub untouched : Untouched (stream_at K w sid) (stream_at K w' sid)

  -- the same, from the stream that the room was made in
  Reserved-advanced :
      (sid n : ℕ) (w w2 : Olayer K) (t : Stream)
      → IsSound w sid
      → Apart sid w w2
      → stream_at K w2 sid ≡ advanced n t
      → Picked n (stream_at K w sid) t
      → Reserved sid n t.j_write_ptr w w2
  Reserved-advanced sid n w w2 t v apart e p = record {
    left = p.left;
    right = p.right;
    next = ap (λ s. s.j_write_ptr) e ∙ p.next;
    in_order = λ q. ((p.in_order q).0, ap (λ s. s.head) e ∙ (p.in_order q).1);
    restarted = λ q. ((p.restarted q).0, ap (λ s. s.head) e ∙ (p.restarted q).1);
    sound = record {
      known = omega (arith, v.known, apart.number);
      ring = subst IsRing (sym e) (record {
        small = p.ring.small;
        head_in = p.ring.head_in;
        tail_in = p.ring.tail_in;
        flushed_in = p.ring.flushed_in;
      });
      journal = subst IsJournal (sym e) p.journal;
    };
    apart = apart;
    untouched = subst (Untouched (stream_at K w sid)) (sym e) (record {
      tail = p.untouched.tail;
      watermark = p.untouched.watermark;
      size = p.untouched.size;
      entries = p.untouched.entries;
    });
  }

  -- The section under the journal lock gives `n` blocks, or fewer than none are asked for.
  pub reserve_lem :
      (sid n : ℕ) (w : Olayer K)
      → IsSound w sid
      → n ≤ (stream_at K w sid).nr_journal_block
      → (ptr : ℕ) × (w' : Olayer K) × (reserve K sid n w ≡ some (ptr, w')) × Reserved sid n ptr w w'
  unfolding reserve
  reserve_lem sid n w v h =
      (t.j_write_ptr, w2, rw (room.1), Reserved-advanced sid n w w2 t v apart after picked)
    where
      room : (w' : Olayer K) × (make_room K sid n w ≡ some w') × Room sid n w w'
      room = make_room_lem sid n w v h

      t : Stream
      t = stream_at K room.0 sid

      w2 : Olayer K
      w2 = put_stream K room.0 sid (advanced n t)

      apart : Apart sid w w2
      apart =
          Apart-trans sid w room.0 w2 room.2.apart
            (Apart-put sid room.0 room.0 (advanced n t) (Apart-refl sid room.0) refl refl)

      after : stream_at K w2 sid ≡ advanced n t
      after =
          stream_at-put_self K room.0 sid (advanced n t)
            (omega (arith, v.known, room.2.apart.number))

      picked : Picked n (stream_at K w sid) t
      picked =
          subst (Picked n (stream_at K w sid)) (sym room.2.stream)
            (pick-Picked n (stream_at K w sid) h v.ring v.journal)
