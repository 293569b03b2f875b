-- ===== src/Delegate/Fifo.antt =====
-- A submitter's ring is a queue: what is put in comes out in order.
use native.Mathlib.Decide.{ℕ_discrete}
use ccnvme.Prelude.{
  ℕ, zero, suc, ◌+◌, ◌^◌, ◌≤◌, ◌<◌, ◌≡◌, ◌≢◌, arith, some, List, [], ◌∷◌, ◌++◌, map, length, set,
  refl, ap, ap₂, sym, ◌∙◌, subst, length-set, lt→leb, if◌then◌else◌, le→ltb, ==_iff, ==_ne,
  get_or-set_self, get_or-set_ne,
}
use ccnvme.Ring.{ring_space, ring_next, ring_count}
use ccnvme.Ring.Laws.{
  ring_space-add-count, ring_count-pos, ring_count-step, ring_count-lt, ring_next-lt,
}
use ccnvme.Ring.Window.{visited, visited-nil, visited-cons, visited-snoc, visited-ne}
use ccnvme.Kernel.{Kernel, Bio, Event, submit_bio}
use ccnvme.State.{Stream, Olayer, emit, stream_at, put_stream}
use ccnvme.Submit.Queue.{map-cong, map-snoc}
use ccnvme.Delegate.{
  SubmitterRing, sqe_at, no_bio, blank_ring, Delegation, ring_at, pushed, delegate_bio, submit_all,
  bio_delegater,
}

-- the bios that wait in a ring, oldest first
unfoldable pub waiting : SubmitterRing → List Bio
waiting r = map (sqe_at r) (visited r.len r.head r.tail)

-- indices inside the ring, an array of its size, and nobody between reserving and publishing
pub record IsSubmitterRing (r : SubmitterRing) : Type 0 where
  pub small : r.len ≤ 2 ^ 62
  pub head_in : r.head < r.len
  pub tail_in : r.tail < r.len
  pub array : length r.bio_sqes ≡ r.len
  pub published : r.tail_watermark ≡ r.tail

-- the submissions of some bios, newest first, before other events
unfoldable pub submitted : List Bio → List Event → List Event
submitted [] io = io
submitted (b ∷ bs) io = submitted bs (submit_bio b ∷ io)

-- a ring with a bio stored at slot `m`
abbrev stored : Bio → ℕ → SubmitterRing → SubmitterRing
stored bio m r = record r {
  tail_watermark = ring_next m r.len;
  bio_sqes = set r.bio_sqes m bio;
  tail = ring_next m r.len;
}

waiting-stored :
    (bio : Bio) (r : SubmitterRing)
    → IsSubmitterRing r
    → 1 ≤ ring_space r.head r.tail r.len
    → waiting (stored bio r.tail r) ≡ waiting r ++ (bio ∷ [])
unfolding waiting sqe_at
waiting-stored bio r v space =
    ap (map (sqe_at (stored bio r.tail r))) (
      visited-snoc r.len r.head r.tail v.small v.head_in v.tail_in (
        omega (arith, space, ring_space-add-count r.head r.tail r.len v.head_in v.tail_in v.small)))
    ∙ map-snoc (sqe_at (stored bio r.tail r)) (visited r.len r.head r.tail) r.tail
    ∙ ap₂ (λ l x. l ++ (x ∷ []))
        (map-cong (λ j. j ≢ r.tail) (sqe_at (stored bio r.tail r)) (sqe_at r)
          (visited r.len r.head r.tail) (visited-ne r.len r.head r.tail v.small v.head_in v.tail_in)
          (λ j ne. get_or-set_ne r.bio_sqes r.tail j bio no_bio (λ q. ne (sym q))))
        (get_or-set_self r.bio_sqes r.tail bio no_bio (omega (arith, v.tail_in, v.array)))

module _ (K : Kernel) where
  waiting-pushed :
      (bio : Bio) (r : SubmitterRing)
      → IsSubmitterRing r
      → 1 ≤ ring_space r.head r.tail r.len
      → waiting (pushed K bio r) ≡ waiting r ++ (bio ∷ [])
  unfolding pushed
  waiting-pushed bio r v space =
      ap (λ m. waiting (stored bio m r)) v.published ∙ waiting-stored bio r v space

  pushed-IsSubmitterRing :
      (bio : Bio) (r : SubmitterRing) → IsSubmitterRing r → IsSubmitterRing (pushed K bio r)
  unfolding pushed
  pushed-IsSubmitterRing bio r v = record {
    small = v.small;
    head_in = v.head_in;
    tail_in = ring_next-lt r.tail_watermark r.len (omega (arith, v.tail_in, v.published));
    array = length-set r.bio_sqes r.tail_watermark bio ∙ v.array;
    published = refl;
  }

  submit_all_lem :
      (fuel head : ℕ) (r : SubmitterRing) (w : Olayer K)
      → r.len ≤ 2 ^ 62
      → head < r.len
      → r.tail < r.len
      → ring_count head r.tail r.len ≤ fuel
      → submit_all K fuel head r w
        ≡ some
            (r.tail, record w { io = submitted (map (sqe_at r) (visited r.len head r.tail)) w.io })
  unfolding submit_all submitted emit
  submit_all_lem zero head r w small hh ht enough = elim (ℕ_discrete head r.tail) [
    | yes e ↦
        rw ((==_iff head r.tail).1 e, visited-nil r.len head r.tail hh ht small e)
          (ap (λ t. some (t, w)) e)
    | no e ↦ absurd (omega (arith, ring_count-pos head r.tail r.len hh ht small e))
  ]
  submit_all_lem (suc fuel) head r w small hh ht enough = elim (ℕ_discrete head r.tail) [
    | yes e ↦
        rw ((==_iff head r.tail).1 e, submit_all)
          (rw (visited-nil r.len head r.tail hh ht small e) (ap (λ t. some (t, w)) e))
    | no e ↦
        rw (==_ne head r.tail e, visited-cons r.len head r.tail hh ht small e, submit_all)
          (submit_all_lem fuel (ring_next head r.len) r (emit K (submit_bio (sqe_at r head)) w)
            small (ring_next-lt head r.len hh) ht
            (omega (arith, ring_count-step head r.tail r.len hh ht small e)))
  ]

  -- A bio delegated to a known submitter whose ring has space: it waits there behind those that
  -- waited before, the ring is sound again, the other rings stay, nothing is submitted, and the
  -- submitter is woken exactly if it asked for that.
  pub delegate_bio-waits :
      (sid id : ℕ) (bio : Bio) (d : Delegation K)
      → id < length d.rings
      → IsSubmitterRing (ring_at K d id)
      → 1 ≤ ring_space (ring_at K d id).head (ring_at K d id).tail (ring_at K d id).len
      → (d' : Delegation K) × (delegate_bio K sid bio id d ≡ some d')
        × (waiting (ring_at K d' id) ≡ waiting (ring_at K d id) ++ (bio ∷ []))
        × IsSubmitterRing (ring_at K d' id)
        × ((other : ℕ) → id ≢ other → ring_at K d' other ≡ ring_at K d other)
        × (d'.layer.io ≡ d.layer.io)
        × (d'.woken ≡ (if (ring_at K d id).need_wakeup then id ∷ d.woken else d.woken))
  unfolding delegate_bio put_stream
  delegate_bio-waits sid id bio d h v space = (
    d',
    rw
        (
          lt→leb (length d.rings) id h,
          le→ltb (ring_space r.head r.tail_watermark r.len) 1
              (subst (λ m. 1 ≤ ring_space r.head m r.len) (sym v.published) space),
          (==_iff r.tail r.tail_watermark).1 (sym v.published),
        )
        refl,
    ap waiting here ∙ waiting-pushed bio r v space,
    subst IsSubmitterRing (sym here) (pushed-IsSubmitterRing bio r v),
    (λ other ne. get_or-set_ne d.rings id other (pushed K bio r) blank_ring ne),
    refl,
    refl,
  )
    where
      r : SubmitterRing
      r = ring_at K d id

      s : Stream
      s = stream_at K d.layer sid

      d' : Delegation K
      d' = record {
        layer = put_stream K d.layer sid (record s { delegated_bio = s.delegated_bio + 1 });
        rings = set d.rings id (pushed K bio r);
        woken = if r.need_wakeup then id ∷ d.woken else d.woken;
      }

      here : ring_at K d' id ≡ pushed K bio r
      here = get_or-set_self d.rings id (pushed K bio r) blank_ring h

  -- A round of the submitter on a sound ring comes to its end: it submits the bios that wait, oldest
  -- first, and nothing else, and leaves the ring empty.
  pub bio_delegater-empties :
      (id : ℕ) (d : Delegation K)
      → id < length d.rings
      → IsSubmitterRing (ring_at K d id)
      → (d' : Delegation K) × (bio_delegater K id d ≡ some d')
        × (d'.layer.io ≡ submitted (waiting (ring_at K d id)) d.layer.io)
        × ((ring_at K d' id).head ≡ (ring_at K d' id).tail)
        × (waiting (ring_at K d' id) ≡ [])
  unfolding bio_delegater waiting
  bio_delegater-empties id d h v = (
    d',
    rw (walk) refl,
    refl,
    ap (λ t. t.head) here ∙ ap (λ t. t.tail) (sym here),
    ap waiting here ∙ none_left,
  )
    where
      r : SubmitterRing
      r = ring_at K d id

      d' : Delegation K
      d' = record d {
        layer = record d.layer { io = submitted (waiting r) d.layer.io };
        rings = set d.rings id (record r { head = r.tail });
      }

      walk :
          submit_all K r.len r.head r d.layer
          ≡ some (r.tail, record d.layer { io = submitted (waiting r) d.layer.io })
      walk =
          submit_all_lem r.len r.head r d.layer v.small v.head_in v.tail_in
            (omega (arith, ring_count-lt r.head r.tail r.len v.head_in v.tail_in v.small))

      here : ring_at K d' id ≡ record r { head = r.tail }
      here = get_or-set_self d.rings id (record r { head = r.tail }) blank_ring h

      none_left : waiting (record r { head = r.tail }) ≡ []
      none_left =
          ap (map (sqe_at (record r { head = r.tail })))
            (visited-nil r.len r.tail r.tail v.tail_in v.tail_in v.small refl)
