-- ===== src/Race/Exclusive.antt =====
-- No two threads hold one slot, whatever the order of their steps.
use native.Mathlib.Decide.{ℕ_discrete}
use ccnvme.Prelude.{
  ℕ, ◌+◌, ◌^◌, ◌≤◌, ◌<◌, ◌≡◌, ◌≢◌, arith, Option, none, some, refl, ap, sym, ◌∙◌, subst, ==_iff,
  ==_ne,
}
use mathlib.Core.Path.{fun_ext}
use ccnvme.Ring.{ring_count, ring_next, ring_space}
use ccnvme.Ring.Laws.{ring_count-zero, ring_count-pos, ring_space-add-count, ring_next-lt}
use ccnvme.Race.{
  Pc, outside, marked, tested, reserved, Shared, at_thread, Step, read_watermark, test_space,
  no_space, swap_watermark, retry, swap_tail, free_head, Fresh, FreshRun, stay, move,
}
use ccnvme.Race.Slots.{Held, Held-free_head, Held-swap_watermark, none-some, some-inj}
use ccnvme.Race.Counts.{ring_next-full}
use ccnvme.Race.Publish.{Held-swap_tail}

-- the slot that a thread has reserved and not yet published
abbrev pub slot_of : Pc → Option ℕ
slot_of outside = none
slot_of (marked a) = none
slot_of (tested a) = none
slot_of (reserved a) = some a

abbrev pub slots_of : Shared → ℕ → Option ℕ
slots_of s i = slot_of (s.pc i)

-- The slots after a thread has moved on.
slots_moved :
    (i : ℕ) (p : Pc) (pc : ℕ → Pc) (j : ℕ)
    → slot_of (at_thread i p pc j) ≡ at_thread i (slot_of p) (λ k. slot_of (pc k)) j
slots_moved i p pc j = elim (ℕ_discrete i j) [
  | yes e ↦ rw ((==_iff i j).1 e) refl
  | no e ↦ rw (==_ne i j e) refl
]

-- A thread that holds no slot before and after changes nothing.
slots_same :
    (i : ℕ) (p : Pc) (pc : ℕ → Pc) (j : ℕ)
    → slot_of p ≡ none
    → slot_of (pc i) ≡ none
    → slot_of (at_thread i p pc j) ≡ slot_of (pc j)
slots_same i p pc j e f = elim (ℕ_discrete i j) [
  | yes q ↦ rw ((==_iff i j).1 q) (e ∙ sym f ∙ ap (λ k. slot_of (pc k)) q)
  | no q ↦ rw (==_ne i j q) refl
]

abbrev pub IsShared : ℕ → Shared → Type 0
IsShared n s = Held n s.head s.tail s.watermark (slots_of s)

-- a thread that holds no slot goes on
moved_on :
    (n : ℕ) (u : Shared) (i : ℕ) (p : Pc)
    → slot_of p ≡ none
    → slot_of (u.pc i) ≡ none
    → IsShared n u
    → IsShared n (record u { pc = at_thread i p u.pc })
moved_on n u i p e f v =
    subst (Held n u.head u.tail u.watermark) (fun_ext (λ j. sym (slots_same i p u.pc j e f))) v

IsShared-Step :
    (n : ℕ) (s t : Shared) (st : Step n s t)
    → n ≤ 2 ^ 62
    → Fresh n s t st
    → IsShared n s
    → IsShared n t
IsShared-Step n s t (read_watermark u i p) small fresh v =
    moved_on n u i (marked u.watermark) refl (ap slot_of p) v
IsShared-Step n s t (test_space u i a p q) small fresh v =
    moved_on n u i (tested a) refl (ap slot_of p) v
IsShared-Step n s t (no_space u i a p q) small fresh v =
    moved_on n u i outside refl (ap slot_of p) v
IsShared-Step n s t (retry u i a p q) small fresh v = moved_on n u i outside refl (ap slot_of p) v
IsShared-Step n s t (swap_watermark u i a p q) small fresh v =
    subst
      (λ b. Held n u.head u.tail (ring_next b n) (λ j. slot_of (at_thread i (reserved b) u.pc j))) q
      (subst (Held n u.head u.tail (ring_next u.watermark n))
        (fun_ext (λ j. sym (slots_moved i (reserved u.watermark) u.pc j)))
        (Held-swap_watermark n small u.head u.tail u.watermark (slots_of u) v i (ap slot_of p)
          fresh))
IsShared-Step n s t (swap_tail u i a p q) small fresh v =
    subst
      (λ b. Held n u.head (ring_next b n) u.watermark (λ j. slot_of (at_thread i outside u.pc j))) q
      (subst (Held n u.head (ring_next u.tail n) u.watermark)
        (fun_ext (λ j. sym (slots_moved i outside u.pc j)))
        (Held-swap_tail n small u.head u.tail u.watermark (slots_of u) v i
          (ap slot_of p ∙ ap (λ b. some b) (sym q))))
IsShared-Step n s t (free_head u ne) small fresh v =
    Held-free_head n small u.head u.tail u.watermark (slots_of u) v ne

-- a queue that is empty at `h`, with no thread in it
abbrev pub idle_at : ℕ → Shared
idle_at h = record { head = h; tail = h; watermark = h; pc = λ i. outside }

idle_at-IsShared : (n h : ℕ) → n ≤ 2 ^ 62 → h < n → IsShared n (idle_at h)
idle_at-IsShared n h small lt = record {
  head_in = lt;
  tail_in = lt;
  mark_in = lt;
  room = omega (arith, ring_count-zero h h n lt lt small refl);
  slot_in = λ i a e. absurd (none-some a e);
  one_holder = λ i j a e f. absurd (none-some a e);
  holder = λ a ha lt'. absurd (omega (arith, lt', ring_count-zero h h n lt lt small refl));
}

run_keeps : (n : ℕ) (s t : Shared) → n ≤ 2 ^ 62 → IsShared n s → FreshRun n s t → IsShared n t
run_keeps n s t small v (stay u) = v
run_keeps n s t small v (move u u' t' st fresh rest) =
    run_keeps n u' t small (IsShared-Step n u u' st small fresh v) rest

-- In every state that a run of threads reaches from an empty queue, in whatever order their steps
-- come, while there is space at each exchange of the watermark: the queue and the reserved slots
-- leave a slot free, no two threads hold one slot, each slot between tail and watermark has a
-- holder, and no other slot has.
pub run-IsShared :
    (n h : ℕ) (t : Shared) → n ≤ 2 ^ 62 → h < n → FreshRun n (idle_at h) t → IsShared n t
run-IsShared n h t small lt run =
    run_keeps n (idle_at h) t small (idle_at-IsShared n h small lt) run

first_holder :
    (n : ℕ) (t : Shared)
    → n ≤ 2 ^ 62
    → IsShared n t
    → t.tail ≢ t.watermark
    → (i : ℕ) × (slots_of t i ≡ some t.tail)
first_holder n t small v ne = v.holder t.tail v.tail_in (
    omega (
      arith,
      ring_count-zero t.tail t.tail n v.tail_in v.tail_in small refl,
      ring_count-pos t.tail t.watermark n v.tail_in v.mark_in small ne,
    ))

holding : (p : Pc) (a : ℕ) → slot_of p ≡ some a → p ≡ reserved a
holding outside a e = absurd (none-some a e)
holding (marked b) a e = absurd (none-some a e)
holding (tested b) a e = absurd (none-some a e)
holding (reserved b) a e = ap reserved (some-inj b a e)

-- In such a state the wait for the tail never blocks all: while some slot is reserved, there is a
-- thread whose exchange of the tail succeeds, and the tail moves on by it.
pub run_progress :
    (n h : ℕ) (t : Shared)
    → n ≤ 2 ^ 62
    → h < n
    → FreshRun n (idle_at h) t
    → t.tail ≢ t.watermark
    → (u : Shared) × Step n t u × (u.tail ≡ ring_next t.tail n)
run_progress n h t small lt run ne =
    let r = first_holder n t small (run-IsShared n h t small lt run) ne in
    (
      record t { tail = ring_next t.tail n; pc = at_thread r.0 outside t.pc },
      swap_tail t r.0 t.tail (holding (t.pc r.0) t.tail r.1) refl,
      refl,
    )

-- The test of the space is not repeated with the exchange. In such a state that is full, with a
-- thread that has tested the space when the watermark last stood where it does, that thread's
-- exchange succeeds, and the words then read as those of an empty queue.
pub stale_swap-empties :
    (n h i : ℕ) (t : Shared)
    → n ≤ 2 ^ 62
    → h < n
    → FreshRun n (idle_at h) t
    → ring_space t.head t.watermark n ≡ 0
    → t.pc i ≡ tested t.watermark
    → (u : Shared) × Step n t u
      × (ring_count u.head u.watermark n ≡ 0)
      × (ring_count t.head t.watermark n + 1 ≡ n)
stale_swap-empties n h i t small lt run full stale = (
  record t { watermark = ring_next t.watermark n; pc = at_thread i (reserved t.watermark) t.pc },
  swap_watermark t i t.watermark stale refl,
  ring_count-zero t.head (ring_next t.watermark n) n v.head_in
      (ring_next-lt t.watermark n v.mark_in) small
      (sym (ring_next-full n small t.head t.watermark v.head_in v.mark_in whole)),
  whole,
)
  where
    v : IsShared n t
    v = run-IsShared n h t small lt run

    whole : ring_count t.head t.watermark n + 1 ≡ n
    whole = omega (arith, full, ring_space-add-count t.head t.watermark n v.head_in v.mark_in small)
