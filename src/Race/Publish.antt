-- ===== src/Race/Publish.antt =====
-- The exchange on the tail: the thread that holds the first reserved slot gives it to the queue.
use native.Mathlib.Decide.{dec_lt}
use ccnvme.Prelude.{ℕ, ◌+◌, ◌^◌, ◌≤◌, ◌<◌, ◌≡◌, ◌≢◌, arith, Option, none, some, refl, ap, sym, ◌∙◌}
use ccnvme.Ring.{ring_count, ring_next}
use ccnvme.Ring.Laws.{ring_next-lt, ring_count-step, ring_count-zero, ring_count-lt}
use ccnvme.Race.{at_thread}
use ccnvme.Race.Counts.{ring_count-further}
use ccnvme.Race.Slots.{Held, at_self, at_other, none-some, some-inj}

-- From behind a slot it is the whole ring but one to the slot.
full_turn : (n : ℕ) → n ≤ 2 ^ 62 → (a : ℕ) → a < n → n ≤ ring_count (ring_next a n) a n + 1
full_turn n small a h = elim (dec_lt (ring_count (ring_next a n) a n + 1) n) [
  | yes p ↦ absurd (
      omega (
        arith,
        ring_count-further n small (ring_next a n) a (ring_next-lt a n h) h p,
        ring_count-zero (ring_next a n) (ring_next a n) n (ring_next-lt a n h) (ring_next-lt a n h)
            small refl,
      ))
  | no p ↦ omega arith
]

module _ (n : ℕ) (small : n ≤ 2 ^ 62) (head tail watermark : ℕ) (slots : ℕ → Option ℕ)
    (v : Held n head tail watermark slots) (i : ℕ) (first : slots i ≡ some tail) where
  some_reserved : 1 ≤ ring_count tail watermark n
  some_reserved = omega (arith, (v.slot_in i tail first).1)

  shorter : ring_count tail watermark n ≡ ring_count (ring_next tail n) watermark n + 1
  shorter = ring_count-step tail watermark n v.tail_in v.mark_in small differ
    where
      differ : tail ≢ watermark
      differ e = absurd (
          omega
            (arith, some_reserved, ring_count-zero tail watermark n v.tail_in v.mark_in small e))

  longer : ring_count head (ring_next tail n) n ≡ ring_count head tail n + 1
  longer =
      ring_count-further n small head tail v.head_in v.tail_in
        (omega (arith, v.room, some_reserved))

  -- another thread's slot is another
  others : (j a : ℕ) → i ≢ j → slots j ≡ some a → tail ≢ a
  others j a ne e same = ne (v.one_holder i j a (first ∙ ap (λ t. some t) same) e)

  nearer : (a : ℕ) → a < n → tail ≢ a → ring_count tail a n ≡ ring_count (ring_next tail n) a n + 1
  nearer a ha ne = ring_count-step tail a n v.tail_in ha small ne

  not_tail :
      (a : ℕ)
      → a < n
      → ring_count (ring_next tail n) a n < ring_count (ring_next tail n) watermark n
      → tail ≢ a
  not_tail a ha h same = absurd (
      omega (
        arith,
        h,
        full_turn n small tail v.tail_in,
        ap (λ t. ring_count (ring_next tail n) t n) same,
        ring_count-lt (ring_next tail n) watermark n (ring_next-lt tail n v.tail_in) v.mark_in
            small,
      ))

  mine : (j a : ℕ) → i ≡ j → at_thread i none slots j ≡ some a → ⊥
  mine j a q e = none-some a (sym (at_self i none slots) ∙ ap (at_thread i none slots) q ∙ e)

  theirs : (j a : ℕ) → i ≢ j → at_thread i none slots j ≡ some a → slots j ≡ some a
  theirs j a q e = sym (at_other i j none slots q) ∙ e

  apart : (j a : ℕ) → at_thread i none slots j ≡ some a → i ≢ j
  apart j a e q = mine j a q e

  pub Held-swap_tail : Held n head (ring_next tail n) watermark (at_thread i none slots)
  Held-swap_tail = record {
    head_in = v.head_in;
    tail_in = ring_next-lt tail n v.tail_in;
    mark_in = v.mark_in;
    room = omega (arith, v.room, longer, shorter);
    slot_in = λ j a e.
        let old = v.slot_in j a (theirs j a (apart j a e) e) in
        (
          old.0,
          omega (
            arith,
            old.1,
            shorter,
            nearer a old.0 (others j a (apart j a e) (theirs j a (apart j a e) e)),
          ),
        );
    one_holder =
        λ j k a e f. v.one_holder j k a (theirs j a (apart j a e) e) (theirs k a (apart k a f) f);
    holder = λ a ha h.
        let r = v.holder a ha (omega (arith, h, shorter, nearer a ha (not_tail a ha h))) in
        (
          r.0,
          at_other i r.0 none slots
                (λ q. not_tail a ha h (some-inj tail a (sym first ∙ ap slots q ∙ r.1)))
              ∙ r.1,
        );
  }
