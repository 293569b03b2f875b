-- ===== src/Race/Counts.antt =====
-- Counting slots forward in a ring.
use native.Mathlib.Decide.{dec_le}
use ccnvme.Prelude.{ℕ, ◌+◌, ◌^◌, ◌≤◌, ◌<◌, ◌≡◌, ◌⊎◌, inl, inr, arith}
use ccnvme.Ring.{ring_count, ring_next}
use ccnvme.Ring.Laws.{
  ring_count_le, ring_count_gt, ring_count-next, ring_space-add-count, ring_next_lem,
}

module _ (n : ℕ) (small : n ≤ 2 ^ 62) where
  pub ring_count-cases :
      (a b : ℕ)
      → a < n
      → b < n
      → ((a ≤ b) × (ring_count a b n + a ≡ b)) ⊎ ((b < a) × (ring_count a b n + a ≡ n + b))
  ring_count-cases a b ha hb = elim (dec_le a b) [
    | yes p ↦ inl (p, omega (arith, ring_count_le a b n ha hb small p))
    | no p ↦ inr (omega arith, omega (arith, ring_count_gt a b n ha hb small (omega arith)))
  ]

  -- One slot more, while not all are counted.
  pub ring_count-further :
      (a b : ℕ)
      → a < n
      → b < n
      → ring_count a b n + 1 < n
      → ring_count a (ring_next b n) n ≡ ring_count a b n + 1
  ring_count-further a b ha hb h =
      ring_count-next a b n ha hb small (omega (arith, ring_space-add-count a b n ha hb small))

  pub ring_count-add :
      (a b c : ℕ)
      → a < n
      → b < n
      → c < n
      → ring_count a b n + ring_count b c n < n
      → ring_count a c n ≡ ring_count a b n + ring_count b c n
  ring_count-add a b c ha hb hc h = elim (ring_count-cases a b ha hb) [
    | inl p ↦ elim (ring_count-cases b c hb hc) [
      | inl q ↦ elim (ring_count-cases a c ha hc) [ inl r ↦ omega arith | inr r ↦ omega arith ]
      | inr q ↦ elim (ring_count-cases a c ha hc) [ inl r ↦ omega arith | inr r ↦ omega arith ]
    ]
    | inr p ↦ elim (ring_count-cases b c hb hc) [
      | inl q ↦ elim (ring_count-cases a c ha hc) [ inl r ↦ omega arith | inr r ↦ omega arith ]
      | inr q ↦ elim (ring_count-cases a c ha hc) [ inl r ↦ omega arith | inr r ↦ omega arith ]
    ]
  ]

  pub ring_count-inj :
      (a b c : ℕ) → a < n → b < n → c < n → ring_count a b n ≡ ring_count a c n → b ≡ c
  ring_count-inj a b c ha hb hc h = elim (ring_count-cases a b ha hb) [
    | inl p ↦ elim (ring_count-cases a c ha hc) [ inl r ↦ omega arith | inr r ↦ omega arith ]
    | inr p ↦ elim (ring_count-cases a c ha hc) [ inl r ↦ omega arith | inr r ↦ omega arith ]
  ]

  -- Behind a full queue comes its head.
  pub ring_next-full : (a b : ℕ) → a < n → b < n → ring_count a b n + 1 ≡ n → ring_next b n ≡ a
  ring_next-full a b ha hb h = elim (ring_count-cases a b ha hb) [
    | inl p ↦ elim (ring_next_lem b n hb) [ inl q ↦ omega arith | inr q ↦ omega arith ]
    | inr p ↦ elim (ring_next_lem b n hb) [ inl q ↦ omega arith | inr q ↦ omega arith ]
  ]
