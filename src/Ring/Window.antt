-- ===== src/Ring/Window.antt =====
-- The indices that the loop `for (m = from; m != to; m = (m + 1) % n)` visits.
use native.Mathlib.Decide.{ℕ_discrete}
use ccnvme.Prelude.{
  ℕ, zero, suc, ◌+◌, ◌^◌, ◌≤◌, ◌<◌, ◌≡◌, ◌≢◌, arith, List, [], ◌∷◌, ◌++◌, length, All, ap, refl,
  ◌∙◌,
}
use ccnvme.Ring.{ring_count, ring_next}
use ccnvme.Ring.Laws.{
  ring_count-zero, ring_count-pos, ring_count-step, ring_count-next, ring_space-add-count,
  ring_next-lt,
}

-- `k` indices from `i` on
unfoldable pub indices : ℕ → ℕ → ℕ → List ℕ
indices n i zero = []
indices n i (suc k) = i ∷ indices n (ring_next i n) k

-- those of the loop
unfoldable pub visited : ℕ → ℕ → ℕ → List ℕ
visited n from to = indices n from (ring_count from to n)

length-indices : (n i k : ℕ) → length (indices n i k) ≡ k
unfolding indices
length-indices n i zero = refl
length-indices n i (suc k) = ap suc (length-indices n (ring_next i n) k)

pub length-visited : (n from to : ℕ) → length (visited n from to) ≡ ring_count from to n
unfolding visited
length-visited n from to = length-indices n from (ring_count from to n)

indices-lt : (n i k : ℕ) → i < n → All (λ j. j < n) (indices n i k)
unfolding indices
indices-lt n i zero h = tt
indices-lt n i (suc k) h = (h, indices-lt n (ring_next i n) k (ring_next-lt i n h))

pub visited-lt : (n from to : ℕ) → from < n → All (λ j. j < n) (visited n from to)
unfolding visited
visited-lt n from to h = indices-lt n from (ring_count from to n) h

module _ (n from to : ℕ) (h : from < n) (t : to < n) (small : n ≤ 2 ^ 62) where
  pub visited-nil : from ≡ to → visited n from to ≡ []
  unfolding visited indices
  visited-nil e = rw (ring_count-zero from to n h t small e)

  pub visited-cons : from ≢ to → visited n from to ≡ from ∷ visited n (ring_next from n) to
  unfolding visited indices
  visited-cons e = ap (indices n from) shape
    where
      shape : ring_count from to n ≡ suc (ring_count (ring_next from n) to n)
      shape = omega (arith, ring_count-step from to n h t small e)

indices-snoc :
    (n : ℕ)
    → n ≤ 2 ^ 62
    → (k from to : ℕ) → from < n
    → to < n
    → ring_count from to n ≡ k
    → indices n from (suc k) ≡ indices n from k ++ (to ∷ [])
unfolding indices
indices-snoc n small zero from to h t e = elim (ℕ_discrete from to) [
  | yes p ↦ ap (λ x. x ∷ []) p
  | no p ↦ absurd (omega (arith, ring_count-pos from to n h t small p))
]
indices-snoc n small (suc k) from to h t e = elim (ℕ_discrete from to) [
  | yes p ↦ absurd (omega (arith, ring_count-zero from to n h t small p))
  | no p ↦
      ap (λ l. from ∷ l)
        (indices-snoc n small k (ring_next from n) to (ring_next-lt from n h) t
          (omega (arith, ring_count-step from to n h t small p)))
]

-- The loop that goes one further visits one index more.
pub visited-snoc :
    (n from to : ℕ)
    → n ≤ 2 ^ 62
    → from < n
    → to < n
    → ring_count from to n + 2 ≤ n
    → visited n from (ring_next to n) ≡ visited n from to ++ (to ∷ [])
unfolding visited
visited-snoc n from to small h t room =
    ap (indices n from) shape ∙ indices-snoc n small (ring_count from to n) from to h t refl
  where
    shape : ring_count from (ring_next to n) n ≡ suc (ring_count from to n)
    shape = omega (
      arith,
      ring_count-next from to n h t small (omega (arith, ring_space-add-count from to n h t small)),
    )

visited-ne_below :
    (n : ℕ)
    → n ≤ 2 ^ 62
    → (k from to : ℕ) → from < n
    → to < n
    → ring_count from to n ≤ k
    → All (λ j. j ≢ to) (visited n from to)
visited-ne_below n small zero from to h t e = elim (ℕ_discrete from to) [
  | yes p ↦ rw (visited-nil n from to h t small p) tt
  | no p ↦ absurd (omega (arith, ring_count-pos from to n h t small p))
]
visited-ne_below n small (suc k) from to h t e = elim (ℕ_discrete from to) [
  | yes p ↦ rw (visited-nil n from to h t small p) tt
  | no p ↦ rw (visited-cons n from to h t small p) (
    p,
    visited-ne_below n small k (ring_next from n) to (ring_next-lt from n h) t
        (omega (arith, ring_count-step from to n h t small p)),
  )
]

-- The loop does not visit the index at which it ends.
pub visited-ne :
    (n from to : ℕ) → n ≤ 2 ^ 62 → from < n → to < n → All (λ j. j ≢ to) (visited n from to)
visited-ne n from to small h t =
    visited-ne_below n small (ring_count from to n) from to h t (omega arith)
