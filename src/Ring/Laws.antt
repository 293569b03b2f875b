-- ===== src/Ring/Laws.antt =====
-- What the ring macros of ccnvme/horae.h compute for indices inside the ring.
use native.Mathlib.Nat.{mod-eq_of_lt, mod-eq-sub-mod}
use native.Mathlib.Decide.{dec_le, dec_lt}
use ccnvme.Prelude.{ℕ, ◌+◌, ◌-◌, ◌%◌, ◌^◌, ◌≤◌, ◌<◌, ◌≡◌, ◌≢◌, arith, ◌⊎◌, inl, inr, ◌∙◌}
use ccnvme.Ring.{u64, sub_u64, ring_space, ring_count, ring_next}

pub mod_below : (x n : ℕ) → x < n → x % n ≡ x
mod_below x n h = mod-eq_of_lt h

pub mod_once : (x n : ℕ) → n ≤ x → x < n + n → x % n ≡ x - n
mod_once x n h k =
    omega (arith, mod-eq-sub-mod {n = x} {m = n} h, mod-eq_of_lt {n = x - n} {m = n} (omega arith))

-- One step forward in a ring, by the two cases of the wrap.
pub ring_next_lem :
    (i n : ℕ)
    → i < n
    → ((ring_next i n ≡ i + 1) × (i + 1 < n)) ⊎ ((ring_next i n ≡ 0) × (i + 1 ≡ n))
ring_next_lem i n h = elim (dec_lt (i + 1) n) [
  | yes p ↦ inl (mod_below (i + 1) n p, p)
  | no p ↦ inr (omega (arith, mod_once (i + 1) n (omega arith) (omega arith)), omega arith)
]

pub ring_next-lt : (i n : ℕ) → i < n → ring_next i n < n
ring_next-lt i n h = omega arith

module _ (head tail size : ℕ) (h : head < size) (t : tail < size) (small : size ≤ 2 ^ 62) where
  ring_count_plain : ring_count head tail size ≡ (size + tail - head) % size
  unfolding ring_count
  ring_count_plain = rw no_wrap
    where
      no_wrap : sub_u64 (u64 (size + tail)) head ≡ size + tail - head
      no_wrap = omega arith

  ring_space_plain : ring_space head tail size ≡ (size + head - tail - 1) % size
  unfolding ring_space
  ring_space_plain = rw no_wrap
    where
      no_wrap : sub_u64 (sub_u64 (u64 (size + head)) tail) 1 ≡ size + head - tail - 1
      no_wrap = omega arith

  pub ring_count_le : head ≤ tail → ring_count head tail size ≡ tail - head
  ring_count_le p =
      ring_count_plain
      ∙ omega (arith, mod_once (size + tail - head) size (omega arith) (omega arith))

  pub ring_count_gt : tail < head → ring_count head tail size ≡ size + tail - head
  ring_count_gt p = ring_count_plain ∙ mod_below (size + tail - head) size (omega arith)

  pub ring_space_le : head ≤ tail → ring_space head tail size ≡ size + head - tail - 1
  ring_space_le p = ring_space_plain ∙ mod_below (size + head - tail - 1) size (omega arith)

  pub ring_space_gt : tail < head → ring_space head tail size ≡ head - tail - 1
  ring_space_gt p =
      ring_space_plain
      ∙ omega (arith, mod_once (size + head - tail - 1) size (omega arith) (omega arith))

  -- Space and count make up the ring but for one slot, which stays empty.
  pub ring_space-add-count : ring_space head tail size + ring_count head tail size + 1 ≡ size
  ring_space-add-count = elim (dec_le head tail) [
    | yes p ↦ omega (arith, ring_count_le p, ring_space_le p)
    | no p ↦ omega (arith, ring_count_gt (omega arith), ring_space_gt (omega arith))
  ]

  pub ring_count-lt : ring_count head tail size < size
  ring_count-lt = omega (arith, ring_space-add-count)

module _ (head tail size : ℕ) (h : head < size) (t : tail < size) (small : size ≤ 2 ^ 62) where
  -- Reserving the slot at `tail` when there is space lengthens the occupied part by one.
  pub ring_count-next :
      1 ≤ ring_space head tail size
      → ring_count head (ring_next tail size) size ≡ ring_count head tail size + 1
  ring_count-next s = elim (dec_le head tail) [
    | yes p ↦ elim (ring_next_lem tail size t) [
      | inl q ↦ omega (
        arith,
        ring_count_le head tail size h t small p,
        ring_count_le head (ring_next tail size) size h (omega arith) small (omega arith),
      )
      | inr q ↦ elim (dec_lt 0 head) [
        | yes r ↦ omega (
          arith,
          ring_count_le head tail size h t small p,
          ring_count_gt head (ring_next tail size) size h (omega arith) small (omega arith),
        )
        | no r ↦ absurd (omega (arith, ring_space_le head tail size h t small p))
      ]
    ]
    | no p ↦ elim (ring_next_lem tail size t) [
      | inl q ↦ elim (dec_lt (tail + 1) head) [
        | yes r ↦ omega (
          arith,
          ring_count_gt head tail size h t small (omega arith),
          ring_count_gt head (ring_next tail size) size h (omega arith) small (omega arith),
        )
        | no r ↦ absurd (omega (arith, ring_space_gt head tail size h t small (omega arith)))
      ]
      | inr q ↦ absurd (omega arith)
    ]
  ]

module _ (head tail size : ℕ) (h : head < size) (t : tail < size) (small : size ≤ 2 ^ 62) where
  pub ring_count-zero : head ≡ tail → ring_count head tail size ≡ 0
  ring_count-zero e = omega (arith, ring_count_le head tail size h t small (omega arith))

  pub ring_count-pos : head ≢ tail → 1 ≤ ring_count head tail size
  ring_count-pos e = elim (dec_le head tail) [
    | yes p ↦ omega (arith, ring_count_le head tail size h t small p)
    | no p ↦ omega (arith, ring_count_gt head tail size h t small (omega arith))
  ]

  -- A round of a loop from `head` to `tail` brings it one entry nearer.
  pub ring_count-step :
      head ≢ tail → ring_count head tail size ≡ ring_count (ring_next head size) tail size + 1
  ring_count-step e = elim (ring_next_lem head size h) [
    | inl q ↦ elim (dec_le head tail) [
      | yes p ↦ omega (
        arith,
        ring_count_le head tail size h t small p,
        ring_count_le (ring_next head size) tail size (omega arith) t small (omega arith),
      )
      | no p ↦ omega (
        arith,
        ring_count_gt head tail size h t small (omega arith),
        ring_count_gt (ring_next head size) tail size (omega arith) t small (omega arith),
      )
    ]
    | inr q ↦ omega (
      arith,
      ring_count_gt head tail size h t small (omega arith),
      ring_count_le (ring_next head size) tail size (omega arith) t small (omega arith),
    )
  ]
