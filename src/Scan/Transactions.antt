-- ===== src/Scan/Transactions.antt =====
-- What the walk hands over, read off the queue's contents: the entries strictly between a begin
-- mark and the end mark that follows it, with the end mark's transaction.
use native.Mathlib.Decide.{ℕ_discrete}
use ccnvme.Prelude.{
  ℕ, zero, suc, ◌+◌, ◌^◌, ◌≤◌, ◌<◌, ◌≡◌, ◌≢◌, arith, List, [], ◌∷◌, ◌++◌, map, ap, ap₂, refl, ◌∙◌,
  sym, Option, none, some, if◌then◌else◌, Bool-cases, inl, inr,
}
use ccnvme.Ring.{ring_count, ring_next}
use ccnvme.Ring.Laws.{
  ring_count-zero, ring_count-pos, ring_count-step, ring_count-lt, ring_next-lt, ring_count-next,
  ring_space-add-count, ring_next_lem,
}
use ccnvme.Ring.Window.{visited, visited-nil, visited-cons, visited-snoc}
use ccnvme.Ometa.{Ometa, has_bit, horae_tx_begin, horae_tx_end}
use ccnvme.Scan.{Phase, find_begin, find_end, scan}
use ccnvme.Scan.Run.{after_visit, chosen, last_phase, selected, commit_all, scan_lem}

-- The open transaction, if any: the indices after its begin mark.
abbrev pub Pending : Type 0
Pending = Option (List ℕ)

module _ (outer : ℕ → Ometa) where
  unfoldable pub settle : Pending → ℕ → Pending
  settle none j = if has_bit (outer j).tag horae_tx_begin then some [] else none
  settle (some acc) j = if has_bit (outer j).tag horae_tx_end then none else some (acc ++ (j ∷ []))

  unfoldable pub yield : Pending → ℕ → List (ℕ × ℕ)
  yield none j = []
  yield (some acc) j =
      if has_bit (outer j).tag horae_tx_end then map (λ k. (k, (outer j).txid)) acc else []

  unfoldable pub committed : Pending → List ℕ → List (ℕ × ℕ)
  committed p [] = []
  committed p (j ∷ js) = yield p j ++ committed (settle p j) js

module _ (nr : ℕ) (small : nr ≤ 2 ^ 62) (outer : ℕ → Ometa) (flushed : ℕ) (hf : flushed < nr) where
  -- The walk at `m` has its begin index at the place that the open transaction has.
  Tracks : ℕ → Phase → Pending → Type 0
  Tracks m find_begin none = Unit {0}
  Tracks m (find_end b t) (some acc) =
      (b < nr)
      × (1 ≤ ring_count b m nr)
      × (ring_count b m nr + ring_count m flushed nr < nr)
      × (acc ≡ visited nr (ring_next b nr) m)
  Tracks m find_begin (some acc) = ⊥
  Tracks m (find_end b t) none = ⊥

  open_at :
      (m : ℕ)
      → m < nr
      → m ≢ flushed
      → (1 ≤ ring_count m (ring_next m nr) nr)
        × (ring_count m (ring_next m nr) nr + ring_count (ring_next m nr) flushed nr < nr)
        × ([] ≡ visited nr (ring_next m nr) (ring_next m nr))
  open_at m hm ne = (
    omega (arith, one),
    omega (arith, one, step, below),
    sym (visited-nil nr n n hn hn small refl),
  )
    where
      n : ℕ
      n = ring_next m nr

      hn : n < nr
      hn = ring_next-lt m nr hm

      step : ring_count m flushed nr ≡ ring_count n flushed nr + 1
      step = ring_count-step m flushed nr hm hf small ne

      below : ring_count m flushed nr < nr
      below = ring_count-lt m flushed nr hm hf small

      one : ring_count m n nr ≡ 1
      one = omega (
        arith,
        ring_count-step m n nr hm hn small (omega (arith, ring_next_lem m nr hm)),
        ring_count-zero n n nr hn hn small refl,
      )

  extend_at :
      (m b : ℕ) (acc : List ℕ)
      → m < nr
      → m ≢ flushed
      → (b < nr)
      → (1 ≤ ring_count b m nr)
      → (ring_count b m nr + ring_count m flushed nr < nr)
      → (acc ≡ visited nr (ring_next b nr) m)
      → (1 ≤ ring_count b (ring_next m nr) nr)
        × (ring_count b (ring_next m nr) nr + ring_count (ring_next m nr) flushed nr < nr)
        × (acc ++ (m ∷ []) ≡ visited nr (ring_next b nr) (ring_next m nr))
  extend_at m b acc hm ne hb pos room e = (
    omega (arith, grown),
    omega (arith, grown, step),
    ap (λ l. l ++ (m ∷ [])) e
        ∙ sym (
            visited-snoc nr (ring_next b nr) m small (ring_next-lt b nr hb) hm
              (omega (arith, left, step, away))),
  )
    where
      step : ring_count m flushed nr ≡ ring_count (ring_next m nr) flushed nr + 1
      step = ring_count-step m flushed nr hm hf small ne

      away : b ≢ m
      away = λ q. omega (arith, ring_count-zero b m nr hb hm small q)

      left : ring_count b m nr ≡ ring_count (ring_next b nr) m nr + 1
      left = ring_count-step b m nr hb hm small away

      grown : ring_count b (ring_next m nr) nr ≡ ring_count b m nr + 1
      grown =
          ring_count-next b m nr hb hm small
            (omega (arith, ring_space-add-count b m nr hb hm small, step))

  yield-Tracks :
      (m : ℕ) (p : Phase) (q : Pending) → Tracks m p q → chosen nr outer m p ≡ yield outer q m
  unfolding Tracks yield
  yield-Tracks m find_begin none w = refl
  yield-Tracks m (find_end b t) (some acc) w = rw (w.3)
  yield-Tracks m find_begin (some acc) w = absurd w
  yield-Tracks m (find_end b t) none w = absurd w

  settle-Tracks :
      (m : ℕ) (p : Phase) (q : Pending)
      → m < nr
      → m ≢ flushed
      → Tracks m p q
      → Tracks (ring_next m nr) (after_visit nr outer m p) (settle outer q m)
  unfolding Tracks settle
  settle-Tracks m find_begin none hm ne w =
      elim (Bool-cases (has_bit (outer m).tag horae_tx_begin)) [
        | inl e ↦ rw e (let o = open_at m hm ne in (hm, o.0, o.1, o.2))
        | inr e ↦ rw e tt
      ]
  settle-Tracks m (find_end b t) (some acc) hm ne w =
      elim (Bool-cases (has_bit (outer m).tag horae_tx_end)) [
        | inl e ↦ rw e tt
        | inr e ↦ rw e (let o = extend_at m b acc hm ne w.0 w.1 w.2 w.3 in (w.0, o.0, o.1, o.2))
      ]
  settle-Tracks m find_begin (some acc) hm ne w = absurd w
  settle-Tracks m (find_end b t) none hm ne w = absurd w

  selected-Tracks :
      (k m : ℕ) (p : Phase) (q : Pending)
      → m < nr
      → ring_count m flushed nr ≤ k
      → Tracks m p q
      → selected nr outer (visited nr m flushed) p ≡ committed outer q (visited nr m flushed)
  unfolding selected committed
  selected-Tracks zero m p q hm e w = elim (ℕ_discrete m flushed) [
    | yes d ↦ rw (visited-nil nr m flushed hm hf small d)
    | no d ↦ absurd (omega (arith, ring_count-pos m flushed nr hm hf small d))
  ]
  selected-Tracks (suc k) m p q hm e w = elim (ℕ_discrete m flushed) [
    | yes d ↦ rw (visited-nil nr m flushed hm hf small d)
    | no d ↦ rw (visited-cons nr m flushed hm hf small d) (
        ap₂ ◌++◌ (yield-Tracks m p q w) (
          selected-Tracks k (ring_next m nr) (after_visit nr outer m p) (settle outer q m)
            (ring_next-lt m nr hm) (omega (arith, ring_count-step m flushed nr hm hf small d))
            (settle-Tracks m p q hm d w)))
  ]

module _ {ℓ} {S : Type ℓ} (nr : ℕ) (small : nr ≤ 2 ^ 62) (outer inner : ℕ → Ometa)
    (act : Ometa → ℕ → S → S) where
  -- Started outside a transaction, with the ring's size as fuel, the walk from `head` to `flushed`
  -- ends and commits exactly what `committed` reads off the entries between the two.
  pub scan_refines :
      (head flushed : ℕ) (s : S)
      → head < nr
      → flushed < nr
      → scan nr outer inner act nr head flushed find_begin s
        ≡ some (
          last_phase nr outer (visited nr head flushed) find_begin,
          commit_all inner act (committed outer none (visited nr head flushed)) s,
        )
  unfolding Tracks
  scan_refines head flushed s hh hf =
      scan_lem nr outer inner act small nr head flushed find_begin s hh hf tt
        (omega (arith, ring_count-lt head flushed nr hh hf small))
      ∙ ap
          (λ l.
            some
              (last_phase nr outer (visited nr head flushed) find_begin, commit_all inner act l s))
          (selected-Tracks nr small outer flushed hf nr head find_begin none hh
            (omega (arith, ring_count-lt head flushed nr hh hf small)) tt)
