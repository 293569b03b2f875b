-- ===== src/Scan/Run.antt =====
-- The walk ends, and does in order what a list of indices says.
use native.Mathlib.Decide.{ℕ_discrete}
use ccnvme.Prelude.{
  ℕ, zero, suc, ◌^◌, ◌≤◌, ◌<◌, ◌≡◌, ◌≢◌, arith, List, [], ◌∷◌, ◌++◌, map, refl, ◌∙◌, true, false,
  some, if◌then◌else◌, ==_iff, ◌==◌, ==_ne, Bool-cases, inl, inr,
}
use ccnvme.Ring.{ring_count, ring_next}
use ccnvme.Ring.Laws.{ring_count-pos, ring_count-step, ring_count-lt, ring_next-lt}
use ccnvme.Ring.Window.{visited, visited-nil, visited-cons}
use ccnvme.Ometa.{Ometa, has_bit, horae_tx_begin, horae_tx_end}
use ccnvme.Scan.{Phase, find_begin, find_end, commit_at, commit_between, visit, scan}

-- a begin index is one of the ring
abbrev pub PhaseWithin : ℕ → Phase → Type 0
PhaseWithin nr find_begin = Unit {0}
PhaseWithin nr (find_end b t) = b < nr

-- The index and the transaction of each entry that the walk hands over, with the phase at the end.
abbrev pub after_visit : ℕ → (ℕ → Ometa) → ℕ → Phase → Phase
after_visit nr outer j find_begin =
    if has_bit (outer j).tag horae_tx_begin then find_end j (outer j).txid else find_begin
after_visit nr outer j (find_end b t) =
    if has_bit (outer j).tag horae_tx_end then find_begin else find_end b t

abbrev pub chosen : ℕ → (ℕ → Ometa) → ℕ → Phase → List (ℕ × ℕ)
chosen nr outer j find_begin = []
chosen nr outer j (find_end b t) =
    if has_bit (outer j).tag horae_tx_end
    then map (λ k. (k, (outer j).txid)) (visited nr (ring_next b nr) j)
    else []

unfoldable pub last_phase : ℕ → (ℕ → Ometa) → List ℕ → Phase → Phase
last_phase nr outer [] p = p
last_phase nr outer (j ∷ js) p = last_phase nr outer js (after_visit nr outer j p)

unfoldable pub selected : ℕ → (ℕ → Ometa) → List ℕ → Phase → List (ℕ × ℕ)
selected nr outer [] p = []
selected nr outer (j ∷ js) p =
    chosen nr outer j p ++ selected nr outer js (after_visit nr outer j p)

pub after_visit-PhaseWithin :
    (nr : ℕ) (outer : ℕ → Ometa) (j : ℕ) (p : Phase)
    → j < nr
    → PhaseWithin nr p
    → PhaseWithin nr (after_visit nr outer j p)
after_visit-PhaseWithin nr outer j find_begin h w =
    elim (has_bit (outer j).tag horae_tx_begin)
      as (λ b. PhaseWithin nr (if b then find_end j (outer j).txid else find_begin)) [
        | true ↦ h
        | false ↦ tt
      ]
after_visit-PhaseWithin nr outer j (find_end b t) h w =
    elim (has_bit (outer j).tag horae_tx_end)
      as (λ c. PhaseWithin nr (if c then find_begin else find_end b t)) [ true ↦ tt | false ↦ w ]

module _ {ℓ} {S : Type ℓ} (inner : ℕ → Ometa) (act : Ometa → ℕ → S → S) where
  -- the commits of a list, in order
  unfoldable pub commit_all : List (ℕ × ℕ) → S → S
  commit_all [] s = s
  commit_all ((k, txid) ∷ l) s = commit_all l (commit_at inner act k txid s)

  -- What every commit keeps, a list of them keeps.
  pub commit_all-keeps {κ} :
      (P : S → Type κ)
      → ((k txid : ℕ) (s : S) → P s → P (act (inner k) txid s))
      → (l : List (ℕ × ℕ)) (s : S) → P s
      → P (commit_all l s)
  unfolding commit_all commit_at
  commit_all-keeps P keep [] s h = h
  commit_all-keeps P keep ((k, t) ∷ l) s h = elim (Bool-cases ((inner k).plba == 0)) [
    | inl e ↦ rw e (commit_all-keeps P keep l s h)
    | inr e ↦ rw e (commit_all-keeps P keep l _ (keep k t s h))
  ]

  pub commit_all-append :
      (l r : List (ℕ × ℕ)) (s : S) → commit_all (l ++ r) s ≡ commit_all r (commit_all l s)
  unfolding commit_all
  commit_all-append [] r s = refl
  commit_all-append ((k, t) ∷ l) r s = commit_all-append l r _

module _ {ℓ} {S : Type ℓ} (nr : ℕ) (inner : ℕ → Ometa) (act : Ometa → ℕ → S → S)
    (small : nr ≤ 2 ^ 62) where
  pub commit_between_lem :
      (fuel k j txid : ℕ) (s : S)
      → k < nr
      → j < nr
      → ring_count k j nr ≤ fuel
      → commit_between nr inner act fuel k j txid s
        ≡ some (commit_all inner act (map (λ i. (i, txid)) (visited nr k j)) s)
  unfolding commit_between commit_all
  commit_between_lem zero k j txid s hk hj enough = elim (ℕ_discrete k j) [
    | yes e ↦ rw ((==_iff k j).1 e, visited-nil nr k j hk hj small e)
    | no e ↦ absurd (omega (arith, ring_count-pos k j nr hk hj small e))
  ]
  commit_between_lem (suc fuel) k j txid s hk hj enough = elim (ℕ_discrete k j) [
    | yes e ↦ rw ((==_iff k j).1 e, visited-nil nr k j hk hj small e)
    | no e ↦
        rw (==_ne k j e, visited-cons nr k j hk hj small e)
          (commit_between_lem fuel (ring_next k nr) j txid (commit_at inner act k txid s)
            (ring_next-lt k nr hk) hj (omega (arith, ring_count-step k j nr hk hj small e)))
  ]

module _ {ℓ} {S : Type ℓ} (nr : ℕ) (outer inner : ℕ → Ometa) (act : Ometa → ℕ → S → S)
    (small : nr ≤ 2 ^ 62) where
  visit_lem :
      (j : ℕ) (p : Phase) (s : S)
      → j < nr
      → PhaseWithin nr p
      → visit nr outer inner act j p s
        ≡ some (after_visit nr outer j p, commit_all inner act (chosen nr outer j p) s)
  unfolding visit commit_all
  visit_lem j find_begin s h w = elim (Bool-cases (has_bit (outer j).tag horae_tx_begin)) [
    | inl e ↦ rw e
    | inr e ↦ rw e
  ]
  visit_lem j (find_end b t) s h w = elim (Bool-cases (has_bit (outer j).tag horae_tx_end)) [
    | inl e ↦ rw (e, committed)
    | inr e ↦ rw e
  ]
    where
      committed :
          commit_between nr inner act nr (ring_next b nr) j (outer j).txid s
          ≡ some (
              commit_all inner act
                (map (λ i. (i, (outer j).txid)) (visited nr (ring_next b nr) j))
                s)
      committed =
          commit_between_lem nr inner act small nr (ring_next b nr) j (outer j).txid s
            (ring_next-lt b nr w) h
            (omega (arith, ring_count-lt (ring_next b nr) j nr (ring_next-lt b nr w) h small))

  scan_step :
      (fuel m flushed : ℕ) (p : Phase) (s : S) (p' : Phase) (s' : S)
      → m ≢ flushed
      → visit nr outer inner act m p s ≡ some (p', s')
      → scan nr outer inner act (suc fuel) m flushed p s
        ≡ scan nr outer inner act fuel (ring_next m nr) flushed p' s'
  unfolding scan
  scan_step fuel m flushed p s p' s' ne v = rw (==_ne m flushed ne, scan) (rw (v, scan))

  -- From any phase and with fuel for the entries that are left, the walk ends with the phase and
  -- the commits that the indices from `m` up to `flushed` determine.
  pub scan_lem :
      (fuel m flushed : ℕ) (p : Phase) (s : S)
      → m < nr
      → flushed < nr
      → PhaseWithin nr p
      → ring_count m flushed nr ≤ fuel
      → scan nr outer inner act fuel m flushed p s
        ≡ some (
          last_phase nr outer (visited nr m flushed) p,
          commit_all inner act (selected nr outer (visited nr m flushed) p) s,
        )
  unfolding scan last_phase selected commit_all
  scan_lem zero m flushed p s hm hf w enough = elim (ℕ_discrete m flushed) [
    | yes e ↦ rw ((==_iff m flushed).1 e, visited-nil nr m flushed hm hf small e)
    | no e ↦ absurd (omega (arith, ring_count-pos m flushed nr hm hf small e))
  ]
  scan_lem (suc fuel) m flushed p s hm hf w enough = elim (ℕ_discrete m flushed) [
    | yes e ↦ rw ((==_iff m flushed).1 e, scan) (rw (visited-nil nr m flushed hm hf small e))
    | no e ↦ rw (visited-cons nr m flushed hm hf small e) (
        rw
          (commit_all-append inner act (chosen nr outer m p)
            (selected nr outer (visited nr (ring_next m nr) flushed) (after_visit nr outer m p)) s)
          (scan_step fuel m flushed p s (after_visit nr outer m p)
              (commit_all inner act (chosen nr outer m p) s) e (visit_lem m p s hm w)
            ∙ scan_lem fuel (ring_next m nr) flushed (after_visit nr outer m p)
                (commit_all inner act (chosen nr outer m p) s) (ring_next-lt m nr hm) hf
                (after_visit-PhaseWithin nr outer m p hm w)
                (omega (arith, ring_count-step m flushed nr hm hf small e))))
  ]
