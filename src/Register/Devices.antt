-- ===== src/Register/Devices.antt =====
-- The list of registered devices, ccnvme/horae.c: registering and unregistering.
use native.Mathlib.Decide.{ℕ_discrete}
use ccnvme.Prelude.{
  ℕ, zero, suc, ◌+◌, ◌≡◌, arith, Bool, false, ◌||◌, List, [], ◌∷◌, refl, ap, ◌∙◌, ◌==◌, ==_iff,
  ==_ne, Bool-cases, inl, inr, if◌then◌else◌,
}
use ccnvme.State.{RegisteredDev}
use ccnvme.Register.{InitParam, has_registered, register_devices, delete_dev}

-- No number stands in the list twice.
abbrev pub Distinct : List RegisteredDev → Type 0
Distinct [] = Unit
Distinct (d ∷ ds) = (has_registered ds d.dev_id ≡ false) × Distinct ds

-- `id` is one of the numbers from index `i` on
unfoldable pub names : InitParam → ℕ → ℕ → ℕ → Bool
names param zero i id = false
names param (suc n) i id = (param.device_ids i == id) || names param n (i + 1) id

or_swap : (a b c : Bool) → (a || (b || c)) ≡ ((b || a) || c)
or_swap a b c = ground arith

-- one round of the registration
abbrev added : InitParam → ℕ → List RegisteredDev → List RegisteredDev
added param i l =
    if has_registered l (param.device_ids i)
    then l
    else record { dev_id = param.device_ids i; sb = param.sbs i } ∷ l

added-Distinct :
    (param : InitParam) (i : ℕ) (l : List RegisteredDev) → Distinct l → Distinct (added param i l)
added-Distinct param i l h = elim (Bool-cases (has_registered l (param.device_ids i))) [
  | inl e ↦ rw e h
  | inr e ↦ rw e (e, h)
]

added-has :
    (param : InitParam) (i : ℕ) (l : List RegisteredDev) (id : ℕ)
    → has_registered (added param i l) id ≡ ((param.device_ids i == id) || has_registered l id)
unfolding has_registered
added-has param i l id = elim (Bool-cases (has_registered l (param.device_ids i))) [
  | inl e ↦ rw e (ground arith)
  | inr e ↦ rw e (ground arith)
]

-- Registering the devices of a call, from index `i` on: from then on a number is registered exactly
-- when it was before or is one of the call's; a list without repetitions stays one.
pub register_devices-names :
    (param : InitParam) (n i : ℕ) (l : List RegisteredDev)
    → Distinct l
    → ((id : ℕ)
        → has_registered (register_devices param n i l) id
          ≡ (names param n i id || has_registered l id))
      × Distinct (register_devices param n i l)
unfolding register_devices names
register_devices-names param zero i l h = ((λ id. refl), h)
register_devices-names param (suc n) i l h =
    let rest =
      register_devices-names param n (i + 1) (added param i l) (added-Distinct param i l h) in
    (
      (λ id.
          rest.0 id
          ∙ ap (λ b. names param n (i + 1) id || b) (added-has param i l id)
          ∙ or_swap (names param n (i + 1) id) (param.device_ids i == id) (has_registered l id)),
      rest.1,
    )

-- Unregistering one device of a list without repetitions: its number is registered no more, every
-- other is as before, and the list stays one without repetitions.
pub delete_dev-forgets :
    (l : List RegisteredDev) (gone : ℕ)
    → Distinct l
    → ((id : ℕ)
        → has_registered (delete_dev l gone) id
          ≡ (if gone == id then false else has_registered l id))
      × Distinct (delete_dev l gone)
unfolding delete_dev has_registered
delete_dev-forgets [] gone h = ((λ id. ground arith), tt)
delete_dev-forgets (d ∷ ds) gone h = elim (ℕ_discrete d.dev_id gone) [
  | yes e ↦ rw ((==_iff d.dev_id gone).1 e) ((λ id. ground arith), h.1)
  | no e ↦ rw (==_ne d.dev_id gone e) (
      let rest = delete_dev-forgets ds gone h.1 in
      ((λ id. ground (arith, rest.0 id)), (ground (arith, rest.0 d.dev_id, h.0), rest.1)))
]
