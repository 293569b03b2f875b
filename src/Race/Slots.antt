-- ===== src/Race/Slots.antt =====
-- The slots between tail and watermark, and who holds them.
use native.Mathlib.Decide.{ℕ_discrete}
use ccnvme.Prelude.{
  ℕ, ◌+◌, ◌^◌, ◌≤◌, ◌<◌, ◌≡◌, ◌≢◌, arith, Option, none, some, refl, ap, sym, ◌∙◌, ==_ne, ==_refl,
}
use ccnvme.Ring.{ring_count, ring_next, ring_space}
use ccnvme.Ring.Laws.{ring_next-lt, ring_count-step, ring_space-add-count}
use ccnvme.Race.{at_thread}
use ccnvme.Race.Counts.{ring_count-further, ring_count-add, ring_count-inj}

-- `slots i` is the slot that thread `i` has reserved and not yet published: the queue and the
-- reserved slots leave one slot free; each reserved slot lies between tail and watermark; no two
-- threads hold one slot; and somebody holds every slot there.
pub record Held (n head tail watermark : ℕ) (slots : ℕ → Option ℕ) : Type 0 where
  pub head_in : head < n
  pub tail_in : tail < n
  pub mark_in : watermark < n
  pub room : ring_count head tail n + ring_count tail watermark n < n
  pub slot_in :
      (i a : ℕ) → slots i ≡ some a → (a < n) × (ring_count tail a n < ring_count tail watermark n)
  pub one_holder : (i j a : ℕ) → slots i ≡ some a → slots j ≡ some a → i ≡ j
  pub holder :
      (a : ℕ)
      → a < n
      → ring_count tail a n < ring_count tail watermark n
      → (i : ℕ) × (slots i ≡ some a)

-- The update of one thread's slot, at it and elsewhere.
pub at_self {ℓ} : {A : Type ℓ} (i : ℕ) (v : A) (f : ℕ → A) → at_thread i v f i ≡ v
at_self i v f = rw (==_refl i) refl

pub at_other {ℓ} : {A : Type ℓ} (i j : ℕ) (v : A) (f : ℕ → A) → i ≢ j → at_thread i v f j ≡ f j
at_other i j v f ne = rw (==_ne i j ne) refl

pub some-inj : (a b : ℕ) → some a ≡ some b → a ≡ b
some-inj a b e = cc

pub none-some : (a : ℕ) → ◌≡◌ {A = Option ℕ} none (some a) → ⊥
none-some a e = cc

module _ (n : ℕ) (small : n ≤ 2 ^ 62) (head tail watermark : ℕ) (slots : ℕ → Option ℕ)
    (v : Held n head tail watermark slots) where
  pub Held-free_head : head ≢ tail → Held n (ring_next head n) tail watermark slots
  Held-free_head ne = record {
    head_in = ring_next-lt head n v.head_in;
    tail_in = v.tail_in;
    mark_in = v.mark_in;
    room = omega (arith, v.room, ring_count-step head tail n v.head_in v.tail_in small ne);
    slot_in = v.slot_in;
    one_holder = v.one_holder;
    holder = v.holder;
  }

  pub Held-swap_watermark :
      (i : ℕ)
      → slots i ≡ none
      → 1 ≤ ring_space head watermark n
      → Held n head tail (ring_next watermark n) (at_thread i (some watermark) slots)
  Held-swap_watermark i idle space = record {
    head_in = v.head_in;
    tail_in = v.tail_in;
    mark_in = ring_next-lt watermark n v.mark_in;
    room = omega (
      arith,
      whole,
      longer,
      space,
      ring_space-add-count head watermark n v.head_in v.mark_in small,
    );
    slot_in = λ j a e. elim (ℕ_discrete i j) [
      | yes q ↦ (
        omega (arith, mine j a q e, v.mark_in),
        omega (arith, longer, ap (λ t. ring_count tail t n) (mine j a q e)),
      )
      | no q ↦ let old = v.slot_in j a (theirs j a q e) in (old.0, omega (arith, longer, old.1))
    ];
    one_holder = λ j k a e f. elim (ℕ_discrete i j) [
      | yes p ↦ elim (ℕ_discrete i k) [
        | yes q ↦ sym p ∙ q
        | no q ↦ absurd (apart k a (mine j a p e) (theirs k a q f))
      ]
      | no p ↦ elim (ℕ_discrete i k) [
        | yes q ↦ absurd (apart j a (mine k a q f) (theirs j a p e))
        | no q ↦ v.one_holder j k a (theirs j a p e) (theirs k a q f)
      ]
    ];
    holder = λ a ha h. elim (ℕ_discrete watermark a) [
      | yes e ↦ (i, at_self i (some watermark) slots ∙ ap (λ t. some t) e)
      | no ne ↦
          let r = v.holder a ha (before a ha h ne) in
          (r.0, at_other i r.0 (some watermark) slots (busy r.0 a r.1) ∙ r.1)
    ];
  }
    where
      mine : (j a : ℕ) → i ≡ j → at_thread i (some watermark) slots j ≡ some a → watermark ≡ a
      mine j a q e =
          some-inj watermark a
            (sym (at_self i (some watermark) slots) ∙ ap (at_thread i (some watermark) slots) q ∙ e)

      theirs : (j a : ℕ) → i ≢ j → at_thread i (some watermark) slots j ≡ some a → slots j ≡ some a
      theirs j a q e = sym (at_other i j (some watermark) slots q) ∙ e

      -- nobody held the slot at the watermark
      apart : (j a : ℕ) → watermark ≡ a → slots j ≡ some a → ⊥
      apart j a same e = omega (arith, (v.slot_in j a e).1, ap (λ t. ring_count tail t n) same)

      busy : (j a : ℕ) → slots j ≡ some a → i ≢ j
      busy j a e q = absurd (none-some a (sym idle ∙ ap slots q ∙ e))

      whole : ring_count head watermark n ≡ ring_count head tail n + ring_count tail watermark n
      whole = ring_count-add n small head tail watermark v.head_in v.tail_in v.mark_in v.room

      longer : ring_count tail (ring_next watermark n) n ≡ ring_count tail watermark n + 1
      longer = ring_count-further n small tail watermark v.tail_in v.mark_in (
          omega
            (arith, whole, space, ring_space-add-count head watermark n v.head_in v.mark_in small))

      before :
          (a : ℕ)
          → a < n
          → ring_count tail a n < ring_count tail (ring_next watermark n) n
          → watermark ≢ a
          → ring_count tail a n < ring_count tail watermark n
      before a ha h ne = elim (ℕ_discrete (ring_count tail watermark n) (ring_count tail a n)) [
        | yes e ↦ absurd (ne (ring_count-inj n small tail watermark a v.tail_in v.mark_in ha e))
        | no d ↦ omega (arith, longer, h, d)
      ]
