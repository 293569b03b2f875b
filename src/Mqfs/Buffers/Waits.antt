-- ===== src/Mqfs/Buffers/Waits.antt =====
-- What the waits for metadata buffers return (mqfs/filemap_compat.c).
use native.Mathlib.Decide.{ℕ_discrete}
use ccnvme.Prelude.{
  ℕ, ◌≡◌, refl, ap, ap₂, sym, ◌∙◌, subst, Bool, true, false, ◌||◌, List, [], ◌∷◌, Bool-cases, inl,
  inr, if◌then◌else◌, ==_ne, All, arith, none, some, Option,
}
use ccnvme.Kernel.{Kernel}
use ccnvme.Mqfs.{Buffer, Mqfs, Vfs, eio, set_buffer, set_inode, wait_buffer, update}
use ccnvme.Mqfs.Buffers.{
  wait_each, list_del, take_pending, put_back_dirty, take_inodemeta, take_copyout,
}

-- the state bits of a buffer that a wait looks at
abbrev pub flags : Buffer → Bool × Bool × Bool
flags v = (v.locked, v.uptodate, v.req)

-- some buffer of a list fails a test
abbrev pub any_failed : (Buffer → Bool) → (ℕ → Buffer) → List ℕ → Bool
any_failed failed f [] = false
any_failed failed f (b ∷ bs) = failed (f b) || any_failed failed f bs

pub update_self {ℓ} : {A : Type ℓ} (f : ℕ → A) (i : ℕ) (v : A) → update f i v i ≡ v
update_self f i v = ground arith

pub update_ne {ℓ} : {A : Type ℓ} (f : ℕ → A) (i j : ℕ) (v : A) → (i ≡ j → ⊥) → update f i v j ≡ f j
update_ne f i j v ne = rw (==_ne i j ne)

-- a store that keeps what a function reads off
pub update_keeps {ℓ κ} :
    {A : Type ℓ} {B : Type κ} (g : A → B) (f : ℕ → A) (i : ℕ) (v : A)
    → g v ≡ g (f i)
    → (j : ℕ) → g (update f i v j) ≡ g (f j)
update_keeps g f i v e j = elim (ℕ_discrete i j) [
  | yes q ↦ subst (λ k. g (update f i v k) ≡ g (f k)) q (ap g (update_self f i v) ∙ e)
  | no ne ↦ ap g (update_ne f i j v ne)
]

-- no write of a list of buffers is under way
abbrev pub Idle : List ℕ → (ℕ → Buffer) → Type 0
Idle l f = All (λ b. (f b).locked ≡ false) l

-- what is read off idle buffers stays where idle buffers keep their state bits
module _ (f g : ℕ → Buffer)
    (keeps : (c : ℕ) → (f c).locked ≡ false → flags (g c) ≡ flags (f c)) where
  pub any_failed-keeps :
      (failed : Buffer → Bool)
      → ((u v : Buffer) → flags u ≡ flags v → failed u ≡ failed v)
      → (l : List ℕ) → Idle l f
      → any_failed failed g l ≡ any_failed failed f l
  any_failed-keeps failed reads [] h = refl
  any_failed-keeps failed reads (b ∷ l) h =
      ap₂ ◌||◌ (reads (g b) (f b) (keeps b h.0)) (any_failed-keeps failed reads l h.1)

  pub Idle-keeps : (l : List ℕ) → Idle l f → Idle l g
  Idle-keeps [] h = tt
  Idle-keeps (b ∷ l) h = (ap (λ t. t.0) (keeps b h.0) ∙ h.0, Idle-keeps l h.1)

module _ (K : Kernel) where
  -- A step leaves the state bits of all buffers.
  abbrev pub KeepsFlags : (Mqfs K → Mqfs K) → Type 0
  KeepsFlags f = (w : Mqfs K) (c : ℕ) → flags ((f w).buffers c) ≡ flags (w.buffers c)

  module _ (V : Vfs K) where
    pub wait_buffer-unlocks :
        (b : ℕ) (w : Mqfs K) → ((wait_buffer K V b w).buffers b).locked ≡ false
    unfolding wait_buffer set_buffer
    wait_buffer-unlocks b w = elim (Bool-cases (w.buffers b).locked) [
      | inl e ↦ rw (e, wait_buffer) (ap (λ v. v.locked) (update_self w.buffers b _))
      | inr e ↦ rw (e, wait_buffer) e
    ]

    -- A buffer that is not under way is as it was.
    pub wait_buffer-keeps :
        (b : ℕ) (w : Mqfs K) (c : ℕ)
        → (w.buffers c).locked ≡ false
        → (wait_buffer K V b w).buffers c ≡ w.buffers c
    unfolding wait_buffer set_buffer
    wait_buffer-keeps b w c free = elim (Bool-cases (w.buffers b).locked) [
      | inl e ↦
          rw (e, wait_buffer)
            (update_ne w.buffers b c _ (λ q. cc (e, free, ap (λ i. (w.buffers i).locked) q)))
      | inr e ↦ rw (e, wait_buffer)
    ]

    module _ (before after : ℕ → Mqfs K → Mqfs K) (failed : Buffer → Bool)
        (early : (b : ℕ) → KeepsFlags (before b)) (late : (b : ℕ) → KeepsFlags (after b))
        (reads : (u v : Buffer) → flags u ≡ flags v → failed u ≡ failed v) where
      -- one round
      turn : ℕ → Mqfs K → Mqfs K
      turn b w = after b (wait_buffer K V b (before b w))

      abbrev next_error : ℕ → ℕ → Mqfs K → ℕ
      next_error b err w = if failed ((wait_buffer K V b (before b w)).buffers b) then eio else err

      turn-keeps :
          (b : ℕ) (w : Mqfs K) (c : ℕ)
          → (w.buffers c).locked ≡ false
          → flags ((turn b w).buffers c) ≡ flags (w.buffers c)
      unfolding turn
      turn-keeps b w c free =
          late b _ c
          ∙ ap flags (wait_buffer-keeps b (before b w) c (ap (λ t. t.0) (early b w c) ∙ free))
          ∙ early b w c

      turn-unlocks : (b : ℕ) (w : Mqfs K) → ((turn b w).buffers b).locked ≡ false
      unfolding turn
      turn-unlocks b w = ap (λ t. t.0) (late b _ b) ∙ wait_buffer-unlocks b (before b w)

      pub wait_each-keeps :
          (bs : List ℕ) (err : ℕ) (w : Mqfs K) (c : ℕ)
          → (w.buffers c).locked ≡ false
          → flags ((wait_each K V before failed after bs err w).1.buffers c) ≡ flags (w.buffers c)
      unfolding wait_each turn
      wait_each-keeps [] err w c free = refl
      wait_each-keeps (b ∷ bs) err w c free =
          wait_each-keeps bs _ (turn b w) c (ap (λ t. t.0) (turn-keeps b w c free) ∙ free)
          ∙ turn-keeps b w c free

      -- the first buffer that a loop waits for, and the rest
      merged :
          (p q : Bool) (e : ℕ)
          → (if q then eio else (if p then eio else e)) ≡ (if p || q then eio else e)
      merged true true e = refl
      merged true false e = refl
      merged false true e = refl
      merged false false e = refl

      -- What a wait for a list promises, by the error before, the result and the buffers after.
      Settled : List ℕ → ℕ → ℕ × Mqfs K → Type 0
      Settled bs err r =
          (r.0 ≡ (if any_failed failed r.1.buffers bs then eio else err))
          × All (λ b. (r.1.buffers b).locked ≡ false) bs

      Settled-cons :
          (b : ℕ) (bs : List ℕ) (err : ℕ) (w : Mqfs K) (r : ℕ × Mqfs K)
          → flags (r.1.buffers b) ≡ flags ((turn b w).buffers b)
          → Settled bs (if failed ((wait_buffer K V b (before b w)).buffers b) then eio else err) r
          → Settled (b ∷ bs) err r
      unfolding Settled turn
      Settled-cons b bs err w r end s =
          let kept : failed (r.1.buffers b) ≡ failed ((wait_buffer K V b (before b w)).buffers b) =
            reads _ _ (end ∙ late b _ b) in
          (
            s.0
                ∙ ap
                    (λ p.
                      if any_failed failed r.1.buffers bs then eio else (if p then eio else err))
                    (sym kept)
                ∙ merged (failed (r.1.buffers b)) (any_failed failed r.1.buffers bs) err,
            (ap (λ t. t.0) end ∙ turn-unlocks b w, s.1),
          )

      -- All buffers of the list are waited for, and the result is -EIO exactly if one fails.
      pub wait_each_lem :
          (bs : List ℕ) (err : ℕ) (w : Mqfs K)
          → ((wait_each K V before failed after bs err w).0 ≡ (
              if any_failed failed (wait_each K V before failed after bs err w).1.buffers bs
              then eio
              else err))
            × All
                (λ b. ((wait_each K V before failed after bs err w).1.buffers b).locked ≡ false)
                bs
      unfolding wait_each turn Settled
      wait_each_lem [] err w = (refl, tt)
      wait_each_lem (b ∷ bs) err w =
          Settled-cons b bs err w
            (wait_each K V before failed after bs (next_error b err w) (turn b w))
            (wait_each-keeps bs (next_error b err w) (turn b w) b (turn-unlocks b w))
            (wait_each_lem bs (next_error b err w) (turn b w))

  flags_either :
      (p : Bool) (x y : Mqfs K) (c : ℕ) (t : Bool × Bool × Bool)
      → flags (x.buffers c) ≡ t
      → flags (y.buffers c) ≡ t
      → flags ((if p then x else y).buffers c) ≡ t
  flags_either true x y c t p q = p
  flags_either false x y c t p q = q

  -- The edits of the lists keep the state bits.
  pub take_pending-KeepsFlags : (V : Vfs K) (ino b : ℕ) → KeepsFlags (take_pending K V ino b)
  unfolding take_pending set_buffer set_inode
  take_pending-KeepsFlags V ino b w c = put_back (w.buffers b).assoc_map
    where
      w1 : Mqfs K
      w1 =
          set_buffer K b (record (w.buffers b) { assoc_map = none })
            (set_inode K ino
              (record (w.inodes ino) {
                fsmeta_pending_list = list_del b (w.inodes ino).fsmeta_pending_list;
              })
              w)

      early : flags (w1.buffers c) ≡ flags (w.buffers c)
      early = update_keeps flags w.buffers b _ refl c

      put_back :
          (m : Option ℕ)
          → flags ((put_back_dirty K V b m (w.buffers b) w1).buffers c) ≡ flags (w.buffers c)
      put_back none = early
      put_back (some m) =
          flags_either (w.buffers b).dirty _ w1 c _
            (update_keeps flags w1.buffers b (w.buffers b)
                (ap flags (sym (update_self w.buffers b _))) c
              ∙ early)
            early

  pub take_inodemeta-KeepsFlags : (V : Vfs K) (ino b : ℕ) → KeepsFlags (take_inodemeta K V ino b)
  unfolding take_inodemeta set_buffer set_inode
  take_inodemeta-KeepsFlags V ino b w c = update_keeps flags w.buffers b _ refl c

  pub take_copyout-KeepsFlags : (V : Vfs K) (ino b : ℕ) → KeepsFlags (take_copyout K V ino b)
  unfolding take_copyout set_buffer set_inode
  take_copyout-KeepsFlags V ino b w c = update_keeps flags w.buffers b _ refl c
