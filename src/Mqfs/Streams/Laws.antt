-- ===== src/Mqfs/Streams/Laws.antt =====
-- Taking and giving back the lock of a stream (mqfs/filemap_compat.c).
use native.Mathlib.Decide.{dec_lt, ℕ_discrete}
use native.Mathlib.Nat.{mod-add-mod, mod-lt}
use ccnvme.Prelude.{
  ℕ, zero, suc, ◌+◌, ◌-◌, ◌%◌, ◌<◌, subst, ◌≡◌, ◌≢◌, arith, length, get_or, set, refl, ap, ◌∙◌, sym,
  Bool, true, false, Option, none, some, Bool-cases, length-set, get_or-set_self, get_or-set_ne,
  ◌⊎◌, inl, inr, List, [], ◌∷◌,
}
use ccnvme.Ring.Laws.{mod_below, mod_once}
use ccnvme.Mqfs.{Sbi}
use ccnvme.Mqfs.Streams.{
  Attempt, took, waits_for, lock_is_held, with_lock, taken, try_others, found, get_free_stream,
  lock_index, put_stream,
}

-- a mounted file system: a lock for each of its streams, of which there is one at least
pub record IsMounted (sbi : Sbi) : Type 0 where
  pub some_stream : 0 < sbi.nr_streams
  pub locks : length sbi.stream_lock ≡ sbi.nr_streams

-- the lock that is `k` steps behind that of a processor
abbrev pub nth_lock : ℕ → ℕ → Sbi → ℕ
nth_lock cpu k sbi = (cpu + k) % sbi.nr_streams

-- How the search ends: at the first free lock, or at none.
abbrev pub Found : ℕ → Sbi → Attempt → Type 0
Found cpu sbi a =
    ((k : ℕ) × (k < sbi.nr_streams)
      × ((j : ℕ) → j < k → lock_is_held sbi (nth_lock cpu j sbi) ≡ true)
      × (lock_is_held sbi (nth_lock cpu k sbi) ≡ false)
      × (a ≡ taken (nth_lock cpu k sbi) sbi))
    ⊎ (((j : ℕ) → j < sbi.nr_streams → lock_is_held sbi j ≡ true)
        × (a ≡ waits_for (cpu % sbi.nr_streams)))

next_lock :
    (cpu k : ℕ) (sbi : Sbi) → (nth_lock cpu k sbi + 1) % sbi.nr_streams ≡ nth_lock cpu (suc k) sbi
next_lock cpu k sbi =
    mod-add-mod (cpu + k) sbi.nr_streams 1 ∙ ap (λ (n : ℕ). n % sbi.nr_streams) (omega arith)

-- Every lock is some steps behind that of the processor.
step_to :
    (cpu j : ℕ) (sbi : Sbi)
    → j < sbi.nr_streams
    → (k : ℕ) × (k < sbi.nr_streams) × (nth_lock cpu k sbi ≡ j)
step_to cpu j sbi h = elim (dec_lt j c) [
  | no p ↦ (
    j - c,
    omega arith,
    sym (mod-add-mod cpu n (j - c)) ∙ ap (λ (m : ℕ). m % n) (omega arith) ∙ mod_below j n h,
  )
  | yes p ↦ (
    j + n - c,
    omega arith,
    sym (mod-add-mod cpu n (j + n - c))
        ∙ mod_once (c + (j + n - c)) n (omega arith) (omega arith)
        ∙ omega arith,
  )
]
  where
    n : ℕ
    n = sbi.nr_streams

    c : ℕ
    c = cpu % n

module _ (cpu : ℕ) (sbi : Sbi) (m : IsMounted sbi) where
  -- the locks up to the k-th are held
  Held : ℕ → Type 0
  Held k = (j : ℕ) → j < k → lock_is_held sbi (nth_lock cpu j sbi) ≡ true

  Held-suc : (k : ℕ) → Held k → lock_is_held sbi (nth_lock cpu k sbi) ≡ true → Held (suc k)
  unfolding Held
  Held-suc k h e j lt = elim (ℕ_discrete j k) [
    | yes q ↦ subst (λ i. lock_is_held sbi (nth_lock cpu i sbi) ≡ true) (sym q) e
    | no ne ↦ h j (omega arith)
  ]

  try_others_lem :
      (loop k : ℕ)
      → k + suc loop ≡ sbi.nr_streams
      → Held (suc k)
      → ((i : ℕ) × (i < sbi.nr_streams)
          × Held i
          × (lock_is_held sbi (nth_lock cpu i sbi) ≡ false)
          × (try_others loop (nth_lock cpu k sbi) sbi ≡ some (nth_lock cpu i sbi)))
        ⊎ (Held sbi.nr_streams × (try_others loop (nth_lock cpu k sbi) sbi ≡ none))
  unfolding try_others
  try_others_lem zero k e h = inr (subst Held (omega arith) h, refl)
  try_others_lem (suc loop) k e h =
      elim (Bool-cases (lock_is_held sbi (nth_lock cpu (suc k) sbi))) [
        | inr free ↦ inl (suc k, omega arith, h, free, rw (next_lock cpu k sbi) (rw free))
        | inl held ↦
            rw (next_lock cpu k sbi)
              (rw held (try_others_lem loop (suc k) (omega arith) (Held-suc (suc k) h held)))
      ]

  -- get_free_stream, in a mounted file system: either some lock is free, and then the first such
  -- lock in the circle from the processor's own is taken and its stream returned; or all are held,
  -- and then it waits for the processor's own.
  pub get_free_stream_lem : Found cpu sbi (get_free_stream cpu sbi)
  unfolding get_free_stream Held
  get_free_stream_lem = elim (Bool-cases (lock_is_held sbi own)) [
    | inr free ↦ inl (
      0,
      m.some_stream,
      λ j lt. absurd (omega arith),
      rw start free,
      rw free (ap (λ i. taken i sbi) (sym start)),
    )
    | inl held ↦
        elim (try_others_lem (sbi.nr_streams - 1) 0 (omega (arith, m.some_stream)) (λ j lt.
          subst (λ i. lock_is_held sbi (nth_lock cpu i sbi) ≡ true) (omega arith)
            (subst (λ i. lock_is_held sbi i ≡ true) (sym start) held))) [
              | inl (i, lt, h, free, e) ↦ inl (
                i,
                lt,
                h,
                free,
                rw held (ap (found own sbi) (searched (some (nth_lock cpu i sbi)) e)),
              )
              | inr (h, e) ↦ inr (
                λ j lt.
                    let k = step_to cpu j sbi lt in
                    subst (λ i. lock_is_held sbi i ≡ true) k.2 (h k.0 k.1),
                rw held (ap (found own sbi) (searched none e) ∙ rw held),
              )
            ]
  ]
    where
      own : ℕ
      own = cpu % sbi.nr_streams

      start : nth_lock cpu 0 sbi ≡ own
      start = ap (λ (n : ℕ). n % sbi.nr_streams) (omega arith)

      searched :
          (o : Option ℕ)
          → try_others (sbi.nr_streams - 1) (nth_lock cpu 0 sbi) sbi ≡ o
          → try_others (sbi.nr_streams - 1) own sbi ≡ o
      searched o e = subst (λ i. try_others (sbi.nr_streams - 1) i sbi ≡ o) start e

set-set_back : (l : List Bool) (s : ℕ) → get_or l s true ≡ false → set (set l s true) s false ≡ l
set-set_back [] s h = refl
set-set_back (b ∷ l) zero h = ap (λ x. x ∷ l) (sym h)
set-set_back (b ∷ l) (suc s) h = ap (λ x. b ∷ x) (set-set_back l s h)

-- The streams of a mount that put_stream finds the locks of.
abbrev pub IsAligned : Sbi → Type 0
IsAligned sbi = (s : ℕ) → s < sbi.nr_streams → lock_index sbi (get_or sbi.streams s 0) ≡ s

put_back :
    (s : ℕ) (sbi : Sbi)
    → lock_index sbi (get_or sbi.streams s 0) ≡ s
    → lock_is_held sbi s ≡ false
    → put_stream (with_lock sbi s true) (get_or sbi.streams s 0) ≡ sbi
unfolding put_stream lock_index
put_back s sbi e free =
    ap (λ i. with_lock (with_lock sbi s true) i false) e
    ∙ ap (λ l. record sbi { stream_lock = l }) (set-set_back sbi.stream_lock s free)

abbrev given : Attempt → Sbi → Sbi
given (took id sbi) old = put_stream sbi id
given (waits_for s) old = old

-- In a mounted file system where put_stream maps each stream to its own lock, giving back the
-- stream that get_free_stream has returned leaves all locks as they were before.
pub get_put_roundtrip :
    (cpu id : ℕ) (sbi sbi' : Sbi)
    → IsMounted sbi
    → IsAligned sbi
    → get_free_stream cpu sbi ≡ took id sbi'
    → put_stream sbi' id ≡ sbi
get_put_roundtrip cpu id sbi sbi' m aligned e = elim (get_free_stream_lem cpu sbi m) [
  | inl (k, lt, h, free, q) ↦
      ap (λ a. given a sbi) (sym e ∙ q)
      ∙ put_back (nth_lock cpu k sbi) sbi
          (aligned (nth_lock cpu k sbi) (mod-lt (cpu + k) m.some_stream)) free
  | inr (h, q) ↦ absurd (cc (e, q))
]

-- In a mounted file system where the lock of the processor's stream is free and put_stream maps
-- that stream to another lock, taking and giving back the stream leaves its own lock held and the
-- other one free, whoever held that.
pub put_stream-misses :
    (s : ℕ) (sbi : Sbi)
    → IsMounted sbi
    → s < sbi.nr_streams
    → lock_is_held sbi s ≡ false
    → lock_index sbi (get_or sbi.streams s 0) ≢ s
    → (id : ℕ) × (sbi' : Sbi) × (get_free_stream s sbi ≡ took id sbi')
      × (lock_is_held (put_stream sbi' id) s ≡ true)
      × (lock_is_held (put_stream sbi' id) (lock_index sbi id) ≡ false)
unfolding get_free_stream put_stream lock_index
put_stream-misses s sbi m lt free ne = (
  id,
  with_lock sbi s true,
  rw (mod_below s sbi.nr_streams lt) (rw free),
  get_or-set_ne (set sbi.stream_lock s true) other s false true ne
      ∙ get_or-set_self sbi.stream_lock s true true (omega (arith, m.locks)),
  get_or-set_self (set sbi.stream_lock s true) other false true
      (omega (arith, m.locks, length-set sbi.stream_lock s true, other_in)),
)
  where
    id : ℕ
    id = get_or sbi.streams s 0

    other : ℕ
    other = lock_index sbi id

    other_in : other < sbi.nr_streams
    other_in = ground (arith, mod-lt id {m = sbi.nr_streams} m.some_stream)
