-- ===== src/Journal/Index.antt =====
-- What journal_write_alloc (ccnvme/checkpoint.c) records in the index of journaled blocks.
use native.Mathlib.Decide.{ℕ_discrete}
use ccnvme.Prelude.{
  ℕ, zero, suc, ◌+◌, ◌-◌, ◌^◌, ◌≤◌, ◌<◌, ◌≡◌, ◌≢◌, arith, Option, none, some, refl, ap, ap₂, sym,
  ◌∙◌, ◌==◌, if◌then◌else◌, ltb, leb, ◌&&◌, ==_refl, ==_ne, Bool-cases, inl, inr, true, false,
}
use ccnvme.Ring.{u32}
use ccnvme.Kernel.{Kernel, Event, IpuEntry, get_page}
use ccnvme.State.{Olayer, emit}
use ccnvme.Ipu.Keys.{place_injective}
use ccnvme.Commit.{index_lookup}
use ccnvme.Commit.Laws.{frame}
use ccnvme.Journal.{index_set, note_block, note_blocks}

abbrev pub fresh_entry : ℕ → ℕ → ℕ → IpuEntry
fresh_entry txid lba plba = record { lba = u32 lba; plba = u32 plba; txid = txid }

-- The entry of a block after it is journaled at `plba`: the newer transaction wins.
abbrev pub newest : ℕ → ℕ → ℕ → Option IpuEntry → Option IpuEntry
newest txid lba plba none = some (fresh_entry txid lba plba)
newest txid lba plba (some old) =
    if ltb old.txid txid then some (fresh_entry txid lba plba) else some old

none_in : (lba b : ℕ) → (leb lba b && ltb b (lba + 0)) ≡ false
none_in lba b = ground arith

out_of : (lba b n : ℕ) → lba ≡ b → (leb (lba + 1) b && ltb b (lba + 1 + n)) ≡ false
out_of lba b n e = ground arith

into : (lba b n : ℕ) → lba ≡ b → (leb lba b && ltb b (lba + suc n)) ≡ true
into lba b n e = ground arith

same_test :
    (lba b n : ℕ)
    → lba ≢ b
    → (leb (lba + 1) b && ltb b (lba + 1 + n)) ≡ (leb lba b && ltb b (lba + suc n))
same_test lba b n ne = ground arith

after_first :
    (lba plba b n : ℕ)
    → lba ≢ b
    → (leb lba b && ltb b (lba + suc n)) ≡ true
    → plba + 1 + (b - (lba + 1)) ≡ plba + (b - lba)
after_first lba plba b n ne q = ground arith

-- The first block of a run is not one of the rest, and any other is where it was.
first_in :
    (txid n lba plba b : ℕ) (o : Option IpuEntry)
    → lba ≡ b
    → (if leb (lba + 1) b && ltb b (lba + 1 + n)
        then newest txid b (plba + 1 + (b - (lba + 1))) (newest txid lba plba o)
        else newest txid lba plba o)
      ≡ (if leb lba b && ltb b (lba + suc n) then newest txid b (plba + (b - lba)) o else o)
first_in txid n lba plba b o e =
    rw (out_of lba b n e, into lba b n e) (ap₂ (λ x y. newest txid x y o) e (omega arith))

later_in :
    (txid n lba plba b : ℕ) (o : Option IpuEntry)
    → lba ≢ b
    → (if leb (lba + 1) b && ltb b (lba + 1 + n)
        then newest txid b (plba + 1 + (b - (lba + 1))) o
        else o)
      ≡ (if leb lba b && ltb b (lba + suc n) then newest txid b (plba + (b - lba)) o else o)
later_in txid n lba plba b o ne = elim (Bool-cases (leb lba b && ltb b (lba + suc n))) [
  | inl q ↦
      rw (same_test lba b n ne, q) (ap (λ x. newest txid b x o) (after_first lba plba b n ne q))
  | inr q ↦ rw (same_test lba b n ne, q)
]

module _ (K : Kernel) where
  open K use {
    Tree, tree_lookup, tree_insert, tree_write, lookup-insert, lookup-write, nr_cpus, nr_cpus_pos,
  }

  set_here :
      (g : ℕ → Tree) (f : Tree → ℕ → Tree) (t o : ℕ) (r : Option IpuEntry)
      → tree_lookup (f (g t) o) o ≡ r
      → tree_lookup (if t == t then f (g t) o else g t) o ≡ r
  set_here g f t o r h = rw (==_refl t) h

  set_elsewhere :
      (g : ℕ → Tree) (f : Tree → ℕ → Tree) (t o t' o' : ℕ)
      → ¬ ((t ≡ t') × (o ≡ o'))
      → (o ≢ o' → tree_lookup (f (g t) o) o' ≡ tree_lookup (g t) o')
      → tree_lookup (if t' == t then f (g t) o else g t') o' ≡ tree_lookup (g t') o'
  set_elsewhere g f t o t' o' apart h = elim (ℕ_discrete t' t) [
    | yes e ↦ rw (e, ==_refl t) (h (λ q. apart (sym e, q)))
    | no ne ↦ rw (==_ne t' t ne)
  ]

  index_set-same :
      (w : Olayer K) (a b : ℕ) (f : Tree → ℕ → Tree) (r : Option IpuEntry)
      → a ≡ b
      → ((t : Tree) (o : ℕ) → tree_lookup t o ≡ index_lookup K w a → tree_lookup (f t o) o ≡ r)
      → index_lookup K (index_set K w a f) b ≡ r
  unfolding index_lookup index_set
  index_set-same w a b f r e h = rw (← e) (set_here w.ipu_tree f _ _ r (h _ _ refl))

  index_set-other :
      (w : Olayer K) (a b : ℕ) (f : Tree → ℕ → Tree)
      → a < 2 ^ 32
      → b < 2 ^ 32
      → 1 ≤ w.blocks_per_group
      → a ≢ b
      → ((t : Tree) (o o' : ℕ)
          → tree_lookup t o ≡ index_lookup K w a
          → o ≢ o'
          → tree_lookup (f t o) o' ≡ tree_lookup t o')
      → index_lookup K (index_set K w a f) b ≡ index_lookup K w b
  unfolding index_lookup index_set
  index_set-other w a b f ha hb hn ne h =
      set_elsewhere w.ipu_tree f _ _ _ _
        (λ q. ne (place_injective a b w.blocks_per_group nr_cpus ha hb hn nr_cpus_pos q.0 q.1))
        (h _ _ _ refl)

  seen : (e : Event) (w : Olayer K) (b : ℕ) → index_lookup K (emit K e w) b ≡ index_lookup K w b
  unfolding index_lookup emit
  seen e w b = refl

  module _ (txid lba plba : ℕ) where
    note_same :
        (o : Option IpuEntry) (w : Olayer K) (b : ℕ)
        → index_lookup K w lba ≡ o
        → lba ≡ b
        → index_lookup K (note_block K txid lba plba o w) b ≡ newest txid lba plba o
    unfolding note_block index_lookup
    note_same none w b found e = elim (Bool-cases w.version_consistency) [
      | inl q ↦ rw q inserted
      | inr q ↦ rw q (seen (get_page lba) _ b ∙ inserted)
    ]
      where
        inserted :
            index_lookup K
              (index_set K w lba (λ t o. tree_insert t o (fresh_entry txid lba plba)))
              b
            ≡ some (fresh_entry txid lba plba)
        inserted = index_set-same w lba b _ (some (fresh_entry txid lba plba)) e (λ t o at.
            lookup-insert t o (fresh_entry txid lba plba) o (at ∙ found) ∙ rw (==_refl o))
    note_same (some old) w b found e = elim (Bool-cases (ltb old.txid txid)) [
      | inl q ↦ rw q (
          index_set-same w lba b _ (some (fresh_entry txid lba plba)) e (λ t o at.
            lookup-write t o (fresh_entry txid lba plba) old o (at ∙ found) ∙ rw (==_refl o)))
      | inr q ↦ rw q (ap (index_lookup K w) (sym e) ∙ found)
    ]

    note_other :
        (o : Option IpuEntry) (w : Olayer K) (b : ℕ)
        → index_lookup K w lba ≡ o
        → lba < 2 ^ 32
        → b < 2 ^ 32
        → 1 ≤ w.blocks_per_group
        → lba ≢ b
        → index_lookup K (note_block K txid lba plba o w) b ≡ index_lookup K w b
    unfolding note_block index_lookup
    note_other none w b found hl hb hn ne = elim (Bool-cases w.version_consistency) [
      | inl q ↦ rw q inserted
      | inr q ↦ rw q (seen (get_page lba) _ b ∙ inserted)
    ]
      where
        inserted :
            index_lookup K
              (index_set K w lba (λ t o. tree_insert t o (fresh_entry txid lba plba)))
              b
            ≡ index_lookup K w b
        inserted = index_set-other w lba b _ hl hb hn ne (λ t o o' at d.
            lookup-insert t o (fresh_entry txid lba plba) o' (at ∙ found) ∙ rw (==_ne o o' d))
    note_other (some old) w b found hl hb hn ne = elim (Bool-cases (ltb old.txid txid)) [
      | inl q ↦ rw q (
          index_set-other w lba b _ hl hb hn ne (λ t o o' at d.
            lookup-write t o (fresh_entry txid lba plba) old o' (at ∙ found) ∙ rw (==_ne o o' d)))
      | inr q ↦ rw q refl
    ]

    frame-note :
        (o : Option IpuEntry) (w : Olayer K) → frame K (note_block K txid lba plba o w) ≡ frame K w
    unfolding note_block index_set emit
    frame-note none w = elim (Bool-cases w.version_consistency) [
      | inl q ↦ rw q refl
      | inr q ↦ rw q refl
    ]
    frame-note (some old) w = elim (Bool-cases (ltb old.txid txid)) [
      | inl q ↦ rw q refl
      | inr q ↦ rw q refl
    ]

  pub frame-note_blocks :
      (txid n lba plba : ℕ) (w : Olayer K) → frame K (note_blocks K txid n lba plba w) ≡ frame K w
  unfolding note_blocks
  frame-note_blocks txid zero lba plba w = refl
  frame-note_blocks txid (suc n) lba plba w =
      frame-note_blocks txid n (lba + 1) (plba + 1) _
      ∙ frame-note txid lba plba (index_lookup K w lba) w

  -- Of `n` blocks from `lba` on, journaled at `plba` and the blocks after it: in the index each has
  -- from then on its new place and the stream's transaction, unless it had an entry of that
  -- transaction or a newer one, which stays; every other block keeps what it had. The block numbers
  -- are of 32 bits and a group has at least one block.
  pub note_blocks-newest :
      (txid n lba plba : ℕ) (w : Olayer K) (b : ℕ)
      → lba + n ≤ 2 ^ 32
      → b < 2 ^ 32
      → 1 ≤ w.blocks_per_group
      → index_lookup K (note_blocks K txid n lba plba w) b ≡ (
          if leb lba b && ltb b (lba + n)
          then newest txid b (plba + (b - lba)) (index_lookup K w b)
          else index_lookup K w b)
  unfolding note_blocks
  note_blocks-newest txid zero lba plba w b fits hb hn = rw (none_in lba b)
  note_blocks-newest txid (suc n) lba plba w b fits hb hn =
      note_blocks-newest txid n (lba + 1) (plba + 1) w' b (omega arith) hb (
        omega
          (arith, ap (λ f. f.blocks_per_group) (frame-note txid lba plba (index_lookup K w lba) w)))
      ∙ elim (ℕ_discrete lba b) [
        | yes e ↦
            ap
              (λ o.
                if leb (lba + 1) b && ltb b (lba + 1 + n)
                then newest txid b (plba + 1 + (b - (lba + 1))) o
                else o)
              (note_same txid lba plba (index_lookup K w lba) w b refl e)
            ∙ first_in txid n lba plba b (index_lookup K w lba) e
            ∙ ap
                (λ o.
                  if leb lba b && ltb b (lba + suc n)
                  then newest txid b (plba + (b - lba)) o
                  else o)
                (ap (index_lookup K w) e)
        | no ne ↦
            ap
              (λ o.
                if leb (lba + 1) b && ltb b (lba + 1 + n)
                then newest txid b (plba + 1 + (b - (lba + 1))) o
                else o)
              (note_other txid lba plba (index_lookup K w lba) w b refl (omega arith) hb hn ne)
            ∙ later_in txid n lba plba b (index_lookup K w b) ne
      ]
    where
      w' : Olayer K
      w' = note_block K txid lba plba (index_lookup K w lba) w
