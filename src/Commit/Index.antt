-- ===== src/Commit/Index.antt =====
-- The index of journaled blocks as a map from block numbers.
use ccnvme.Prelude.{ℕ, ◌^◌, ◌≤◌, ◌<◌, ◌≡◌, none, ◌==◌, if◌then◌else◌, ==_ne, ==_refl, sym, ◌∙◌}
use native.Mathlib.Decide.{ℕ_discrete}
use ccnvme.Kernel.{Kernel}
use ccnvme.State.{Olayer}
use ccnvme.Ipu.Keys.{place_injective}
use ccnvme.Commit.{index_lookup, index_delete}

module _ (K : Kernel) where
  open K use {Tree, tree_lookup, tree_delete, lookup-delete, nr_cpus, nr_cpus_pos}

  -- deletion at one place, seen from that place and from any other
  delete_here :
      (f : ℕ → Tree) (t o : ℕ) → tree_lookup (if t == t then tree_delete (f t) o else f t) o ≡ none
  delete_here f t o = rw (==_refl t) (lookup-delete (f t) o o ∙ rw (==_refl o))

  delete_elsewhere :
      (f : ℕ → Tree) (t o t' o' : ℕ)
      → ¬ ((t ≡ t') × (o ≡ o'))
      → tree_lookup (if t' == t then tree_delete (f t) o else f t') o' ≡ tree_lookup (f t') o'
  delete_elsewhere f t o t' o' apart = elim (ℕ_discrete t' t) [
    | yes e ↦ rw (e, ==_refl t) (lookup-delete (f t) o o' ∙ rw (==_ne o o' (λ q. apart (sym e, q))))
    | no ne ↦ rw (==_ne t' t ne)
  ]

  -- Deleting the entry of block `a` empties its place and changes no other block's.
  pub lookup-index_delete :
      (w : Olayer K) (a b : ℕ)
      → a < 2 ^ 32
      → b < 2 ^ 32
      → 1 ≤ w.blocks_per_group
      → index_lookup K (index_delete K w a) b ≡ (if a == b then none else index_lookup K w b)
  unfolding index_lookup index_delete
  lookup-index_delete w a b ha hb hn = elim (ℕ_discrete a b) [
    | yes e ↦ rw (← e, ==_refl a) (delete_here w.ipu_tree _ _)
    | no ne ↦ rw (==_ne a b ne) (
        delete_elsewhere w.ipu_tree _ _ _ _
          (λ q. ne (place_injective a b w.blocks_per_group nr_cpus ha hb hn nr_cpus_pos q.0 q.1)))
  ]
