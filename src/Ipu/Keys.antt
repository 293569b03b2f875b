-- ===== src/Ipu/Keys.antt =====
-- The place of a block's entry tells the block.
use ccnvme.Prelude.{◌≢◌, ℕ, ◌+◌, ◌*◌, ◌/◌, ◌%◌, ◌^◌, ◌≤◌, ◌<◌, ◌≡◌, arith, ap, sym, ◌∙◌}
use native.Mathlib.Nat.{div-add-mod', mod-eq_of_lt}
use ccnvme.Ipu.{group_idx, tree_idx, tree_off}

-- Two numbers with one quotient and one remainder are one.
eq_of_div_mod : (a b n : ℕ) → a / n ≡ b / n → a % n ≡ b % n → a ≡ b
eq_of_div_mod a b n q r = grind arith

-- quotient and remainder of `q * n + r`
split_digit : (q r n : ℕ) → r < n → ((q * n + r) / n ≡ q) × ((q * n + r) % n ≡ r)
split_digit q r n h = grind arith

module _ (lba n cpus : ℕ) (in32 : lba < 2 ^ 32) (n_pos : 1 ≤ n) (cpus_pos : 1 ≤ cpus) where
  group_whole : group_idx lba n ≡ lba / n
  unfolding group_idx
  group_whole = grind arith

  off_whole : tree_off (group_idx lba n) lba n cpus ≡ lba / n / cpus * n + lba % n
  unfolding tree_off
  off_whole = rw group_whole (mod-eq_of_lt fits)
    where
      shrink : lba / n / cpus * n ≤ lba / n * n
      shrink = grind arith

      fits : lba / n / cpus * n + lba % n < 2 ^ 32
      fits = omega (arith, div-add-mod' lba n, shrink)

  -- the parts of a block number, from the place of its entry
  tree_off-parts :
      (tree_off (group_idx lba n) lba n cpus / n ≡ lba / n / cpus)
      × (tree_off (group_idx lba n) lba n cpus % n ≡ lba % n)
  tree_off-parts = rw off_whole (split_digit (lba / n / cpus) (lba % n) n (omega arith))

-- For block numbers of 32 bits, groups of at least one block and at least one processor: two blocks
-- whose entries have the same tree and the same offset in it are the same block, although the
-- offset is cut to 32 bits.
pub place_injective :
    (a b n cpus : ℕ)
    → a < 2 ^ 32
    → b < 2 ^ 32
    → 1 ≤ n
    → 1 ≤ cpus
    → tree_idx (group_idx a n) cpus ≡ tree_idx (group_idx b n) cpus
    → tree_off (group_idx a n) a n cpus ≡ tree_off (group_idx b n) b n cpus
    → a ≡ b
unfolding tree_idx
place_injective a b n cpus ha hb hn hc same_tree same_off =
    eq_of_div_mod a b n (eq_of_div_mod (a / n) (b / n) cpus quotients remainders) low
  where
    quotients : a / n / cpus ≡ b / n / cpus
    quotients =
        sym (tree_off-parts a n cpus ha hn hc).0
        ∙ ap (λ t. t / n) same_off
        ∙ (tree_off-parts b n cpus hb hn hc).0

    low : a % n ≡ b % n
    low =
        sym (tree_off-parts a n cpus ha hn hc).1
        ∙ ap (λ t. t % n) same_off
        ∙ (tree_off-parts b n cpus hb hn hc).1

    remainders : a / n % cpus ≡ b / n % cpus
    remainders =
        ap (λ t. t % cpus) (sym (group_whole a n cpus ha hn hc))
        ∙ same_tree
        ∙ ap (λ t. t % cpus) (group_whole b n cpus hb hn hc)

-- The tree of a block is one of the NR_IPU_TREE.
pub tree_idx-lt : (lba n cpus : ℕ) → 1 ≤ cpus → tree_idx (group_idx lba n) cpus < cpus
unfolding tree_idx
tree_idx-lt lba n cpus h = omega arith

-- For block numbers of 32 bits, groups of at least one block and at least one processor: the
-- entries of two different blocks do not share both the tree and the offset in it, although the
-- offset is cut to 32 bits.
pub place_distinct :
    (a b n cpus : ℕ)
    → a < 2 ^ 32
    → b < 2 ^ 32
    → 1 ≤ n
    → 1 ≤ cpus
    → a ≢ b
    → ¬ (
        (tree_idx (group_idx a n) cpus ≡ tree_idx (group_idx b n) cpus)
        × (tree_off (group_idx a n) a n cpus ≡ tree_off (group_idx b n) b n cpus))
place_distinct a b n cpus ha hb hn hc ne same =
    ne (place_injective a b n cpus ha hb hn hc same.0 same.1)
