-- ===== src/Commit/Entry.antt =====
-- commit_write_entry_per_stream (ccnvme/checkpoint.c): what it takes out of the index and which
-- buffers it queues.
use ccnvme.Prelude.{
  ℕ, zero, suc, ◌+◌, ◌^◌, ◌≤◌, ◌<◌, ◌≡◌, arith, List, [], ◌∷◌, ◌++◌, Option, none, some, ◌==◌,
  if◌then◌else◌, refl, ap, ap₂, sym, ◌∙◌, append_assoc, append-nil, false, leb, ltb, ◌&&◌,
  Bool-cases, inl, inr, ==_ne,
}
use ccnvme.Kernel.{Kernel, IpuEntry}
use ccnvme.State.{Olayer, emit}
use ccnvme.Commit.{
  ok, enomem, Work, index_lookup, index_delete, queue_buffer, commit_found, commit_block,
  commit_blocks,
}
use ccnvme.Commit.Index.{lookup-index_delete}

empty_range : (lba b : ℕ) → (leb lba b && ltb b (lba + 0)) ≡ false
empty_range lba b = ground arith

one_more :
    (lba n b : ℕ) (o : Option IpuEntry)
    → (if leb (lba + 1) b && ltb b (lba + 1 + n) then none else (if lba == b then none else o))
      ≡ (if leb lba b && ltb b (lba + suc n) then none else o)
one_more lba n b o = ground arith

module _ (K : Kernel) where
  open K use {sb_getblk}

  -- the buffer of a block, if its newest journaled copy is of transaction `txid`
  unfoldable pub due_entry : ℕ → ℕ → ℕ → Option IpuEntry → List ℕ
  due_entry sb txid lba none = []
  due_entry sb txid lba (some e) =
      if e.txid == txid then elim (sb_getblk sb lba) [ none ↦ [] | some bh ↦ bh ∷ [] ] else []

  unfoldable pub due : ℕ → ℕ → ℕ → ℕ → (ℕ → Option IpuEntry) → List ℕ
  due sb txid zero lba index = []
  due sb txid (suc n) lba index = due_entry sb txid lba (index lba) ++ due sb txid n (lba + 1) index

  due-cong :
      (sb txid n lba : ℕ) (f g : ℕ → Option IpuEntry)
      → ((b : ℕ) → lba ≤ b → b < lba + n → f b ≡ g b)
      → due sb txid n lba f ≡ due sb txid n lba g
  unfolding due
  due-cong sb txid zero lba f g h = refl
  due-cong sb txid (suc n) lba f g h =
      ap₂ ◌++◌ (ap (due_entry sb txid lba) (h lba (omega arith) (omega arith)))
        (due-cong sb txid n (lba + 1) f g (λ b p q. h b (omega arith) (omega arith)))

  module _ (sb txid lba : ℕ) (v : Work K) where
    queue_effect :
        (o : Option ℕ)
        → (queue_buffer K o v).0 ≡ ok
        → ((queue_buffer K o v).1.layer.ipu_tree ≡ v.layer.ipu_tree)
          × ((queue_buffer K o v).1.layer.blocks_per_group ≡ v.layer.blocks_per_group)
          × ((queue_buffer K o v).1.bh_list
              ≡ v.bh_list ++ (elim o [ none ↦ [] | some bh ↦ bh ∷ [] ]))
    unfolding queue_buffer emit
    queue_effect none h = cc
    queue_effect (some bh) h = elim (Bool-cases (K.buffer_locked v.layer.io bh)) [
      | inl e ↦ rw e (refl, refl, refl)
      | inr e ↦ rw e (refl, refl, refl)
    ]

    found_effect :
        (o : Option IpuEntry)
        → (commit_found K sb txid lba o v).0 ≡ ok
        → ((commit_found K sb txid lba o v).1.layer.ipu_tree ≡ v.layer.ipu_tree)
          × ((commit_found K sb txid lba o v).1.layer.blocks_per_group ≡ v.layer.blocks_per_group)
          × ((commit_found K sb txid lba o v).1.bh_list ≡ v.bh_list ++ due_entry sb txid lba o)
    unfolding commit_found due_entry
    found_effect none h = (refl, refl, sym (append-nil v.bh_list))
    found_effect (some e) h = elim (Bool-cases (e.txid == txid)) [
      | inl q ↦ rw q (queue_effect (sb_getblk sb lba) (rw q at h))
      | inr q ↦ rw q (refl, refl, sym (append-nil v.bh_list))
    ]

  lookup_same :
      (w w' : Olayer K) (b : ℕ)
      → w'.ipu_tree ≡ w.ipu_tree
      → w'.blocks_per_group ≡ w.blocks_per_group
      → index_lookup K w' b ≡ index_lookup K w b
  unfolding index_lookup
  lookup_same w w' b p q = rw (p, q)

  module _ (sb txid : ℕ) where
    first_ok :
        (n lba : ℕ) (v : Work K)
        → (commit_blocks K sb txid (suc n) lba v).0 ≡ ok
        → (commit_block K sb txid lba v).0 ≡ ok
    unfolding commit_blocks
    first_ok n lba v h = ground arith

    pub go_on :
        (n lba : ℕ) (v : Work K)
        → (commit_block K sb txid lba v).0 ≡ ok
        → commit_blocks K sb txid (suc n) lba v
          ≡ commit_blocks K sb txid n (lba + 1) (commit_block K sb txid lba v).1
    unfolding commit_blocks
    go_on n lba v h = rw (h, commit_blocks)

    pub go_stop :
        (n lba : ℕ) (v : Work K)
        → (commit_block K sb txid lba v).0 ≡ enomem
        → commit_blocks K sb txid (suc n) lba v ≡ (enomem, (commit_block K sb txid lba v).1)
    unfolding commit_blocks
    go_stop n lba v h = rw (h, commit_blocks)

    block_lookup :
        (lba b : ℕ) (v : Work K)
        → lba < 2 ^ 32
        → b < 2 ^ 32
        → 1 ≤ v.layer.blocks_per_group
        → (commit_block K sb txid lba v).0 ≡ ok
        → index_lookup K (commit_block K sb txid lba v).1.layer b
          ≡ (if lba == b then none else index_lookup K v.layer b)
    unfolding commit_block
    block_lookup lba b v hl hb hn h =
        lookup_same (index_delete K v.layer lba)
          (commit_found K sb txid lba (index_lookup K v.layer lba) deleted).1.layer b effect.0
          effect.1
        ∙ lookup-index_delete K v.layer lba b hl hb hn
      where
        deleted : Work K
        deleted = record v { layer = index_delete K v.layer lba }

        effect :
            ((commit_found K sb txid lba (index_lookup K v.layer lba) deleted).1.layer.ipu_tree
              ≡ (index_delete K v.layer lba).ipu_tree)
            × ((commit_found K sb txid lba
                  (index_lookup K v.layer lba)
                  deleted).1.layer.blocks_per_group
                ≡ v.layer.blocks_per_group)
        effect =
            let f = found_effect sb txid lba deleted (index_lookup K v.layer lba) h in (f.0, f.1)

    block_rest :
        (lba : ℕ) (v : Work K)
        → (commit_block K sb txid lba v).0 ≡ ok
        → ((commit_block K sb txid lba v).1.layer.blocks_per_group ≡ v.layer.blocks_per_group)
          × ((commit_block K sb txid lba v).1.bh_list
              ≡ v.bh_list ++ due_entry sb txid lba (index_lookup K v.layer lba))
    unfolding commit_block
    block_rest lba v h =
        let f =
          found_effect sb txid lba (record v { layer = index_delete K v.layer lba })
            (index_lookup K v.layer lba) h in
        (f.1, f.2)

    cleared :
        (n lba : ℕ) (v : Work K)
        → lba + n ≤ 2 ^ 32
        → 1 ≤ v.layer.blocks_per_group
        → (commit_blocks K sb txid n lba v).0 ≡ ok
        → (b : ℕ) → b < 2 ^ 32
        → index_lookup K (commit_blocks K sb txid n lba v).1.layer b
          ≡ (if leb lba b && ltb b (lba + n) then none else index_lookup K v.layer b)
    unfolding commit_blocks
    cleared zero lba v fits hn h b hb = rw (empty_range lba b)
    cleared (suc n) lba v fits hn h b hb =
        ap (λ r. index_lookup K r.1.layer b) (go_on n lba v first)
        ∙ cleared n (lba + 1) (commit_block K sb txid lba v).1 (omega arith)
            (omega (arith, (block_rest lba v first).0))
            (ap (λ r. r.0) (sym (go_on n lba v first)) ∙ h) b hb
        ∙ ap (λ o. if leb (lba + 1) b && ltb b (lba + 1 + n) then none else o)
            (block_lookup lba b v (omega arith) hb hn first)
        ∙ one_more lba n b (index_lookup K v.layer b)
      where
        first : (commit_block K sb txid lba v).0 ≡ ok
        first = first_ok n lba v h

    queued :
        (n lba : ℕ) (v : Work K)
        → lba + n ≤ 2 ^ 32
        → 1 ≤ v.layer.blocks_per_group
        → (commit_blocks K sb txid n lba v).0 ≡ ok
        → (commit_blocks K sb txid n lba v).1.bh_list
          ≡ v.bh_list ++ due sb txid n lba (index_lookup K v.layer)
    unfolding commit_blocks due
    queued zero lba v fits hn h = sym (append-nil v.bh_list)
    queued (suc n) lba v fits hn h =
        ap (λ r. r.1.bh_list) (go_on n lba v first)
        ∙ queued n (lba + 1) (commit_block K sb txid lba v).1 (omega arith)
            (omega (arith, (block_rest lba v first).0))
            (ap (λ r. r.0) (sym (go_on n lba v first)) ∙ h)
        ∙ ap₂ ◌++◌ (block_rest lba v first).1 (
            due-cong sb txid n (lba + 1) _ (index_lookup K v.layer) (λ b p q.
              block_lookup lba b v (omega arith) (omega arith) hn first
              ∙ rw (==_ne lba b (omega arith))))
        ∙ append_assoc v.bh_list _ _
      where
        first : (commit_block K sb txid lba v).0 ≡ ok
        first = first_ok n lba v h

  -- For an entry that names `n` blocks from `lba` on, all block numbers of 32 bits: unless memory
  -- runs out, the routine queues, in order and after those that are queued already, the buffer of
  -- each block whose newest journaled copy is of transaction `txid`, and of no other; and it takes
  -- every one of the `n` blocks out of the index, whatever the transaction of its copy, and leaves
  -- the other blocks there.
  pub commit_blocks-due :
      (sb txid n lba : ℕ) (v : Work K)
      → lba + n ≤ 2 ^ 32
      → 1 ≤ v.layer.blocks_per_group
      → (commit_blocks K sb txid n lba v).0 ≡ ok
      → ((commit_blocks K sb txid n lba v).1.bh_list
          ≡ v.bh_list ++ due sb txid n lba (index_lookup K v.layer))
        × ((b : ℕ)
            → b < 2 ^ 32
            → index_lookup K (commit_blocks K sb txid n lba v).1.layer b
              ≡ (if leb lba b && ltb b (lba + n) then none else index_lookup K v.layer b))
  commit_blocks-due sb txid n lba v fits hn h =
      (queued sb txid n lba v fits hn h, cleared sb txid n lba v fits hn h)
