-- ===== src/Examples/Walk.antt =====
-- The theorems on the walk over the entries and on the commit of a queue, applied.
use ccnvme.Prelude.{
  ℕ, ◌+◌, ◌^◌, ◌<◌, ◌≡◌, arith, ◌&&◌, none, some, List, [], ◌∷◌, ◌++◌, map, refl, ltb, leb,
  if◌then◌else◌,
}
use ccnvme.Ometa.{Ometa}
use ccnvme.State.{stream_ometa_at, Olayer}
use ccnvme.Ring.{ring_count}
use ccnvme.Ring.Window.{visited, indices}
use ccnvme.Scan.{Phase, find_begin, scan}
use ccnvme.Scan.Run.{last_phase, commit_all}
use ccnvme.Scan.Transactions.{committed, scan_refines}
use ccnvme.Scan.Atomic.{scan-finished, scan-unfinished}
use ccnvme.Ipu.{group_idx, tree_idx, tree_off}
use ccnvme.Commit.{
  Work, commit_blocks, commit_write, index_lookup, index_delete, commit_block, commit_found,
  queue_buffer,
}
use ccnvme.Commit.Entry.{due, commit_blocks-due}
use ccnvme.Commit.Laws.{frame, commit_write_total, commit_write-unfinished}
use ccnvme.Examples.{host, busy, open_tx, layer_of, busy-IsRing, open_tx-IsRing}

-- what a commit leaves behind: the block and the transaction
abbrev note : Ometa → ℕ → List (ℕ × ℕ) → List (ℕ × ℕ)
note o txid l = (o.lba, txid) ∷ l

abbrev at : ℕ → Ometa
at = stream_ometa_at busy

scan_refines_example :
    scan 4 at at note 4 0 3 find_begin []
    ≡ some (
      last_phase 4 at (visited 4 0 3) find_begin,
      commit_all at note (committed at none (visited 4 0 3)) [],
    )
scan_refines_example = scan_refines 4 (omega arith) at at note 0 3 [] (omega arith) (omega arith)

scan-finished_example :
    (p : Phase) × (scan 4 at at note 4 0 3 find_begin []
      ≡ some (
        p,
        commit_all at note
            (committed at none [])
            (commit_all at note (map (λ k. (k, (at 2).txid)) (1 ∷ [])) []),
      ))
unfolding stream_ometa_at visited indices ring_count
scan-finished_example =
    scan-finished 4 at at note 0 3 [] (1 ∷ []) [] 0 2 [] (omega arith) (omega arith) (omega arith)
      refl tt refl (refl, tt) refl

scan-unfinished_example : (p : Phase) × (scan 4 at at note 4 0 2 find_begin [] ≡ some (p, []))
unfolding stream_ometa_at visited indices ring_count
scan-unfinished_example =
    scan-unfinished 4 at at note 0 2 [] (1 ∷ []) 0 [] (omega arith) (omega arith) (omega arith) refl
      tt refl (refl, tt)

abbrev started : Work host
started = record { layer = layer_of busy; bh_list = [] }

commit_blocks-due_example :
    ((commit_blocks host 5 7 1 41 started).1.bh_list
      ≡ [] ++ due host 5 7 1 41 (index_lookup host (layer_of busy)))
    × ((b : ℕ)
        → b < 2 ^ 32
        → index_lookup host (commit_blocks host 5 7 1 41 started).1.layer b
          ≡ (if leb 41 b && ltb b (41 + 1) then none else index_lookup host (layer_of busy) b))
unfolding commit_blocks commit_block commit_found queue_buffer index_lookup index_delete group_idx
    tree_idx tree_off
commit_blocks-due_example = commit_blocks-due host 5 7 1 41 started (omega arith) (omega arith) refl

commit_write_total_example :
    (w' : Olayer host) × (commit_write host busy (layer_of busy) ≡ some w')
    × (frame host w' ≡ frame host (layer_of busy))
commit_write_total_example = commit_write_total host busy (layer_of busy) busy-IsRing

commit_write-unfinished_example :
    commit_write host open_tx (layer_of open_tx) ≡ some (layer_of open_tx)
unfolding stream_ometa_at visited indices ring_count
commit_write-unfinished_example =
    commit_write-unfinished host open_tx (layer_of open_tx) [] (1 ∷ []) 0 open_tx-IsRing refl tt
      refl (refl, tt)
