-- ===== src/Examples/Journal.antt =====
-- The theorems on the journal region, the index and the checkpoint, applied.
use ccnvme.Prelude.{
  ℕ, ◌+◌, ◌-◌, ◌*◌, ◌/◌, ◌^◌, ◌≤◌, ◌<◌, ◌≡◌, arith, ◌&&◌, some, ◌∷◌, ltb, leb, if◌then◌else◌,
}
use ccnvme.Kernel.{Bio, submit_bio_wait}
use ccnvme.State.{Olayer, stream_at}
use ccnvme.Ring.{ring_space}
use ccnvme.Commit.{index_lookup}
use ccnvme.Journal.{no_block, reserve, alloc_journal_block, journal_write_alloc, note_blocks}
use ccnvme.Journal.Bounds.{Reserved}
use ccnvme.Journal.Alloc.{alloc-too_large, journal_write-Reserved}
use ccnvme.Journal.Index.{newest, note_blocks-newest}
use ccnvme.Checkpoint.{nr_journal_region_block, stream_do_checkpoint, write_checkpoint}
use ccnvme.Checkpoint.Space.{Keeping, do_checkpoint-space}
use ccnvme.Checkpoint.Region.{write_checkpoint-in_journal}
use ccnvme.Examples.{host, busy, layer_of, two_blocks, busy-IsSound}

abbrev w : Olayer host
w = layer_of busy

abbrev two_mb : Olayer host
two_mb = record w { journal_size = 2 }

alloc-too_large_example :
    alloc_journal_block host 0 two_blocks 17 w ≡ some (no_block, two_blocks, w)
unfolding stream_at
alloc-too_large_example = alloc-too_large host 0 17 two_blocks w (omega arith)

journal_write-Reserved_example :
    (ptr : ℕ) × (w1 : Olayer host) × (w' : Olayer host) × (journal_write_alloc host 0 two_blocks w
      ≡ some (ptr, record two_blocks { dev = w'.cp_dev; sector = ptr * 8 }, w'))
    × (reserve host 0 2 w ≡ some (ptr, w1))
    × Reserved host 0 2 ptr w w'
    × ((b : ℕ)
        → b < 2 ^ 32
        → 1 ≤ w1.blocks_per_group
        → index_lookup host w' b ≡ (
            if leb 41 b && ltb b (41 + 2)
            then newest (stream_at host w' 0).last_txid b (ptr + (b - 41)) (index_lookup host w1 b)
            else index_lookup host w1 b))
unfolding stream_at
journal_write-Reserved_example =
    journal_write-Reserved host 0 two_blocks w busy-IsSound (omega arith) (omega arith)

note_blocks-newest_example : index_lookup host (note_blocks host 8 2 41 5 w) 42 ≡ (
    if leb 41 42 && ltb 42 (41 + 2)
    then newest 8 42 (5 + (42 - 41)) (index_lookup host w 42)
    else index_lookup host w 42)
note_blocks-newest_example =
    note_blocks-newest host 8 2 41 5 w 42 (omega arith) (omega arith) (omega arith)

do_checkpoint-space_example :
    (w' : Olayer host) × (stream_do_checkpoint host 0 2 w ≡ some w')
    × Keeping host 0 w w'
    × (2
        ≤ ring_space
            (stream_at host w' 0).head
            (stream_at host w' 0).tail
            (stream_at host w' 0).nr_ometa)
unfolding stream_at
do_checkpoint-space_example = do_checkpoint-space host 0 2 w busy-IsSound (omega arith)

write_checkpoint-in_journal_example :
    (bio : Bio) × ((write_checkpoint host busy two_mb).io ≡ submit_bio_wait bio ∷ two_mb.io)
    × (bio.dev ≡ two_mb.cp_dev)
    × (bio.sector / 8 < nr_journal_region_block two_mb.journal_size)
    × (bio.sector / 8 + bio.size / 4096 ≤ nr_journal_region_block two_mb.journal_size)
write_checkpoint-in_journal_example =
    write_checkpoint-in_journal host busy two_mb (omega arith) (omega arith)
