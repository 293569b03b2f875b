-- ===== src/Checkpoint/Region.antt =====
-- Where write_checkpoint (ccnvme/checkpoint.c) sends its pages.
use ccnvme.Prelude.{◌+◌, ◌*◌, ◌/◌, ◌^◌, ◌≤◌, ◌<◌, ◌≡◌, arith, ◌∷◌, refl}
use ccnvme.Kernel.{Kernel, Bio, submit_bio_wait}
use ccnvme.State.{Stream, Olayer, emit}
use ccnvme.Checkpoint.{
  write_checkpoint, checkpoint_pages, cp_region_start, nr_journal_region_block, sync_fua,
}

module _ (K : Kernel) where
  -- With a journal of at least two and fewer than 2^24 MB, the checkpoint of a queue is written
  -- inside the journal region of the device, from its first block to its last: the start of the
  -- checkpoint region is counted in blocks, and stands in the bio as a number of sectors, eight to a
  -- block, and there are 256 pages at most.
  pub write_checkpoint-in_journal :
      (s : Stream) (w : Olayer K)
      → 2 ≤ w.journal_size
      → w.journal_size < 2 ^ 24
      → (bio : Bio) × ((write_checkpoint K s w).io ≡ submit_bio_wait bio ∷ w.io)
        × (bio.dev ≡ w.cp_dev)
        × (bio.sector / 8 < nr_journal_region_block w.journal_size)
        × (bio.sector / 8 + bio.size / 4096 ≤ nr_journal_region_block w.journal_size)
  unfolding write_checkpoint checkpoint_pages emit
  write_checkpoint-in_journal s w lo hi = (
    record {
      dev = w.cp_dev;
      sector = cp_region_start w.journal_size;
      size = checkpoint_pages K s * 4096;
      opf = sync_fua;
    },
    refl,
    refl,
    omega arith,
    omega (arith, pages),
  )
    where
      pages : checkpoint_pages K s ≤ 256
      pages = omega arith
