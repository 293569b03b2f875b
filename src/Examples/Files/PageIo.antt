-- ===== src/Examples/Files/PageIo.antt =====
-- Four buffers of a file, the last of which does not follow the others, in bios of two pages.
use ccnvme.Prelude.{ℕ, ◌≡◌, refl, Bool, true, false, none, some, List, [], ◌∷◌, ◌++◌, map, ltb}
use ccnvme.Kernel.{BufferHead}
use ccnvme.Mqfs.PageIo.{IoSubmit, Route, BlockLayer, wb_tx_write, ext4_io_submit}
use ccnvme.Mqfs.PageIo.Runs.{sent_blocks, add_all, add_all-covers}

abbrev two_pages : BlockLayer
two_pages = record { has_bio = λ bh. true; takes = λ bio n. ltb bio.size 8192 }

abbrev page : ℕ → BufferHead × Bool
page n = (record { blocknr = n; b_size = 4096; bdev = 3; is_meta = false; is_prio = false }, true)

abbrev pages : List (BufferHead × Bool)
pages = page 40 ∷ page 41 ∷ page 42 ∷ page 60 ∷ []

abbrev new_io : IoSubmit
new_io = record {
  io_bio = none;
  io_next_block = 0;
  overwrite = false;
  sync_mode = wb_tx_write;
  stream = 0;
}

add_all-covers_example :
    (out : List Route) × (io' : IoSubmit) × (add_all two_pages pages new_io ≡ some (0, out, io'))
    × (sent_blocks (out ++ (ext4_io_submit io').0) ≡ map (λ x. (x.0).blocknr) pages)
add_all-covers_example =
    add_all-covers two_pages (λ bh. refl) (λ bio n e. rw e refl) pages new_io
      (refl, (refl, (refl, (refl, tt)))) tt
