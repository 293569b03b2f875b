-- ===== src/Examples/Files/Buffers.antt =====
-- Two dirty buffers of a file submitted and waited for, and an inode's buffer copied.
use mathlib.Core.List.{reverse}
use ccnvme.Prelude.{ℕ, ◌≡◌, ◌||◌, arith, refl, true, false, some, [], ◌∷◌, if◌then◌else◌}
use ccnvme.Bio.{bh2bio, guard_bio_eod}
use ccnvme.Submit.{horae_path, op_is_ordered_write, op_is_barrier_write}
use ccnvme.Submit.Chain.{Ready, Fits}
use ccnvme.Mqfs.{Mqfs, eio}
use ccnvme.Mqfs.Buffers.{
  mqfs_submit_mapping_buffers, mqfs_wait_mapping_buffers, tx_write_wait_inode_buffer, copy_out_bh,
  osync_buffers_list, release_copy_out_bh, not_uptodate, requested_not_uptodate,
}
use ccnvme.Mqfs.Buffers.Waits.{any_failed, Idle}
use ccnvme.Mqfs.Buffers.Osync.{one_pass, osync-eq-one_pass, behind_pending, wait_mapping-reports}
use ccnvme.Mqfs.Buffers.Sharing.{rest, block_of, tx_write_wait-reports, copy_out_roundtrip}
use ccnvme.Mqfs.Buffers.Dirty.{bio_of}
use ccnvme.Mqfs.Buffers.Sends.{Submitted, submit_mapping-Submitted}
use ccnvme.Mqfs.Inodes.Phase.{IsSane}
use ccnvme.Examples.{host}
use ccnvme.Examples.Files.{vfs, files, dirty_block, plain_file, files-Ready}

pub dirty_block-Fits : Fits host 2 (bio_of host dirty_block)
unfolding bh2bio guard_bio_eod horae_path op_is_ordered_write op_is_barrier_write
dirty_block-Fits = record { path = refl; few = omega arith; small = omega arith }

submit_mapping-Submitted_example :
    (w' : Mqfs host) × (mqfs_submit_mapping_buffers host vfs 3 0 files ≡ some w')
    × Submitted host vfs 3 0 (1 ∷ 2 ∷ []) files w'
    × Ready host 0 2 w'.layer
submit_mapping-Submitted_example =
    submit_mapping-Submitted host vfs 3 0 2 files refl (omega arith) files-Ready
      (dirty_block-Fits, (dirty_block-Fits, tt))

-- the same file with its buffers under way, two of them pending and one copied
abbrev busy_files : Mqfs host
busy_files = record files {
  buffers = λ b. record dirty_block { dirty = false; locked = true; req = true };
  inodes = λ ino. record plain_file {
    fsmeta_pending_list = 3 ∷ 4 ∷ [];
    inodemeta_pending_list = 20 ∷ [];
    copyout_inode_list = 100 ∷ [];
  };
  heads = 1;
  pages = 1;
}

osync-eq-one_pass_example :
    osync_buffers_list host vfs 3 (1 ∷ 2 ∷ []) 0 busy_files
    ≡ some (one_pass host vfs (1 ∷ 2 ∷ []) 0 busy_files)
osync-eq-one_pass_example = osync-eq-one_pass host vfs (1 ∷ 2 ∷ []) 3 0 busy_files (omega arith)

wait_mapping-reports_example :
    let w1 = behind_pending host vfs 3 busy_files in
    let l = reverse (w1.inodes 3).private_list in
    (r : ℕ) × (w' : Mqfs host) × (mqfs_wait_mapping_buffers host vfs 3 busy_files ≡ some (r, w'))
    × Idle (4 ∷ 3 ∷ []) w'.buffers
    × (r ≡ (
        if any_failed not_uptodate w'.buffers (4 ∷ 3 ∷ [])
        then eio
        else (one_pass host vfs l 0 w1).0))
    × (w' ≡ (one_pass host vfs l 0 w1).1)
wait_mapping-reports_example = wait_mapping-reports host vfs 3 busy_files refl

tx_write_wait-reports_example :
    let r = tx_write_wait_inode_buffer host vfs 3 busy_files in
    (r.0 ≡ (
      if any_failed requested_not_uptodate r.1.buffers (100 ∷ [])
        || any_failed requested_not_uptodate r.1.buffers (20 ∷ [])
      then eio
      else 0))
    × Idle (100 ∷ []) r.1.buffers
    × Idle (20 ∷ []) r.1.buffers
    × (r.1.heads ≡ 0)
    × (r.1.pages ≡ 0)
tx_write_wait-reports_example = tx_write_wait-reports host vfs 3 busy_files

copy_out_roundtrip_example :
    (w' : Mqfs host) × (copy_out_bh host vfs 20 files ≡ some (0, 100, w'))
    × (block_of host vfs (w'.buffers 100) ≡ block_of host vfs dirty_block)
    × (block_of host vfs (w'.buffers 20) ≡ block_of host vfs dirty_block)
    × ((w'.buffers 100).b_private ≡ 4096)
    × (w'.ranges 4096 ≡ some 4096)
    × (rest host vfs (release_copy_out_bh host vfs 100 w') ≡ rest host vfs files)
copy_out_roundtrip_example = copy_out_roundtrip host vfs 20 files refl refl refl (omega arith)

-- all buffers of the file system fit
pub files-IsSane : IsSane host 2 files
files-IsSane = record { fits = λ b. (dirty_block-Fits, refl); distinct = λ ino. omega arith }
