-- ===== src/Examples/Files/Sync.antt =====
-- Files synced: one whose data is written, one with nothing left to write, the wait for whose data
-- fails, and one whose data cannot be submitted.
use ccnvme.Prelude.{ℕ, ◌≡◌, arith, refl, true, false, some, []}
use ccnvme.State.{Olayer}
use ccnvme.Mqfs.{Sbi, Mqfs, Vfs, eio}
use ccnvme.Mqfs.Streams.{get_free_stream, with_lock}
use ccnvme.Mqfs.{set_inode}
use ccnvme.Mqfs.Buffers.{
  mqfs_submit_mapping_buffers, wait_each, mqfs_wait_mapping_buffers, tx_write_wait_inode_buffer,
}
use ccnvme.Mqfs.Inodes.{mqfs_atomic_write_parent_submit, climb}
use ccnvme.Mqfs.Sync.{
  end_tx, submit_file, generic_file_atomic_write_submit, file_tag_streamwrite_range,
  mapping_needs_writeback, inode_lock, submit_locked, submit_out, generic_file_atomic_write_wait,
  inode_unlock, ext4_sync_file,
}
use ccnvme.Mqfs.Sync.Order.{end_tx_total}
use ccnvme.Mqfs.Sync.Result.{begun, sync_file-hides_errors, sync_file-unlocks_unheld}
use ccnvme.Examples.{host, busy, layer_of}
use ccnvme.Examples.Files.{vfs, files, plain_file, one_stream, mount, files-Ready}

abbrev locked_sbi : Sbi
locked_sbi = with_lock one_stream 0 true

-- the end of a transaction on the stream
ended : (l : Olayer host) × (end_tx host vfs 0 (layer_of busy) ≡ some l)
ended = end_tx_total host vfs 0 2 (omega arith) (layer_of busy) files-Ready

-- a file with nothing to write but its data, and that after its submission
abbrev clean_files : Mqfs host
clean_files = record files {
  inodes = λ ino. record plain_file {
    private_list = [];
    has_buffer_mapping = false;
    newentry = false;
    dirty_all = false;
  };
}

abbrev submitted_files : Mqfs host
submitted_files =
    set_inode host 0 (record (clean_files.inodes 0) { held = true })
      (begun host vfs locked_sbi clean_files)

abbrev ended_files : Olayer host → Mqfs host
ended_files l = record submitted_files { layer = l }

sync_file-hides_errors_example :
    (w' : Mqfs host) × (ext4_sync_file host vfs mount 1 0 0 0 10 false clean_files ≡ some (0, w'))
unfolding get_free_stream submit_file generic_file_atomic_write_submit file_tag_streamwrite_range
    mapping_needs_writeback inode_lock submit_locked submit_out mqfs_submit_mapping_buffers
    mqfs_atomic_write_parent_submit climb generic_file_atomic_write_wait tx_write_wait_inode_buffer
    wait_each mqfs_wait_mapping_buffers inode_unlock set_inode
sync_file-hides_errors_example =
    sync_file-hides_errors host vfs mount 1 0 0 0 10 0 eio false locked_sbi clean_files
      submitted_files (inode_unlock host vfs 0 (ended_files ended.0)) ended.0 refl refl refl refl
      ended.1 refl

-- a kernel that cannot submit the data
abbrev failing : Vfs host
failing = record vfs { stream_write = λ ino start end sid l. some (eio, l) }

ended_failing : end_tx host failing 0 (layer_of busy) ≡ some ended.0
unfolding end_tx
ended_failing = ended.1

sync_file-unlocks_unheld_example :
    (r : ℕ) × (w' : Mqfs host) × (ext4_sync_file host failing mount 1 0 3 0 10 false files
      ≡ some (r, w'))
    × (w'.bad_unlocks ≡ 1)
unfolding get_free_stream file_tag_streamwrite_range mapping_needs_writeback
sync_file-unlocks_unheld_example =
    sync_file-unlocks_unheld host failing mount 1 0 3 0 10 0 4 false locked_sbi files
      (begun host failing locked_sbi files) ended.0 refl refl refl refl ended_failing refl
