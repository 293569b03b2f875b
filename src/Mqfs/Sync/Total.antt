-- ===== src/Mqfs/Sync/Total.antt =====
-- A whole fsync (mqfs/fsync.c, ext4_sync_file): it comes back, and its transaction is sent in order.
use ccnvme.Prelude.{◌+◌, ◌%◌, ◌^◌}
use ccnvme.Kernel.{Kernel}
use ccnvme.Mqfs.{Sbi, Mqfs}

-- the number of a transaction taken: atomic_inc_return
abbrev counted : Sbi → Sbi
counted s = record s { txid_alloc = (s.txid_alloc + 1) % 2 ^ 32 }
