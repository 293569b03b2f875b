-- ===== src/Lib.antt =====
-- ccNVMe: crash-consistent NVMe submission queues, a kernel module in C (ccnvme/).
--
-- The file system hands writes to a stream. A stream has a submission queue, a ring of 64-byte
-- entries that is kept in host memory and copied into the memory buffer of the NVMe controller; a
-- journal region on a device, where writes are redirected to; and an index that says where the
-- newest journaled copy of a block lies. A transaction is committed by marking its end and
-- ringing a doorbell. When queue or journal are full, and at shutdown, the walk over the queue
-- looks for whole transactions and writes their blocks home.
--
-- Files:
--   Ring, Ometa, Ipu, Kernel, State: the data of ccnvme/horae.h. Ring is horae_ring_space and
--     horae_count, Ometa the queue entry and its tags, Ipu the place of a block in the index, State
--     struct stream and struct olayer_info. Kernel is what the module calls in Linux.
--   Submit: ccnvme/horae.c, the append to a queue, the commit and the entry points.
--   Race: the compare-and-swap loops of that append, for several threads, as a step relation.
--   Scan: the walk over the entries that three functions of ccnvme/checkpoint.c and
--     ccnvme/recovery.c spell out; `act` is the commit routine of each.
--   Commit, Journal, Checkpoint: ccnvme/checkpoint.c.
--   Cmb: ccnvme/cmb.c, and in Map its set-up. Flush: ccnvme/flush.c.
--   Bio, Delegate: ccnvme/submitter.c, bh2bio and the background submitters.
--   Recovery: ccnvme/recovery.c.
--   Register: setting streams up and handing them out, ccnvme/horae.c. Kfifo is the queue of Linux
--     that holds the free ones.
--   Mqfs: the parts of mqfs/ that use the module. Mqfs.antt is the state: buffers, inodes and
--     the fields that mqfs/ext4.h adds to the super block. Streams: get_free_stream and
--     put_stream. Buffers: the metadata buffers of mqfs/filemap_compat.c and the copies of
--     mqfs/page_sharing.c. Inodes: ext4_write_inode of mqfs/inode.c and the climb over the new
--     directories. Sync: mqfs/fsync.c. PageIo: mqfs/page-io.c, how the blocks of a file become
--     bios. Super: mqfs/super.c, how a mount takes its streams and gives them back.
--   Examples: a kernel and states at which the theorems are applied.
--
-- State is passed on explicitly: an operation takes the state Olayer and returns the next one.
-- Calls that reach a device or the buffer cache are appended to the list `io`, newest first; so is
-- the move of `flushed` in a flush of the devices. The functions are those of the default build:
-- USE_CMB on; DISABLE_MQ_JOURNAL, USE_AEP, OLAYER_ANALYSIS, DISABLE_TX_DOORBELL and
-- ENABLE_BG_SUBMITTER off.
--
-- The Linux kernel is the parameter Kernel: a radix tree with the laws of lookup, insertion,
-- store and deletion; whether a buffer can be had and is locked; the capacity, write cache and
-- queue of a device; the number of processors. Kfifo and Pci are further parameters of the
-- set-up. A disk's number is that of a device, `disk_devt`. Unsigned words keep their
-- wrap-around wherever the code's quantities can reach it. A stream's ring has at most 2^31 entries
-- where the walks' indices are C ints.
--
-- For Mqfs there are the parameters Vfs, what it calls in Linux, in the patch to Linux and in
-- ext4, and BlockLayer, whether a bio is there and takes a page. A hypothesis of the theorems on
-- fsync, DataIsJournaled, says of the write of a file's data (filemap_fstreamwrite_tag_range,
-- which patch/mqfs.patch adds to Linux) that it comes back and enters nothing but journaled writes
-- in the stream's queue. Buffers are shared: an inode's lists hold the places of buffers in one
-- store. A write under way ends when it is waited for. __get_free_pages gives ranges that are
-- aligned to their size, if any.
--
-- Loops: the walk takes the ring's size as fuel for each of its loops, the append two rounds, the
-- cache-line loop its length and 64, the wait for a list of buffers one round more than it has
-- buffers, the gathering of a bio two rounds; that this is enough is proved. The climb over new
-- directories has a fuel that the theorems ask to reach the end of the new entries. `none` stands
-- for a loop that does not end, in Recovery for the fault at a null buffer, and in mqfs_alloc for a
-- BUG_ON.
--
-- Left out: locks, since the operations of a stream are run one after the other, but for Race;
-- memory that the kernel cannot give, where the code does not test for it; statistics and debug
-- output (ccnvme/debug.c, print_ometa); the allocation and release of the module's memory; the
-- sleeping and waking of the background submitters, which the build leaves off; of mqfs/, a copy
-- of ext4, all but the above, that is ext4's own code and the branches for a jbd2 journal, the
-- counts of inode references and the functions that fsync does not use; the copied driver
-- nvme-host/; the test driver ccnvme-test/.
pub mod Prelude
pub mod Ring
pub mod Ometa
pub mod Scan
pub mod Kernel
pub mod State
pub mod Bio
pub mod Ipu
pub mod Commit
pub mod Cmb
pub mod Journal
pub mod Checkpoint
pub mod Submit
pub mod Race
pub mod Delegate
pub mod Flush
pub mod Recovery
pub mod Kfifo
pub mod Register
pub mod Mqfs
pub mod Examples
