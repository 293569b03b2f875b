-- ===== src/Recovery.antt =====
-- Shutdown and recovery, ccnvme/recovery.c: commit_write_entry, graceful_shutdown,
-- crash_recovery_commit_write and olayer_crash_recovery.
pub mod Laws
use ccnvme.Prelude.{
  ℕ, zero, suc, ◌+◌, ◌*◌, min, Bool, true, false, Option, none, some, List, [], ◌∷◌, ltb, leb, ◌==◌,
  if◌then◌else◌, ◌>>=◌,
}
use ccnvme.Ring.{u32}
use ccnvme.Ometa.{Ometa}
use ccnvme.Kernel.{Kernel, Bio, Opf, IpuEntry, write_bh, wait_on_buffer, put_page, submit_bio_wait}
use ccnvme.State.{Stream, stream_ometa_at, Olayer, emit, stream_at}
use ccnvme.Commit.{index_lookup, index_delete}
use ccnvme.Cmb.{cmb_read}
use ccnvme.Scan.{Phase, find_begin, scan}

-- REQ_SYNC reads and writes
abbrev pub sync_opf : Opf
sync_opf = record {
  ordered = false;
  barrier = false;
  fua = false;
  preflush = false;
  tx = false;
  tx_commit = false;
  meta = false;
  prio = false;
  rest = 0;
}

module _ (K : Kernel) where
  open K use {sb_getblk, buffer_locked}

  -- a buffer that the recovery has found an entry for; without memory the pointer is null, and the
  -- kernel faults there, which is `none`
  unfoldable pub write_back : Option ℕ → Olayer K → Option (Olayer K)
  write_back none w = none
  write_back (some bh) w =
      let w1 = if buffer_locked w.io bh then w else emit K (write_bh bh) w in
      some (emit K (put_page bh) (emit K (wait_on_buffer bh) w1))

  unfoldable pub recover_found : ℕ → ℕ → Option IpuEntry → Olayer K → Option (Olayer K)
  unfolding write_back
  recover_found sb lba none w = some w
  recover_found sb lba (some entry) w = write_back (sb_getblk sb lba) w

  -- commit_write_entry: every block of the entry that the index has, whatever its transaction
  unfoldable pub recover_blocks : ℕ → ℕ → ℕ → Olayer K → Option (Olayer K)
  recover_blocks sb zero lba w = some w
  recover_blocks sb (suc n) lba w =
      let r = recover_found sb lba (index_lookup K w lba) (index_delete K w lba) in
      elim r [ none ↦ none | some w' ↦ recover_blocks sb n (lba + 1) w' ]

  unfoldable pub commit_write_entry : ℕ → Ometa → ℕ → Option (Olayer K) → Option (Olayer K)
  unfolding recover_blocks
  commit_write_entry sb o txid none = none
  commit_write_entry sb o txid (some w) = recover_blocks sb o.length o.lba w

  -- The loop over the streams. The phase is set once, before it, and goes on from one stream to the
  -- next.
  unfoldable pub shutdown_streams :
      ℕ → List ℕ → Phase → Option (Olayer K) → Option (Phase × Option (Olayer K))
  unfolding commit_write_entry
  shutdown_streams sb [] phase w = some (phase, w)
  shutdown_streams sb (sid ∷ sids) phase none = some (phase, none)
  shutdown_streams sb (sid ∷ sids) phase (some w) =
      let s = stream_at K w sid in
      let rest = λ (r : Phase × Option (Olayer K)). shutdown_streams sb sids r.0 r.1 in
      if leb w.nr_streams sid
      then rest (phase, some w)
      else scan s.nr_ometa (stream_ometa_at s) (stream_ometa_at s) (commit_write_entry sb)
          s.nr_ometa s.head s.flushed phase (some w)
        >>= rest

  unfoldable pub graceful_shutdown : List ℕ → ℕ → Olayer K → Option (Phase × Option (Olayer K))
  unfolding shutdown_streams
  graceful_shutdown sids sb w = shutdown_streams sb sids find_begin (some w)

  -- One entry is read from the journal and written home, 256 pages at most; `plba * 8` is a u32.
  unfoldable pub crash_recovery_commit_write : ℕ → Ometa → ℕ → Olayer K → Olayer K
  crash_recovery_commit_write bd o txid w =
      let bytes = min o.length 256 * 4096 in
      emit K
        (submit_bio_wait (record { dev = bd; sector = o.lba * 8; size = bytes; opf = sync_opf }))
        (emit K
          (submit_bio_wait
            (record { dev = w.cp_dev; sector = u32 (o.plba * 8); size = bytes; opf = sync_opf }))
          w)

  -- `buffer sid` is what cmb_read has brought from the stream's part of the device: the marks are
  -- read there, the entries in between in the host's memory.
  unfoldable pub recover_streams :
      (ℕ → ℕ → Ometa) → ℕ → ℕ → ℕ → Phase → Olayer K → Option (Phase × Olayer K)
  unfolding crash_recovery_commit_write
  recover_streams buffer bd zero sid phase w = some (phase, w)
  recover_streams buffer bd (suc n) sid phase w =
      let s = stream_at K w sid in
      let rest = λ (r : Phase × Olayer K). recover_streams buffer bd n (sid + 1) r.0 r.1 in
      scan s.nr_ometa (buffer sid) (stream_ometa_at s) (crash_recovery_commit_write bd) s.nr_ometa
        s.head s.flushed phase (cmb_read K s 0 s.ometa_size w)
      >>= rest

  unfoldable pub olayer_crash_recovery : (ℕ → ℕ → Ometa) → ℕ → Olayer K → Option (Phase × Olayer K)
  unfolding recover_streams
  olayer_crash_recovery buffer bd w = recover_streams buffer bd w.nr_streams 0 find_begin w
