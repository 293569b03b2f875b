-- ===== src/Mqfs/Sync/Result.antt =====
-- What fsync returns, and what it leaves of the locks (mqfs/fsync.c, ext4_sync_file).
use ccnvme.Prelude.{
  ℕ, suc, ◌+◌, ◌%◌, ◌^◌, ◌≡◌, refl, ap, subst, ◌∙◌, arith, Bool, true, false, List, [], ◌∷◌, some,
  Option, Bool-cases, inl, inr, if◌then◌else◌, ◌==◌, ==_ne,
}
use mathlib.Core.List.{reverse}
use ccnvme.Mqfs.Buffers.Waits.{Idle}
use ccnvme.Mqfs.Buffers.Sharing.{tx_write_wait-reports}
use ccnvme.Ring.{ring_count}
use ccnvme.Kernel.{Kernel, wait_for_completion}
use ccnvme.State.{Stream, Olayer, emit, stream_at}
use ccnvme.Commit.Laws.{frame}
use ccnvme.Submit.{known_sid}
use ccnvme.Flush.{stream_blkdev_issue_flush, flush_all}
use ccnvme.Mqfs.{Sbi, Mount, Mqfs, Vfs, first_error, set_inode}
use ccnvme.Mqfs.Streams.{took, get_free_stream, put_stream}
use ccnvme.Mqfs.Buffers.{tx_write_wait_inode_buffer}
use ccnvme.Mqfs.Inodes.{mqfs_atomic_write_parent_wait, parent_wait}
use ccnvme.Mqfs.Sync.{
  inode_unlock, file_tag_streamwrite_range, generic_file_atomic_write_submit, submit_file, end_tx,
  generic_file_atomic_write_wait, submit_tx, wait_tx, flush_and_put, sync_on, if_writable,
  ext4_sync_file,
}
use ccnvme.Mqfs.Sync.Waits.{
  Idle-Waited, tx_write_wait-lists, Waited, Waited-trans, wait_mapping-Waited, tx_write_wait-Waited,
  parent_wait-Waited,
}

module _ (K : Kernel) where
  -- a flush of one device comes back
  flush_total :
      (dev sid : ℕ) (l : Olayer K)
      → (l' : Olayer K) × (stream_blkdev_issue_flush K (dev ∷ []) sid l ≡ some l')
  unfolding stream_blkdev_issue_flush flush_all
  flush_total dev sid l = elim (Bool-cases (ring_count s.head s.tail s.nr_ometa == 0)) [
    | inl e ↦ rw e (l, refl)
    | inr e ↦ rw e (_, refl)
  ]
    where
      s : Stream
      s = stream_at K l (known_sid K l sid)

  -- No buffer that waited in an inode's pending lists before is under way: neither of the inode
  -- itself, nor of its copies, nor of the metadata of its mapping.
  pub record FileIdle (ino : ℕ) (w w' : Mqfs K) : Type 0 where
    pub inodemeta : Idle (reverse (w.inodes ino).inodemeta_pending_list) w'.buffers
    pub copies : Idle (reverse (w.inodes ino).copyout_inode_list) w'.buffers
    pub fsmeta :
        (w.inodes ino).has_buffer_mapping ≡ true
        → Idle (reverse (w.inodes ino).fsmeta_pending_list) w'.buffers

  -- What the waits for a file and its directories leave.
  pub record Settled (ino : ℕ) (w w' : Mqfs K) : Type 0 where
    pub layer : frame K w'.layer ≡ frame K w.layer
    pub sbi : w'.sbi ≡ w.sbi
    pub balanced : (w.inodes ino).held ≡ true → w'.bad_unlocks ≡ w.bad_unlocks
    pub unbalanced : (w.inodes ino).held ≡ false → w'.bad_unlocks ≡ w.bad_unlocks + 1
    pub waited : FileIdle ino w w'

  module _ (V : Vfs K) where
    unlock-Settled :
        (ino : ℕ) (w u : Mqfs K)
        → Waited K w u
        → FileIdle ino w u
        → Settled ino w (inode_unlock K V ino u)
    unfolding inode_unlock set_inode
    unlock-Settled ino w u h f = elim (Bool-cases (u.inodes ino).held) [
      | inl e ↦ rw e (record {
        layer = h.layer;
        sbi = h.sbi;
        balanced = λ q. h.unlocks;
        unbalanced = λ q. cc (e, h.held ino, q);
        waited = record { inodemeta = f.inodemeta; copies = f.copies; fsmeta = f.fsmeta };
      })
      | inr e ↦ rw e (record {
        layer = h.layer;
        sbi = h.sbi;
        balanced = λ q. cc (e, h.held ino, q);
        unbalanced = λ q. ap (λ n. n + 1) h.unlocks;
        waited = record { inodemeta = f.inodemeta; copies = f.copies; fsmeta = f.fsmeta };
      })
    ]

    -- later waits leave the buffers that have been waited for
    FileIdle-Waited :
        (ino : ℕ) (w u u' : Mqfs K) → Waited K u u' → FileIdle ino w u → FileIdle ino w u'
    FileIdle-Waited ino w u u' h f = record {
      inodemeta =
          Idle-Waited K V (reverse (w.inodes ino).inodemeta_pending_list) u u' h f.inodemeta;
      copies = Idle-Waited K V (reverse (w.inodes ino).copyout_inode_list) u u' h f.copies;
      fsmeta =
          λ e. Idle-Waited K V (reverse (w.inodes ino).fsmeta_pending_list) u u' h (f.fsmeta e);
    }

    -- what the file's waits return, by the first error of the buffers
    file_result : ℕ → ℕ → Mqfs K → ℕ
    file_result ino ret w =
        if V.wb_err w.layer.io ino == 0
        then first_error ret (V.data_wait w.layer.io ino)
        else V.wb_err w.layer.io ino

    file_wait-Settled :
        (ino : ℕ) (w : Mqfs K)
        → (r : ℕ) × (w' : Mqfs K) × (generic_file_atomic_write_wait K V ino w ≡ some (r, w'))
          × Settled ino w w'
    unfolding generic_file_atomic_write_wait file_result
    file_wait-Settled ino w =
        let a = tx_write_wait_inode_buffer K V ino w in
        let x = wait_mapping-Waited K V ino a.1 in
        let reported = tx_write_wait-reports K V ino w in
        let lists = tx_write_wait-lists K V ino w in
        (
          file_result ino (first_error a.0 x.0) (inode_unlock K V ino x.1),
          inode_unlock K V ino x.1,
          rw (x.2) refl,
          unlock-Settled ino w x.1 (Waited-trans K w a.1 x.1 (tx_write_wait-Waited K V ino w) x.3)
              (record {
                inodemeta =
                    Idle-Waited K V (reverse (w.inodes ino).inodemeta_pending_list) a.1 x.1 x.3
                      reported.2;
                copies =
                    Idle-Waited K V (reverse (w.inodes ino).copyout_inode_list) a.1 x.1 x.3
                      reported.1;
                fsmeta = λ e.
                    subst (λ l. Idle (reverse l) (x.1).buffers) (ap (λ t. t.0) lists)
                      (x.4 (ap (λ t. t.1) lists ∙ e));
              }),
        )

    -- the waits of the directories behind those of the file
    parents-Settled :
        (sync_parent : Bool) (ws : List ℕ) (ino r : ℕ) (w u : Mqfs K)
        → Settled ino w u
        → (r' : ℕ) × (w' : Mqfs K) × ((if sync_parent
              then mqfs_atomic_write_parent_wait K V ws u
              else some (r, u))
            ≡ some (r', w'))
          × Settled ino w w'
    unfolding mqfs_atomic_write_parent_wait
    parents-Settled true ws ino r w u s =
        let x = parent_wait-Waited K V ws 0 u in
        (
          x.0,
          x.1,
          x.2,
          record {
            layer = x.3.layer ∙ s.layer;
            sbi = x.3.sbi ∙ s.sbi;
            balanced = λ h. x.3.unlocks ∙ s.balanced h;
            unbalanced = λ h. x.3.unlocks ∙ s.unbalanced h;
            waited = FileIdle-Waited ino w u x.1 x.3 s.waited;
          },
        )
    parents-Settled false ws ino r w u s = (r, u, refl, s)

    pub wait_tx-Settled :
        (m : Mount) (ino : ℕ) (sync_parent : Bool) (ws : List ℕ) (w : Mqfs K)
        → (r : ℕ) × (w' : Mqfs K) × (wait_tx K V m ino (sync_parent, ws, w) ≡ some (r, w'))
          × Settled ino w w'
    unfolding wait_tx emit
    wait_tx-Settled m ino sync_parent ws w =
        let x = file_wait-Settled ino w in
        let y = parents-Settled sync_parent ws ino x.0 w x.1 x.3 in
        (
          y.0,
          record (y.1) { layer = emit K (wait_for_completion m.dev) (y.1).layer },
          rw (x.2) (rw (y.2) refl),
          record {
            layer = y.3.layer;
            sbi = y.3.sbi;
            balanced = y.3.balanced;
            unbalanced = y.3.unbalanced;
            waited = record {
              inodemeta = y.3.waited.inodemeta;
              copies = y.3.waited.copies;
              fsmeta = y.3.waited.fsmeta;
            };
          },
        )

    -- the flush, if the mount asks for one
    abbrev pub flushed_if : Mount → ℕ → Olayer K → Option (Olayer K)
    flushed_if m sid l =
        if m.barrier then stream_blkdev_issue_flush K (m.dev ∷ []) sid l else some l

    pub flushed_total :
        (m : Mount) (sid : ℕ) (l : Olayer K) → (l' : Olayer K) × (flushed_if m sid l ≡ some l')
    flushed_total m sid l = elim (Bool-cases m.barrier) [
      | inl e ↦ let x = flush_total m.dev sid l in (x.0, rw e x.1)
      | inr e ↦ (l, rw e)
    ]

    flush_and_put_lem :
        (m : Mount) (sid r : ℕ) (w : Mqfs K) (l' : Olayer K)
        → flushed_if m sid w.layer ≡ some l'
        → flush_and_put K V m sid (r, w)
          ≡ some (r, record w { layer = l'; sbi = put_stream w.sbi sid })
    unfolding flush_and_put
    flush_and_put_lem m sid r w l' e = rw e

    -- the state in which the transaction is sent, with its number taken
    abbrev pub begun : Sbi → Mqfs K → Mqfs K
    begun sbi w = record w { sbi = record sbi { txid_alloc = (sbi.txid_alloc + 1) % 2 ^ 32 } }

    writable :
        (m : Mount) (w : Mqfs K) (o : Option (ℕ × Mqfs K))
        → m.shutdown ≡ false
        → m.rdonly ≡ false
        → if_writable K V m w o ≡ o
    unfolding if_writable
    writable m w o a b = rw (a, b)

    -- fsync on a mount that can be written, from the transaction on
    pub synced :
        (m : Mount) (fuel cpu ino start end sid r : ℕ) (datasync sync_parent : Bool) (sbi : Sbi)
        (ws : List ℕ) (w w1 w2 : Mqfs K) (l' : Olayer K)
        → m.shutdown ≡ false
        → m.rdonly ≡ false
        → get_free_stream cpu w.sbi ≡ took sid sbi
        → submit_tx K V fuel ino start end datasync sid (begun sbi w) ≡ some (sync_parent, ws, w1)
        → wait_tx K V m ino (sync_parent, ws, w1) ≡ some (r, w2)
        → flushed_if m sid w2.layer ≡ some l'
        → ext4_sync_file K V m fuel cpu ino start end datasync w
          ≡ some (r, record w2 { layer = l'; sbi = put_stream w2.sbi sid })
    unfolding ext4_sync_file sync_on
    synced m fuel cpu ino start end sid r datasync sync_parent sbi ws w w1 w2 l' a b c d e f =
        writable m w (sync_on K V m fuel ino start end datasync (get_free_stream cpu w.sbi) w) a b
        ∙ rw c (rw d (rw e (flush_and_put_lem m sid r w2 l' f)))

    -- Once an fsync has submitted its file without an error, above a file whose directories are not
    -- new, and the end of the transaction has come back, it returns 0, whatever the waits for the
    -- file's own buffers and data report.
    pub sync_file-hides_errors :
        (m : Mount) (fuel cpu ino start end sid e : ℕ) (datasync : Bool) (sbi : Sbi)
        (w w1 w2 : Mqfs K) (l : Olayer K)
        → m.shutdown ≡ false
        → m.rdonly ≡ false
        → get_free_stream cpu w.sbi ≡ took sid sbi
        → submit_file K V fuel ino start end datasync sid (begun sbi w) ≡ some (true, [], w1)
        → end_tx K V sid w1.layer ≡ some l
        → generic_file_atomic_write_wait K V ino (record w1 { layer = l }) ≡ some (e, w2)
        → (w' : Mqfs K) × (ext4_sync_file K V m fuel cpu ino start end datasync w ≡ some (0, w'))
    unfolding submit_tx wait_tx mqfs_atomic_write_parent_wait parent_wait
    sync_file-hides_errors m fuel cpu ino start end sid e datasync sbi w w1 w2 l a b c d g q =
        let w3 = record w2 { layer = emit K (wait_for_completion m.dev) w2.layer } in
        let x = flushed_total m sid w3.layer in
        (
          _,
          synced m fuel cpu ino start end sid 0 datasync true sbi [] w (record w1 { layer = l }) w3
              x.0 a b c (rw d (rw g refl)) (rw q refl) x.1,
        )

    -- Where submitting the data of a file reports an error, with the inode lock not held, and the end
    -- of the transaction still comes back: the fsync comes back too, having unlocked the inode's
    -- lock though it is not held.
    pub sync_file-unlocks_unheld :
        (m : Mount) (fuel cpu ino start end sid err : ℕ) (datasync : Bool) (sbi : Sbi)
        (w w1 : Mqfs K) (l : Olayer K)
        → m.shutdown ≡ false
        → m.rdonly ≡ false
        → get_free_stream cpu w.sbi ≡ took sid sbi
        → file_tag_streamwrite_range K V ino start end sid (begun sbi w) ≡ some (suc err, w1)
        → end_tx K V sid w1.layer ≡ some l
        → (w1.inodes ino).held ≡ false
        → (r : ℕ) × (w' : Mqfs K) × (ext4_sync_file K V m fuel cpu ino start end datasync w
            ≡ some (r, w'))
          × (w'.bad_unlocks ≡ w1.bad_unlocks + 1)
    unfolding submit_tx submit_file generic_file_atomic_write_submit
    sync_file-unlocks_unheld m fuel cpu ino start end sid err datasync sbi w w1 l a b c d q h =
        let no_zero : (suc err == 0) ≡ false = ==_ne (suc err) 0 (omega arith) in
        let w2 = record w1 { layer = l } in
        let y = wait_tx-Settled m ino false [] w2 in
        let x = flushed_total m sid (y.1).layer in
        (
          y.0,
          _,
          synced m fuel cpu ino start end sid y.0 datasync false sbi [] w w2 y.1 x.0 a b c
              (rw d (rw no_zero (rw no_zero (rw q refl)))) y.2 x.1,
          y.3.unbalanced h,
        )
