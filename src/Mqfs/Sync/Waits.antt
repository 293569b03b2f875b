-- ===== src/Mqfs/Sync/Waits.antt =====
-- What the waits of fsync leave (mqfs/filemap_compat.c): they come back, and do not touch streams,
-- inode locks and the locks of streams.
use mathlib.Core.List.{reverse}
use ccnvme.Prelude.{
  ℕ, ◌≡◌, refl, ap, sym, ◌∙◌, subst, Bool, true, false, List, [], ◌∷◌, some, none, Option,
  Bool-cases, inl, inr, if◌then◌else◌,
}
use ccnvme.Kernel.{Kernel}
use ccnvme.Commit.Laws.{frame}
use ccnvme.Mqfs.{Buffer, Inode, Mqfs, Vfs, eio, set_buffer, set_inode, wait_buffer}
use ccnvme.Mqfs.Buffers.{
  wait_each, take_pending, put_back_dirty, take_inodemeta, take_copyout, same, release_copy_out_bh,
  mqfs_free, mqfs_wait_mapping_buffers, tx_write_wait_inode_buffer, not_uptodate,
  requested_not_uptodate,
}
use ccnvme.Mqfs.Buffers.Waits.{Idle, update_keeps, update_self, wait_buffer-keeps}
use ccnvme.Mqfs.Buffers.Dirty.{wait_buffer-frame}
use ccnvme.Mqfs.Buffers.Osync.{one_pass, pending, behind_pending, wait_mapping-reports}
use ccnvme.Mqfs.Inodes.{clear_newentry, parent_wait}

module _ (K : Kernel) where
  -- a step that waits
  pub record Waited (w w' : Mqfs K) : Type 0 where
    pub layer : frame K w'.layer ≡ frame K w.layer
    pub held : (ino : ℕ) → (w'.inodes ino).held ≡ (w.inodes ino).held
    pub sbi : w'.sbi ≡ w.sbi
    pub unlocks : w'.bad_unlocks ≡ w.bad_unlocks
    pub idle : (c : ℕ) → (w.buffers c).locked ≡ false → (w'.buffers c).locked ≡ false

  pub Waited-refl : (w : Mqfs K) → Waited w w
  Waited-refl w = record {
    layer = refl;
    held = λ i. refl;
    sbi = refl;
    unlocks = refl;
    idle = λ c h. h;
  }

  pub Waited-trans : (u v w : Mqfs K) → Waited u v → Waited v w → Waited u w
  Waited-trans u v w p q = record {
    layer = q.layer ∙ p.layer;
    held = λ i. q.held i ∙ p.held i;
    sbi = q.sbi ∙ p.sbi;
    unlocks = q.unlocks ∙ p.unlocks;
    idle = λ c h. q.idle c (p.idle c h);
  }

  -- an inode that is put back with its lock as it was, and a buffer that is put back
  pub Waited-put :
      (ino : ℕ) (i : Inode) (w : Mqfs K)
      → i.held ≡ (w.inodes ino).held
      → Waited w (set_inode K ino i w)
  unfolding set_inode
  Waited-put ino i w e = record {
    layer = refl;
    held = update_keeps (λ j. j.held) w.inodes ino i e;
    sbi = refl;
    unlocks = refl;
    idle = λ c h. h;
  }

  Waited-buffer :
      (b : ℕ) (v : Buffer) (w u : Mqfs K)
      → v.locked ≡ (u.buffers b).locked
      → Waited w u
      → Waited w (set_buffer K b v u)
  unfolding set_buffer
  Waited-buffer b v w u e h = record {
    layer = h.layer;
    held = h.held;
    sbi = h.sbi;
    unlocks = h.unlocks;
    idle = λ c free. update_keeps (λ x. x.locked) u.buffers b v e c ∙ h.idle c free;
  }

  module _ (V : Vfs K) where
    Waited-wait : (b : ℕ) (w : Mqfs K) → Waited w (wait_buffer K V b w)
    Waited-wait b w =
        let q = wait_buffer-frame K V b w in
        record {
          layer = q.0;
          held = λ i. ap (λ f. (f i).held) q.3;
          sbi = q.5;
          unlocks = q.6;
          idle = λ c free. ap (λ x. x.locked) (wait_buffer-keeps K V b w c free) ∙ free;
        }

    pub Idle-Waited :
        (l : List ℕ) (w w' : Mqfs K) → Waited w w' → Idle l w.buffers → Idle l w'.buffers
    Idle-Waited [] w w' h free = tt
    Idle-Waited (b ∷ l) w w' h free = (h.idle b free.0, Idle-Waited l w w' h free.1)

    wait_each-Waited :
        (before after : ℕ → Mqfs K → Mqfs K) (failed : Buffer → Bool)
        → ((b : ℕ) (w : Mqfs K) → Waited w (before b w))
        → ((b : ℕ) (w : Mqfs K) → Waited w (after b w))
        → (bs : List ℕ) (err : ℕ) (w : Mqfs K)
        → Waited w (wait_each K V before failed after bs err w).1
    unfolding wait_each
    wait_each-Waited before after failed p q [] err w = Waited-refl w
    wait_each-Waited before after failed p q (b ∷ bs) err w =
        let w1 = wait_buffer K V b (before b w) in
        let err1 = if failed (w1.buffers b) then eio else err in
        Waited-trans w (before b w) _ (p b w) (
          Waited-trans (before b w) w1 _ (Waited-wait b (before b w)) (
            Waited-trans w1 (after b w1) _ (q b w1)
              (wait_each-Waited before after failed p q bs err1 (after b w1))))

    one_pass-Waited : (l : List ℕ) (err : ℕ) (w : Mqfs K) → Waited w (one_pass K V l err w).1
    unfolding one_pass
    one_pass-Waited [] err w = Waited-refl w
    one_pass-Waited (b ∷ l) err w =
        Waited-trans w (wait_buffer K V b w) _ (Waited-wait b w)
          (one_pass-Waited l _ (wait_buffer K V b w))

    either-Waited :
        (p : Bool) (w x y : Mqfs K) → Waited w x → Waited w y → Waited w (if p then x else y)
    either-Waited true w x y h k = h
    either-Waited false w x y h k = k

    put_back-Waited :
        (b : ℕ) (m : Option ℕ) (v : Buffer) (w : Mqfs K)
        → v.locked ≡ (w.buffers b).locked
        → Waited w (put_back_dirty K V b m v w)
    unfolding set_inode
    put_back-Waited b none v w e = Waited-refl w
    put_back-Waited b (some m) v w e =
        either-Waited v.dirty w _ w
          (Waited-buffer b v w (set_inode K m _ w) e (Waited-put m _ w refl)) (Waited-refl w)

    pending-Waited : (ino b : ℕ) (w : Mqfs K) → Waited w (take_pending K V ino b w)
    unfolding take_pending set_buffer set_inode
    pending-Waited ino b w =
        Waited-trans w _ _
          (Waited-buffer b _ w (set_inode K ino _ w) refl (Waited-put ino _ w refl))
          (put_back-Waited b (w.buffers b).assoc_map (w.buffers b) _
            (sym (ap (λ x. x.locked) (update_self w.buffers b _))))

    inodemeta-Waited : (ino b : ℕ) (w : Mqfs K) → Waited w (take_inodemeta K V ino b w)
    unfolding take_inodemeta set_inode
    inodemeta-Waited ino b w =
        Waited-buffer b _ w (set_inode K ino _ w) refl (Waited-put ino _ w refl)

    copyout-Waited : (ino b : ℕ) (w : Mqfs K) → Waited w (take_copyout K V ino b w)
    unfolding take_copyout set_inode
    copyout-Waited ino b w =
        Waited-buffer b _ w (set_inode K ino _ w) refl (Waited-put ino _ w refl)

    release-Waited : (b : ℕ) (w : Mqfs K) → Waited w (release_copy_out_bh K V b w)
    unfolding release_copy_out_bh mqfs_free
    release-Waited b w = record {
      layer = refl;
      held = λ i. refl;
      sbi = refl;
      unlocks = refl;
      idle = λ c h. h;
    }

    pub tx_write_wait-Waited :
        (ino : ℕ) (w : Mqfs K) → Waited w (tx_write_wait_inode_buffer K V ino w).1
    unfolding tx_write_wait_inode_buffer
    tx_write_wait-Waited ino w =
        Waited-trans w _ _
          (wait_each-Waited (take_inodemeta K V ino) (same K V) requested_not_uptodate
            (inodemeta-Waited ino) (λ b x. Waited-refl x)
            (reverse (w.inodes ino).inodemeta_pending_list) 0 w)
          (wait_each-Waited (take_copyout K V ino) (release_copy_out_bh K V) requested_not_uptodate
            (copyout-Waited ino) release-Waited _ _ _)

    -- the lists of an inode that the wait for its own buffers leaves
    abbrev pub mapping_lists : Inode → List ℕ × Bool
    mapping_lists i = (i.fsmeta_pending_list, i.has_buffer_mapping)

    wait_each-lists :
        (before after : ℕ → Mqfs K → Mqfs K) (failed : Buffer → Bool) (ino : ℕ)
        → ((b : ℕ) (w : Mqfs K)
            → mapping_lists ((before b w).inodes ino) ≡ mapping_lists (w.inodes ino))
        → ((b : ℕ) (w : Mqfs K)
            → mapping_lists ((after b w).inodes ino) ≡ mapping_lists (w.inodes ino))
        → (bs : List ℕ) (err : ℕ) (w : Mqfs K)
        → mapping_lists ((wait_each K V before failed after bs err w).1.inodes ino)
          ≡ mapping_lists (w.inodes ino)
    unfolding wait_each
    wait_each-lists before after failed ino p q [] err w = refl
    wait_each-lists before after failed ino p q (b ∷ bs) err w =
        let w0 = before b w in
        let w1 = wait_buffer K V b w0 in
        wait_each-lists before after failed ino p q bs (if failed (w1.buffers b) then eio else err)
          (after b w1)
        ∙ q b w1
        ∙ ap (λ f. mapping_lists (f ino)) (wait_buffer-frame K V b w0).3
        ∙ p b w

    pub tx_write_wait-lists :
        (ino : ℕ) (w : Mqfs K)
        → mapping_lists ((tx_write_wait_inode_buffer K V ino w).1.inodes ino)
          ≡ mapping_lists (w.inodes ino)
    unfolding tx_write_wait_inode_buffer take_inodemeta take_copyout release_copy_out_bh mqfs_free
        set_buffer set_inode
    tx_write_wait-lists ino w =
        wait_each-lists (take_copyout K V ino) (release_copy_out_bh K V) requested_not_uptodate ino
          (λ b x. update_keeps mapping_lists x.inodes ino _ refl ino) (λ b x. refl) _ _ _
        ∙ wait_each-lists (take_inodemeta K V ino) (same K V) requested_not_uptodate ino
            (λ b x. update_keeps mapping_lists x.inodes ino _ refl ino) (λ b x. refl)
            (reverse (w.inodes ino).inodemeta_pending_list) 0 w

    -- The waits for an inode's metadata come back, with no pending buffer under way.
    pub wait_mapping-Waited :
        (ino : ℕ) (w : Mqfs K)
        → (r : ℕ) × (w' : Mqfs K) × (mqfs_wait_mapping_buffers K V ino w ≡ some (r, w'))
          × Waited w w'
          × ((w.inodes ino).has_buffer_mapping ≡ true → Idle (pending K V ino w) w'.buffers)
    wait_mapping-Waited ino w = elim (Bool-cases (w.inodes ino).has_buffer_mapping) [
      | inr e ↦ (
        0,
        w,
        unfold mqfs_wait_mapping_buffers in rw e refl,
        Waited-refl w,
        λ h. absurd (cc (e, h)),
      )
      | inl e ↦
          let x = wait_mapping-reports K V ino w e in
          let w1 = behind_pending K V ino w in
          (
            x.0,
            x.1,
            x.2,
            subst (Waited w) (sym x.5) (
                Waited-trans w w1 _
                  (wait_each-Waited (take_pending K V ino) (same K V) not_uptodate
                    (pending-Waited ino) (λ b x. Waited-refl x) (pending K V ino w) 0 w)
                  (one_pass-Waited (reverse (w1.inodes ino).private_list) 0 w1)),
            λ h. x.3,
          )
    ]

    pub parent_wait-Waited :
        (ps : List ℕ) (ret : ℕ) (w : Mqfs K)
        → (r : ℕ) × (w' : Mqfs K) × (parent_wait K V ps ret w ≡ some (r, w')) × Waited w w'
    unfolding parent_wait clear_newentry
    parent_wait-Waited [] ret w = (ret, w, refl, Waited-refl w)
    parent_wait-Waited (p ∷ ps) ret w =
        let w0 = clear_newentry K V p w in
        let x = wait_mapping-Waited p w0 in
        let y = tx_write_wait_inode_buffer K V p x.1 in
        let z = parent_wait-Waited ps y.0 y.1 in
        (
          z.0,
          z.1,
          rw (x.2) z.2,
          Waited-trans w w0 z.1 (Waited-put p _ w refl) (
              Waited-trans w0 x.1 z.1 x.3
                (Waited-trans x.1 y.1 z.1 (tx_write_wait-Waited p x.1) z.3)),
        )
