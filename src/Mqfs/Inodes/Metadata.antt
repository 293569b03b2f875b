-- ===== src/Mqfs/Inodes/Metadata.antt =====
-- The inode of a file is written as a step of a transaction (mqfs/filemap_compat.c,
-- tx_write_inode_metadata; mqfs/inode.c, ext4_write_inode).
use ccnvme.Prelude.{
  ℕ, Option, ◌==◌, zero, suc, ◌+◌, ◌≡◌, refl, true, ◌∷◌, some, Bool-cases, Option-cases, inl, inr,
  ◌>>=◌,
}
use ccnvme.Kernel.{Kernel}
use ccnvme.Submit.Chain.{Ready}
use ccnvme.Mqfs.{Buffer, Inode, Mqfs, Vfs, enomem, update, set_buffer, set_inode, wait_buffer}
use ccnvme.Mqfs.Buffers.{tx_write_dirty_buffer, copy_out_bh, fresh_head, mqfs_alloc, copy_bytes}
use ccnvme.Mqfs.Inodes.{
  checked, note_copy, note_inodemeta, write_copy, write_located, write_loc, ext4_write_inode,
  tx_write_inode_metadata,
}
use ccnvme.Mqfs.Inodes.Phase.{
  IsSane, Less-refl, Phase, Phase-trans, Steady, Phase-Steady, Steady-wait, tx_write-Phase,
}
use ccnvme.Mqfs.Inodes.Mapping.{
  Steady-trans, Steady-set_inode, Steady-set_buffer, copy-Fits, Phase-refl,
}

module _ (K : Kernel) where
  module _ (V : Vfs K) (sid blocks : ℕ) where
    -- a write, and the test behind it
    write_checked :
        (b b' : ℕ) (w w1 : Mqfs K)
        → Ready K sid blocks w.layer
        → IsSane K blocks w
        → Steady K blocks w w1
        → (r : ℕ) × (w' : Mqfs K) × ((tx_write_dirty_buffer K V b sid w1
              >>= (λ x. some (checked K V b' x)))
            ≡ some (r, w'))
          × Phase K sid blocks w w'
    unfolding checked
    write_checked b b' w w1 r v s =
        let p = Phase-Steady K sid blocks w w1 r v s in
        let x = tx_write-Phase K V sid blocks b w1 p.ready p.sane in
        ((checked K V b' x.0).0, x.0, rw (x.1) refl, Phase-trans K sid blocks w w1 x.0 p x.2)

    Steady-counts :
        (h p : ℕ) (f : ℕ → Option ℕ) (w : Mqfs K)
        → Steady K blocks w (record w { heads = h; pages = p; ranges = f })
    Steady-counts h p f w = record {
      layer = refl;
      sane = λ v. record { fits = v.fits; distinct = v.distinct };
      kept = λ ino. Less-refl (w.inodes ino);
      sbi = refl;
      unlocks = refl;
    }

    -- the write of a copy, by whether there is memory for it
    write_copy-Phase :
        (ino b : ℕ) (w : Mqfs K)
        → Ready K sid blocks w.layer
        → IsSane K blocks w
        → (r : ℕ) × (w' : Mqfs K) × ((copy_out_bh K V b w >>= (λ c. write_copy K V ino sid b c))
            ≡ some (r, w'))
          × Phase K sid blocks w w'
    unfolding copy_out_bh mqfs_alloc copy_bytes write_copy note_copy set_buffer set_inode
    write_copy-Phase ino b w r v =
        let two = (v.fits b).1 in
        let line = V.pages-aligned w.layer.io size two in
        elim (Bool-cases (ptr == 0)) [
          | inr e ↦ rw (two, line, e) (write_checked new b w _ r v copied)
          | inl e ↦
              rw (two, line, e)
                (
                  enomem,
                  record w { heads = w.heads + 1 },
                  refl,
                  Phase-Steady K sid blocks w _ r v
                      (Steady-counts (w.heads + 1) w.pages w.ranges w),
                )
        ]
      where
        size : ℕ
        size = (w.buffers b).head.b_size

        ptr : ℕ
        ptr = V.get_free_pages w.layer.io size

        new : ℕ
        new = V.new_head w.layer.io

        w0 : Mqfs K
        w0 = record w {
          heads = w.heads + 1;
          pages = w.pages + 1;
          ranges = update w.ranges ptr (some size);
        }

        w1 : Mqfs K
        w1 = wait_buffer K V b w0

        x : Buffer
        x = fresh_head (w1.buffers b).head 1 ptr (w1.buffers b).b_data

        w3 : Mqfs K
        w3 = set_buffer K new x w1

        i : Inode
        i = record (w3.inodes ino) { copyout_inode_list = new ∷ (w3.inodes ino).copyout_inode_list }

        early : Steady K blocks w w3
        early = Steady-trans K blocks w w0 w3 (Steady-counts w0.heads w0.pages w0.ranges w) (
            Steady-trans K blocks w0 w1 w3 (Steady-wait K V blocks b w0) (
              Steady-set_buffer K blocks new x w1
                (λ s. copy-Fits K blocks (w1.buffers b) 1 ptr (w1.buffers b).b_data (s.fits b))))

        copied : Steady K blocks w (note_copy K V ino new w3)
        copied = Steady-trans K blocks w w3 _ early (
            Steady-trans K blocks w3 (set_inode K ino i w3) _
              (Steady-set_inode K blocks ino i w3 (λ s. s.distinct ino) (refl, λ e. e))
              (Steady-set_buffer K blocks new _ (set_inode K ino i w3) (λ s. s.fits new)))

    inodemeta-Steady : (ino b : ℕ) (w : Mqfs K) → Steady K blocks w (note_inodemeta K V ino b w)
    unfolding note_inodemeta set_buffer set_inode
    inodemeta-Steady ino b w =
        Steady-trans K blocks w (set_inode K ino i w) _
          (Steady-set_inode K blocks ino i w (λ v. v.distinct ino) (refl, λ e. e))
          (Steady-set_buffer K blocks b _ (set_inode K ino i w) (λ v. v.fits b))
      where
        i : Inode
        i = record (w.inodes ino) {
          inodemeta_pending_list = b ∷ (w.inodes ino).inodemeta_pending_list;
          has_buffer_mapping = true;
        }

    write_loc-Phase :
        (ino : ℕ) (loc : ℕ × ℕ) (w : Mqfs K)
        → Ready K sid blocks w.layer
        → IsSane K blocks w
        → (r : ℕ) × (w' : Mqfs K) × (write_loc K V ino sid loc w ≡ some (r, w'))
          × Phase K sid blocks w w'
    unfolding write_loc write_located
    write_loc-Phase ino (suc err, b) w r v = (suc err, w, refl, Phase-refl K V sid blocks w r v)
    write_loc-Phase ino (zero, b) w r v = elim (Option-cases (w.buffers b).assoc_map) [
      | inl q ↦
          rw q (write_checked b b w (note_inodemeta K V ino b w) r v (inodemeta-Steady ino b w))
      | inr (m, q) ↦ rw q (write_copy-Phase ino b w r v)
    ]

    write_inode-Phase :
        (ino : ℕ) (w : Mqfs K)
        → Ready K sid blocks w.layer
        → IsSane K blocks w
        → (r : ℕ) × (w' : Mqfs K) × (ext4_write_inode K V ino sid w ≡ some (r, w'))
          × Phase K sid blocks w w'
    unfolding ext4_write_inode
    write_inode-Phase ino w r v = write_loc-Phase ino (V.inode_loc ino) w r v

    pub write_metadata-Phase :
        (ino : ℕ) (w : Mqfs K)
        → Ready K sid blocks w.layer
        → IsSane K blocks w
        → (r : ℕ) × (w' : Mqfs K) × (tx_write_inode_metadata K V ino sid w ≡ some (r, w'))
          × Phase K sid blocks w w'
    unfolding tx_write_inode_metadata
    write_metadata-Phase ino w r v = elim (Bool-cases (V.writes_inode (w.inodes ino)).0) [
      | inl e ↦ rw e (
          let x = write_inode-Phase ino w1 p.ready p.sane in
          (x.0, x.1, x.2, Phase-trans K sid blocks w w1 x.1 p x.3))
      | inr e ↦ rw e (0, w1, refl, p)
    ]
      where
        i : Inode
        i = record (w.inodes ino) {
          dirty_all = (V.writes_inode (w.inodes ino)).1;
          dirty_datasync = (V.writes_inode (w.inodes ino)).2;
        }

        w1 : Mqfs K
        w1 = set_inode K ino i w

        p : Phase K sid blocks w w1
        p =
            Phase-Steady K sid blocks w w1 r v
              (Steady-set_inode K blocks ino i w (λ s. s.distinct ino) (refl, λ e. e))
