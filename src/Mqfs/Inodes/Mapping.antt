-- ===== src/Mqfs/Inodes/Mapping.antt =====
-- The metadata buffers of a file are written as steps of a transaction (mqfs/filemap_compat.c,
-- mqfs_submit_mapping_buffers).
use ccnvme.Prelude.{
  ℕ, ◌≡◌, refl, sym, ◌∙◌, subst, Bool, true, false, ◌||◌, List, [], ◌∷◌, some, Bool-cases, inl, inr,
  if◌then◌else◌,
}
use native.Mathlib.Decide.{ℕ_discrete}
use ccnvme.Kernel.{Kernel}
use ccnvme.Bio.{bh2bio}
use ccnvme.Submit.{horae_path, op_is_ordered_write, op_is_barrier_write}
use ccnvme.Submit.Chain.{Ready}
use ccnvme.Mqfs.{Buffer, Inode, Mqfs, Vfs, set_buffer, set_inode, update}
use ccnvme.Mqfs.Buffers.{
  mqfs_submit_mapping_buffers, submit_buffers, tx_write_dirty_buffer, move_to_pending, fresh_head,
}
use ccnvme.Mqfs.Buffers.Waits.{update_self, update_ne}
use ccnvme.Mqfs.Buffers.Dirty.{Distinct}
use ccnvme.Mqfs.Inodes.Phase.{
  FitsBuffer, IsSane, Less, Less-refl, Less-trans, Phase, Phase-trans, Steady, Phase-Steady,
  tx_write-Phase,
}

module _ (K : Kernel) where
  pub Steady-trans :
      (blocks : ℕ) (u v w : Mqfs K)
      → Steady K blocks u v
      → Steady K blocks v w
      → Steady K blocks u w
  Steady-trans blocks u v w p q = record {
    layer = q.layer ∙ p.layer;
    sane = λ s. q.sane (p.sane s);
    kept = λ ino. Less-trans (w.inodes ino) (v.inodes ino) (u.inodes ino) (q.kept ino) (p.kept ino);
    sbi = q.sbi ∙ p.sbi;
    unlocks = q.unlocks ∙ p.unlocks;
  }

  pub IsSane-set_inode :
      (blocks ino : ℕ) (i : Inode) (w : Mqfs K)
      → Distinct i.private_list
      → IsSane K blocks w
      → IsSane K blocks (set_inode K ino i w)
  unfolding set_inode
  IsSane-set_inode blocks ino i w d v = record {
    fits = v.fits;
    distinct = λ n. elim (ℕ_discrete ino n) [
      | yes q ↦
          subst (λ k. Distinct (update w.inodes ino i k).private_list) q
            (subst (λ j. Distinct j.private_list) (sym (update_self w.inodes ino i)) d)
      | no ne ↦
          subst (λ j. Distinct j.private_list) (sym (update_ne w.inodes ino n i ne)) (v.distinct n)
    ];
  }

  pub Steady-set_inode :
      (blocks ino : ℕ) (i : Inode) (w : Mqfs K)
      → (IsSane K blocks w → Distinct i.private_list)
      → Less i (w.inodes ino)
      → Steady K blocks w (set_inode K ino i w)
  unfolding set_inode
  Steady-set_inode blocks ino i w d e = record {
    layer = refl;
    sane = λ v. IsSane-set_inode blocks ino i w (d v) v;
    kept = λ n. elim (ℕ_discrete ino n) [
      | yes q ↦
          subst (λ k. Less (update w.inodes ino i k) (w.inodes k)) q
            (subst (λ j. Less j (w.inodes ino)) (sym (update_self w.inodes ino i)) e)
      | no ne ↦
          subst (λ j. Less j (w.inodes n)) (sym (update_ne w.inodes ino n i ne))
            (Less-refl (w.inodes n))
    ];
    sbi = refl;
    unlocks = refl;
  }

  pub Steady-set_buffer :
      (blocks b : ℕ) (x : Buffer) (w : Mqfs K)
      → (IsSane K blocks w → FitsBuffer K blocks x)
      → Steady K blocks w (set_buffer K b x w)
  unfolding set_buffer
  Steady-set_buffer blocks b x w f = record {
    layer = refl;
    sane = λ v. record {
      fits = λ c. elim (ℕ_discrete b c) [
        | yes q ↦
            subst (λ k. FitsBuffer K blocks (update w.buffers b x k)) q
              (subst (λ y. FitsBuffer K blocks y) (sym (update_self w.buffers b x)) (f v))
        | no ne ↦ subst (λ y. FitsBuffer K blocks y) (sym (update_ne w.buffers b c x ne)) (v.fits c)
      ];
      distinct = v.distinct;
    };
    kept = λ ino. Less-refl (w.inodes ino);
    sbi = refl;
    unlocks = refl;
  }

  pub copy-Fits :
      (blocks : ℕ) (v : Buffer) (count tmp : ℕ) (bytes : List ℕ)
      → FitsBuffer K blocks v
      → FitsBuffer K blocks (fresh_head v.head count tmp bytes)
  unfolding bh2bio horae_path op_is_ordered_write op_is_barrier_write
  copy-Fits blocks v count tmp bytes f =
      (record { path = refl; few = f.0.few; small = f.0.small }, f.1)

  module _ (V : Vfs K) (sid blocks : ℕ) where
    move-Steady :
        (ino b : ℕ) (rest : List ℕ) (w : Mqfs K)
        → Distinct rest
        → Steady K blocks w (move_to_pending K V ino b rest w)
    unfolding move_to_pending set_buffer set_inode
    move-Steady ino b rest w d = elim (Bool-cases ((w.buffers b).dirty || (w.buffers b).locked)) [
      | inl e ↦ rw e (Steady-set_inode blocks ino _ w (λ v. d) (Less-refl (w.inodes ino)))
      | inr e ↦ rw e (
          Steady-trans blocks w (set_inode K ino _ w) _
            (Steady-set_inode blocks ino _ w (λ v. d) (Less-refl (w.inodes ino)))
            (Steady-set_buffer blocks b _ (set_inode K ino _ w) (λ v. v.fits b)))
    ]

    pub Phase-refl :
        (w : Mqfs K) → Ready K sid blocks w.layer → IsSane K blocks w → Phase K sid blocks w w
    Phase-refl w r v = Phase-Steady K sid blocks w w r v (record {
      layer = refl;
      sane = λ s. s;
      kept = λ ino. Less-refl (w.inodes ino);
      sbi = refl;
      unlocks = refl;
    })

    if_dirty :
        (p : Bool) (b : ℕ) (w : Mqfs K)
        → Ready K sid blocks w.layer
        → IsSane K blocks w
        → (w' : Mqfs K) × ((if p then tx_write_dirty_buffer K V b sid w else some w) ≡ some w')
          × Phase K sid blocks w w'
    if_dirty true b w r v = tx_write-Phase K V sid blocks b w r v
    if_dirty false b w r v = (w, refl, Phase-refl w r v)

    submit_buffers-Phase :
        (l : List ℕ) (ino : ℕ) (w : Mqfs K)
        → Distinct l
        → Ready K sid blocks w.layer
        → IsSane K blocks w
        → (w' : Mqfs K) × (submit_buffers K V ino sid l w ≡ some w') × Phase K sid blocks w w'
    unfolding submit_buffers
    submit_buffers-Phase [] ino w d r v = (w, refl, Phase-refl w r v)
    submit_buffers-Phase (b ∷ l) ino w d r v =
        let w1 = move_to_pending K V ino b l w in
        let p = Phase-Steady K sid blocks w w1 r v (move-Steady ino b l w d.1) in
        let x = if_dirty (w.buffers b).dirty b w1 p.ready p.sane in
        let y = submit_buffers-Phase l ino x.0 d.1 x.2.ready x.2.sane in
        (
          y.0,
          rw (x.1) y.1,
          Phase-trans K sid blocks w w1 y.0 p (Phase-trans K sid blocks w1 x.0 y.0 x.2 y.2),
        )

    pub submit_mapping-Phase :
        (ino : ℕ) (w : Mqfs K)
        → Ready K sid blocks w.layer
        → IsSane K blocks w
        → (w' : Mqfs K) × (mqfs_submit_mapping_buffers K V ino sid w ≡ some w')
          × Phase K sid blocks w w'
    unfolding mqfs_submit_mapping_buffers
    submit_mapping-Phase ino w r v = elim (Bool-cases (w.inodes ino).has_buffer_mapping) [
      | inl e ↦ rw e (submit_buffers-Phase (w.inodes ino).private_list ino w (v.distinct ino) r v)
      | inr e ↦ rw e (w, refl, Phase-refl w r v)
    ]
