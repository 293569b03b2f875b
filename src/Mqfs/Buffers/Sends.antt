-- ===== src/Mqfs/Buffers/Sends.antt =====
-- The dirty metadata buffers of a file are written into the stream's journal, one after the other
-- (mqfs/filemap_compat.c, mqfs_submit_mapping_buffers and tx_write_dirty_buffer).
use mathlib.Core.List.{reverse_aux}
use ccnvme.Prelude.{
  ℕ, ◌≡◌, ◌≢◌, refl, ap, ap₂, sym, ◌∙◌, subst, Bool, true, false, ◌||◌, List, [], ◌∷◌, ◌++◌, some,
  Bool-cases, inl, inr, if◌then◌else◌, All,
}
use ccnvme.Kernel.{Kernel, Bio}
use ccnvme.Bio.{bh2bio}
use ccnvme.Commit.Laws.{frame}
use ccnvme.Submit.Chain.{
  Ready, Fits, Writes, done, Ready-frame, Ready-Writes, Writes-append, Writes-frame,
}
use ccnvme.Mqfs.{Mqfs, Vfs, set_buffer, set_inode, tx_sync}
use ccnvme.Mqfs.Buffers.{
  tx_write_dirty_buffer, move_to_pending, submit_buffers, mqfs_submit_mapping_buffers,
}
use ccnvme.Mqfs.Buffers.Waits.{update_self, update_keeps}
use ccnvme.Mqfs.Buffers.Dirty.{
  Distinct, busy_of, look, SameOn-others, busy_of-cong, bio_of, dirty_bios, dirty_bios-cong, AllFit,
  AllFit-cong, tx_write_lem,
}

module _ (K : Kernel) where
  module _ (V : Vfs K) where
    -- the loop's first steps with a buffer
    pub move-others :
        (ino b : ℕ) (rest : List ℕ) (w : Mqfs K) (c : ℕ)
        → look ((move_to_pending K V ino b rest w).buffers c) ≡ look (w.buffers c)
    unfolding move_to_pending set_buffer set_inode
    move-others ino b rest w c = elim (Bool-cases ((w.buffers b).dirty || (w.buffers b).locked)) [
      | inl e ↦ rw e refl
      | inr e ↦ rw e (update_keeps look w.buffers b _ refl c)
    ]

    pub move-inode :
        (ino b : ℕ) (rest : List ℕ) (w : Mqfs K)
        → ((((move_to_pending K V ino b rest w).inodes ino).private_list) ≡ rest)
          × (((move_to_pending K V ino b rest w).inodes ino).fsmeta_pending_list ≡ (
              if (w.buffers b).dirty || (w.buffers b).locked
              then b ∷ (w.inodes ino).fsmeta_pending_list
              else (w.inodes ino).fsmeta_pending_list))
          × ((move_to_pending K V ino b rest w).layer ≡ w.layer)
    unfolding move_to_pending set_buffer set_inode
    move-inode ino b rest w = elim (Bool-cases ((w.buffers b).dirty || (w.buffers b).locked)) [
      | inl e ↦ rw e (
        ap (λ i. i.private_list) (update_self w.inodes ino _),
        ap (λ i. i.fsmeta_pending_list) (update_self w.inodes ino _),
        refl,
      )
      | inr e ↦ rw e (
        ap (λ i. i.private_list) (update_self w.inodes ino _),
        ap (λ i. i.fsmeta_pending_list) (update_self w.inodes ino _),
        refl,
      )
    ]

    -- What the loop over the private list leaves.
    pub record Submitted (ino sid : ℕ) (l : List ℕ) (w w' : Mqfs K) : Type 0 where
      pub writes : Writes K sid (dirty_bios K w.buffers l) w.layer w'.layer
      pub clean : All (λ b. (w'.buffers b).dirty ≡ false) l
      pub empty : (w'.inodes ino).private_list ≡ []
      pub pending :
          (w'.inodes ino).fsmeta_pending_list
          ≡ reverse_aux (busy_of w.buffers l) (w.inodes ino).fsmeta_pending_list
      pub others : (c : ℕ) → All (λ b. b ≢ c) l → look (w'.buffers c) ≡ look (w.buffers c)

    -- What the first round of the loop leaves, with `l` behind its buffer.
    record First (ino sid b : ℕ) (l : List ℕ) (w w2 : Mqfs K) : Type 0 where
      writes :
          Writes K sid
            (if (w.buffers b).dirty then bio_of K (w.buffers b) ∷ [] else [])
            w.layer
            w2.layer
      clean : (w2.buffers b).dirty ≡ false
      private : (w2.inodes ino).private_list ≡ l
      pending : (w2.inodes ino).fsmeta_pending_list ≡ (
          if (w.buffers b).dirty || (w.buffers b).locked
          then b ∷ (w.inodes ino).fsmeta_pending_list
          else (w.inodes ino).fsmeta_pending_list)
      others : (c : ℕ) → b ≢ c → look (w2.buffers c) ≡ look (w.buffers c)

    prepended :
        (p : Bool) (x : Bio) (r : List Bio)
        → (if p then x ∷ [] else []) ++ r ≡ (if p then x ∷ r else r)
    prepended true x r = refl
    prepended false x r = refl

    reversed :
        (p : Bool) (b : ℕ) (r old : List ℕ)
        → reverse_aux r (if p then b ∷ old else old) ≡ reverse_aux (if p then b ∷ r else r) old
    reversed true b r old = refl
    reversed false b r old = refl

    flip : (l : List ℕ) (b : ℕ) → All (λ c. b ≢ c) l → All (λ c. c ≢ b) l
    flip [] b h = tt
    flip (c ∷ l) b h = (λ q. h.0 (sym q), flip l b h.1)

    -- a buffer behind which the rest of the list has been submitted
    Submitted-cons :
        (ino sid b : ℕ) (l : List ℕ) (w w2 w' : Mqfs K)
        → All (λ c. b ≢ c) l
        → First ino sid b l w w2
        → Submitted ino sid l w2 w'
        → Submitted ino sid (b ∷ l) w w'
    Submitted-cons ino sid b l w w2 w' fresh f s =
        let same = SameOn-others l b w.buffers w2.buffers fresh f.others in
        record {
          writes =
              subst (λ bios. Writes K sid bios w.layer w'.layer)
                (prepended (w.buffers b).dirty (bio_of K (w.buffers b)) (dirty_bios K w.buffers l))
                (Writes-append K sid _ (dirty_bios K w.buffers l) w.layer w2.layer w'.layer f.writes
                  (subst (λ bios. Writes K sid bios w2.layer w'.layer)
                    (dirty_bios-cong K l w.buffers w2.buffers same) s.writes));
          clean = (ap (λ v. v.0) (s.others b (flip l b fresh)) ∙ f.clean, s.clean);
          empty = s.empty;
          pending =
              s.pending
              ∙ ap₂ reverse_aux (busy_of-cong l w.buffers w2.buffers same) f.pending
              ∙ reversed ((w.buffers b).dirty || (w.buffers b).locked) b (busy_of w.buffers l)
                  (w.inodes ino).fsmeta_pending_list;
          others = λ c h. s.others c h.1 ∙ f.others c h.0;
        }

    -- the first round
    opening_round :
        (ino sid blocks b : ℕ) (l : List ℕ) (w : Mqfs K)
        → Ready K sid blocks w.layer
        → Fits K blocks (bio_of K (w.buffers b))
        → (w2 : Mqfs K) × ((if (w.buffers b).dirty
              then tx_write_dirty_buffer K V b sid (move_to_pending K V ino b l w)
              else some (move_to_pending K V ino b l w))
            ≡ some w2)
          × First ino sid b l w w2
    opening_round ino sid blocks b l w r f = elim (Bool-cases (w.buffers b).dirty) [
      | inr clean ↦ (
        w1,
        rw clean,
        record {
          writes =
              subst
                (λ p. Writes K sid (if p then bio_of K (w.buffers b) ∷ [] else []) w.layer w1.layer)
                (sym clean) (done (ap (frame K) m.2));
          clean = ap (λ v. v.0) (move-others ino b l w b) ∙ clean;
          private = m.0;
          pending = m.1;
          others = λ c ne. move-others ino b l w c;
        },
      )
      | inl dirty ↦
          let x =
            tx_write_lem K V sid blocks b w1
              (Ready-frame K sid blocks w.layer w1.layer (ap (frame K) m.2) r)
              (subst (λ v. Fits K blocks (bh2bio K v.2 tx_sync)) (sym (move-others ino b l w b)) f)
              (ap (λ v. v.0) (move-others ino b l w b) ∙ dirty) in
          (
            x.0,
            rw dirty x.1,
            record {
              writes =
                  subst
                    (λ p.
                      Writes K sid (if p then bio_of K (w.buffers b) ∷ [] else []) w.layer
                        (x.0).layer)
                    (sym dirty)
                    (Writes-frame K sid _ w.layer w1.layer (x.0).layer (ap (frame K) m.2) (
                      subst (λ v. Writes K sid (bh2bio K v.2 tx_sync ∷ []) w1.layer (x.0).layer)
                        (move-others ino b l w b) x.2.writes));
              clean = x.2.clean;
              private = ap (λ f. (f ino).private_list) x.2.inodes ∙ m.0;
              pending = ap (λ f. (f ino).fsmeta_pending_list) x.2.inodes ∙ m.1;
              others = λ c ne. ap look (x.2.others c ne) ∙ move-others ino b l w c;
            },
          )
    ]
      where
        w1 : Mqfs K
        w1 = move_to_pending K V ino b l w

        m :
            ((w1.inodes ino).private_list ≡ l)
            × ((w1.inodes ino).fsmeta_pending_list ≡ (
                if (w.buffers b).dirty || (w.buffers b).locked
                then b ∷ (w.inodes ino).fsmeta_pending_list
                else (w.inodes ino).fsmeta_pending_list))
            × (w1.layer ≡ w.layer)
        m = move-inode ino b l w

    submit_loop :
        (l : List ℕ) (ino sid blocks : ℕ) (w : Mqfs K)
        → Distinct l
        → Ready K sid blocks w.layer
        → AllFit K blocks w.buffers l
        → (w.inodes ino).private_list ≡ l
        → (w' : Mqfs K) × (submit_buffers K V ino sid l w ≡ some w') × Submitted ino sid l w w'
    unfolding submit_buffers
    submit_loop [] ino sid blocks w d r f e = (
      w,
      refl,
      record { writes = done refl; clean = tt; empty = e; pending = refl; others = λ c h. refl },
    )
    submit_loop (b ∷ l) ino sid blocks w d r f e =
        let x = opening_round ino sid blocks b l w r f.0 in
        let w2 = x.0 in
        let y =
          submit_loop l ino sid blocks w2 d.1
            (Ready-Writes K sid blocks _ w.layer w2.layer r x.2.writes)
            (AllFit-cong K l blocks w.buffers w2.buffers
              (SameOn-others l b w.buffers w2.buffers d.0 x.2.others) f.1)
            x.2.private in
        (y.0, rw (x.1) y.1, Submitted-cons ino sid b l w w2 y.0 d.0 x.2 y.2)

    -- mqfs_submit_mapping_buffers, of an inode with a buffer mapping and no buffer twice in its
    -- private list, on a ready stream that the writes of all these buffers fit: it comes back. The
    -- dirty buffers have been journaled, in the order of the list and nothing else; no buffer of
    -- the list is dirty any more; the list is empty, and those that were dirty or under way stand
    -- before the pending buffers, the last of them first. The stream is ready again.
    pub submit_mapping-Submitted :
        (ino sid blocks : ℕ) (w : Mqfs K)
        → (w.inodes ino).has_buffer_mapping ≡ true
        → Distinct (w.inodes ino).private_list
        → Ready K sid blocks w.layer
        → AllFit K blocks w.buffers (w.inodes ino).private_list
        → (w' : Mqfs K) × (mqfs_submit_mapping_buffers K V ino sid w ≡ some w')
          × Submitted ino sid (w.inodes ino).private_list w w'
          × Ready K sid blocks w'.layer
    unfolding mqfs_submit_mapping_buffers
    submit_mapping-Submitted ino sid blocks w mapped d r f =
        let y = submit_loop (w.inodes ino).private_list ino sid blocks w d r f refl in
        (y.0, rw mapped y.1, y.2, Ready-Writes K sid blocks _ w.layer (y.0).layer r y.2.writes)
