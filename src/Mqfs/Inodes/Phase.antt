-- ===== src/Mqfs/Inodes/Phase.antt =====
-- What the writes of a transaction keep of the file system, up to its end mark: everything that is
-- sent is journaled (mqfs/inode.c, ext4_write_inode; mqfs/filemap_compat.c,
-- tx_write_inode_metadata).
use native.Mathlib.Decide.{ℕ_discrete}
use ccnvme.Prelude.{
  ℕ, ◌≡◌, ◌≢◌, refl, ap, sym, ◌∙◌, subst, true, List, [], ◌∷◌, ◌++◌, some, Bool-cases, inl, inr,
}
use ccnvme.Kernel.{Kernel, Bio}
use ccnvme.Bio.{bh2bio}
use ccnvme.Submit.Chain.{Ready, Fits, Writes, done, Writes-append, Ready-Writes, Ready-frame}
use ccnvme.Commit.Laws.{frame}
use ccnvme.Mqfs.{Buffer, Inode, Mqfs, Vfs, wait_buffer, tx_sync, is_power_of_two}
use ccnvme.Mqfs.Buffers.{tx_write_dirty_buffer}
use ccnvme.Mqfs.Buffers.Dirty.{Distinct, bio_of, wait_buffer-frame, tx_write_lem}

-- What the writes leave of an inode: its lock, and at most its mark as a new entry.
abbrev pub Less : Inode → Inode → Type 0
Less i j = (i.held ≡ j.held) × (i.newentry ≡ true → j.newentry ≡ true)

pub Less-refl : (i : Inode) → Less i i
Less-refl i = (refl, λ e. e)

pub Less-trans : (i j k : Inode) → Less i j → Less j k → Less i k
Less-trans i j k p q = (p.0 ∙ q.0, λ e. q.1 (p.1 e))

Less-eq : (i j : Inode) → i ≡ j → Less i j
Less-eq i j e = subst (Less i) e (Less-refl i)

module _ (K : Kernel) where
  -- a buffer whose write fits the journal region and whose size is a power of two
  abbrev pub FitsBuffer : ℕ → Buffer → Type 0
  FitsBuffer blocks v = Fits K blocks (bio_of K v) × (is_power_of_two v.head.b_size ≡ true)

  -- A file system whose buffers all fit and stand in no private list twice.
  pub record IsSane (blocks : ℕ) (w : Mqfs K) : Type 0 where
    pub fits : (b : ℕ) → FitsBuffer blocks (w.buffers b)
    pub distinct : (ino : ℕ) → Distinct (w.inodes ino).private_list

  -- A step of the transaction: what it sends is journaled, and the file system stays sane.
  pub record Phase (sid blocks : ℕ) (w w' : Mqfs K) : Type 0 where
    pub bios : List Bio
    pub writes : Writes K sid bios w.layer w'.layer
    pub sane : IsSane blocks w'
    pub ready : Ready K sid blocks w'.layer
    pub kept : (ino : ℕ) → Less (w'.inodes ino) (w.inodes ino)
    pub sbi : w'.sbi ≡ w.sbi
    pub unlocks : w'.bad_unlocks ≡ w.bad_unlocks

  pub Phase-trans :
      (sid blocks : ℕ) (u v w : Mqfs K)
      → Phase sid blocks u v
      → Phase sid blocks v w
      → Phase sid blocks u w
  Phase-trans sid blocks u v w p q = record {
    bios = p.bios ++ q.bios;
    writes = Writes-append K sid p.bios q.bios u.layer v.layer w.layer p.writes q.writes;
    sane = q.sane;
    ready = q.ready;
    kept = λ ino. Less-trans (w.inodes ino) (v.inodes ino) (u.inodes ino) (q.kept ino) (p.kept ino);
    sbi = q.sbi ∙ p.sbi;
    unlocks = q.unlocks ∙ p.unlocks;
  }

  -- A step that sends nothing to the stream's queue.
  pub record Steady (blocks : ℕ) (w w' : Mqfs K) : Type 0 where
    pub layer : frame K w'.layer ≡ frame K w.layer
    pub sane : IsSane blocks w → IsSane blocks w'
    pub kept : (ino : ℕ) → Less (w'.inodes ino) (w.inodes ino)
    pub sbi : w'.sbi ≡ w.sbi
    pub unlocks : w'.bad_unlocks ≡ w.bad_unlocks

  pub Phase-Steady :
      (sid blocks : ℕ) (w w' : Mqfs K)
      → Ready K sid blocks w.layer
      → IsSane blocks w
      → Steady blocks w w'
      → Phase sid blocks w w'
  Phase-Steady sid blocks w w' r v s = record {
    bios = [];
    writes = done s.layer;
    sane = s.sane v;
    ready = Ready-frame K sid blocks w.layer w'.layer s.layer r;
    kept = s.kept;
    sbi = s.sbi;
    unlocks = s.unlocks;
  }

  room_kept :
      (blocks : ℕ) (f g : ℕ → Buffer)
      → ((b : ℕ) → (g b).head ≡ (f b).head)
      → ((b : ℕ) → FitsBuffer blocks (f b))
      → (b : ℕ) → FitsBuffer blocks (g b)
  room_kept blocks f g e h b =
      subst (λ x. Fits K blocks (bh2bio K x tx_sync) × (is_power_of_two x.b_size ≡ true))
        (sym (e b)) (h b)

  -- what a function reads off at one place and everywhere else
  everywhere {ℓ} :
      {A : Type ℓ} (g : Buffer → A) (f h : ℕ → Buffer) (b : ℕ)
      → g (h b) ≡ g (f b)
      → ((c : ℕ) → b ≢ c → g (h c) ≡ g (f c))
      → (c : ℕ) → g (h c) ≡ g (f c)
  everywhere g f h b e others c = elim (ℕ_discrete b c) [
    | yes q ↦ subst (λ i. g (h i) ≡ g (f i)) q e
    | no ne ↦ others c ne
  ]

  module _ (V : Vfs K) where
    pub Steady-wait : (blocks b : ℕ) (w : Mqfs K) → Steady blocks w (wait_buffer K V b w)
    Steady-wait blocks b w =
        let q = wait_buffer-frame K V b w in
        record {
          layer = q.0;
          sane = λ v. record {
            fits =
                room_kept blocks w.buffers (wait_buffer K V b w).buffers
                  (everywhere (λ x. x.head) w.buffers (wait_buffer K V b w).buffers b q.2
                    (λ c ne. ap (λ x. x.head) (q.4 c ne)))
                  v.fits;
            distinct = λ ino. subst (λ f. Distinct (f ino).private_list) (sym q.3) (v.distinct ino);
          };
          kept = λ ino.
              Less-eq ((wait_buffer K V b w).inodes ino) (w.inodes ino) (ap (λ f. f ino) q.3);
          sbi = q.5;
          unlocks = q.6;
        }

    pub tx_write-Phase :
        (sid blocks b : ℕ) (w : Mqfs K)
        → Ready K sid blocks w.layer
        → IsSane blocks w
        → (w' : Mqfs K) × (tx_write_dirty_buffer K V b sid w ≡ some w') × Phase sid blocks w w'
    unfolding tx_write_dirty_buffer
    tx_write-Phase sid blocks b w r v = elim (Bool-cases (w.buffers b).dirty) [
      | inl dirty ↦
          let x = tx_write_lem K V sid blocks b w r (v.fits b).0 dirty in
          (
            x.0,
            x.1,
            record {
              bios = bio_of K (w.buffers b) ∷ [];
              writes = x.2.writes;
              sane = record {
                fits =
                    room_kept blocks w.buffers (x.0).buffers
                      (everywhere (λ y. y.head) w.buffers (x.0).buffers b x.2.head
                        (λ c ne. ap (λ y. y.head) (x.2.others c ne)))
                      v.fits;
                distinct = λ ino.
                    subst (λ f. Distinct (f ino).private_list) (sym x.2.inodes) (v.distinct ino);
              };
              ready = Ready-Writes K sid blocks _ w.layer (x.0).layer r x.2.writes;
              kept = λ ino. Less-eq ((x.0).inodes ino) (w.inodes ino) (ap (λ f. f ino) x.2.inodes);
              sbi = x.2.sbi;
              unlocks = x.2.unlocks;
            },
          )
      | inr clean ↦ (
        wait_buffer K V b w,
        rw ((wait_buffer-frame K V b w).1 ∙ clean),
        Phase-Steady sid blocks w (wait_buffer K V b w) r v (Steady-wait blocks b w),
      )
    ]
