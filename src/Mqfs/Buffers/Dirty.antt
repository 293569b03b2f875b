-- ===== src/Mqfs/Buffers/Dirty.antt =====
-- The write of one dirty metadata buffer, and the lists of buffers that are written one after the
-- other (mqfs/filemap_compat.c, tx_write_dirty_buffer).
use ccnvme.Prelude.{
  ℕ, ◌+◌, ◌≡◌, ◌≢◌, refl, ap, ap₂, sym, ◌∙◌, subst, Bool, true, false, ◌||◌, List, [], ◌∷◌, some,
  Bool-cases, inl, inr, if◌then◌else◌, All,
}
use ccnvme.Kernel.{Kernel, Bio, BufferHead}
use ccnvme.State.{emit}
use ccnvme.Bio.{bh2bio}
use ccnvme.Commit.Laws.{frame}
use ccnvme.Submit.{stream_submit_bh_force_ipu, op_is_ordered_write, op_is_barrier_write}
use ccnvme.Submit.Chain.{Ready, Fits, Journaled, Writes, done, write, ipu_goes_through, Ready-frame}
use ccnvme.Mqfs.{Buffer, Mqfs, Vfs, set_buffer, wait_buffer, end_buffer_write_sync_nolock, tx_sync}
use ccnvme.Mqfs.Buffers.{tx_write_dirty_buffer}
use ccnvme.Mqfs.Buffers.Waits.{update_self, update_ne}

-- a list without repetitions
abbrev pub Distinct : List ℕ → Type 0
Distinct [] = Unit {0}
Distinct (b ∷ l) = All (λ c. b ≢ c) l × Distinct l

-- the buffers of a list that are dirty or under way
abbrev pub busy_of : (ℕ → Buffer) → List ℕ → List ℕ
busy_of f [] = []
busy_of f (b ∷ l) = let rest = busy_of f l in if (f b).dirty || (f b).locked then b ∷ rest else rest

-- what the loop reads of a buffer
abbrev pub look : Buffer → Bool × Bool × BufferHead
look v = (v.dirty, v.locked, v.head)

-- buffers that look the same to the loop
abbrev pub SameOn : List ℕ → (ℕ → Buffer) → (ℕ → Buffer) → Type 0
SameOn l f g = All (λ c. look (g c) ≡ look (f c)) l

pub SameOn-others :
    (l : List ℕ) (b : ℕ) (f g : ℕ → Buffer)
    → All (λ c. b ≢ c) l
    → ((c : ℕ) → b ≢ c → look (g c) ≡ look (f c))
    → SameOn l f g
SameOn-others [] b f g h e = tt
SameOn-others (c ∷ l) b f g h e = (e c h.0, SameOn-others l b f g h.1 e)

pub busy_of-cong : (l : List ℕ) (f g : ℕ → Buffer) → SameOn l f g → busy_of g l ≡ busy_of f l
busy_of-cong [] f g s = refl
busy_of-cong (c ∷ l) f g s =
    ap₂ (λ v r. if v.0 || v.1 then c ∷ r else r) s.0 (busy_of-cong l f g s.1)

pub or_true : (p : Bool) → (p || true) ≡ true
or_true true = refl
or_true false = refl

module _ (K : Kernel) where
  -- the write of a metadata buffer
  abbrev pub bio_of : Buffer → Bio
  bio_of v = bh2bio K v.head tx_sync

  -- the writes of the dirty buffers of a list
  abbrev pub dirty_bios : (ℕ → Buffer) → List ℕ → List Bio
  dirty_bios f [] = []
  dirty_bios f (b ∷ l) =
      let rest = dirty_bios f l in if (f b).dirty then bio_of (f b) ∷ rest else rest

  pub dirty_bios-cong :
      (l : List ℕ) (f g : ℕ → Buffer) → SameOn l f g → dirty_bios g l ≡ dirty_bios f l
  dirty_bios-cong [] f g s = refl
  dirty_bios-cong (c ∷ l) f g s =
      ap₂ (λ v r. if v.0 then bh2bio K v.2 tx_sync ∷ r else r) s.0 (dirty_bios-cong l f g s.1)

  -- the writes of all buffers of a list fit
  abbrev pub AllFit : ℕ → (ℕ → Buffer) → List ℕ → Type 0
  AllFit blocks f l = All (λ b. Fits K blocks (bio_of (f b))) l

  pub AllFit-cong :
      (l : List ℕ) (blocks : ℕ) (f g : ℕ → Buffer)
      → SameOn l f g
      → AllFit blocks f l
      → AllFit blocks g l
  AllFit-cong [] blocks f g s h = tt
  AllFit-cong (c ∷ l) blocks f g s h = (
    subst (λ v. Fits K blocks (bh2bio K v.2 tx_sync)) (sym s.0) h.0,
    AllFit-cong l blocks f g s.1 h.1,
  )

  module _ (V : Vfs K) where
    pub wait_buffer-frame :
        (b : ℕ) (w : Mqfs K)
        → (frame K (wait_buffer K V b w).layer ≡ frame K w.layer)
          × (((wait_buffer K V b w).buffers b).dirty ≡ (w.buffers b).dirty)
          × (((wait_buffer K V b w).buffers b).head ≡ (w.buffers b).head)
          × ((wait_buffer K V b w).inodes ≡ w.inodes)
          × ((c : ℕ) → b ≢ c → (wait_buffer K V b w).buffers c ≡ w.buffers c)
          × ((wait_buffer K V b w).sbi ≡ w.sbi)
          × ((wait_buffer K V b w).bad_unlocks ≡ w.bad_unlocks)
    unfolding wait_buffer set_buffer end_buffer_write_sync_nolock emit
    wait_buffer-frame b w = elim (Bool-cases (w.buffers b).locked) [
      | inl e ↦
          rw (e, wait_buffer)
            (
              refl,
              ap (λ v. v.dirty) (update_self w.buffers b _),
              ap (λ v. v.head) (update_self w.buffers b _),
              refl,
              λ c ne. update_ne w.buffers b c _ ne,
              refl,
              refl,
            )
      | inr e ↦ rw (e, wait_buffer) (refl, refl, refl, refl, λ c ne. refl, refl, refl)
    ]

    -- What the write of one buffer leaves.
    pub record Written (sid blocks b : ℕ) (bios : List Bio) (w w' : Mqfs K) : Type 0 where
      pub writes : Writes K sid bios w.layer w'.layer
      pub clean : (w'.buffers b).dirty ≡ false
      pub head : (w'.buffers b).head ≡ (w.buffers b).head
      pub inodes : w'.inodes ≡ w.inodes
      pub others : (c : ℕ) → b ≢ c → w'.buffers c ≡ w.buffers c
      pub sbi : w'.sbi ≡ w.sbi
      pub unlocks : w'.bad_unlocks ≡ w.bad_unlocks

    pub tx_write_lem :
        (sid blocks b : ℕ) (w : Mqfs K)
        → Ready K sid blocks w.layer
        → Fits K blocks (bio_of (w.buffers b))
        → (w.buffers b).dirty ≡ true
        → (w' : Mqfs K) × (tx_write_dirty_buffer K V b sid w ≡ some w')
          × Written sid blocks b (bio_of (w.buffers b) ∷ []) w w'
    unfolding tx_write_dirty_buffer set_buffer stream_submit_bh_force_ipu op_is_ordered_write
        op_is_barrier_write
    tx_write_lem sid blocks b w r f dirty =
        let q = wait_buffer-frame b w in
        let w1 = wait_buffer K V b w in
        let v = w1.buffers b in
        let j =
          ipu_goes_through K sid blocks (bio_of v) true w1.layer
            (or_true w1.layer.version_consistency) (Ready-frame K sid blocks w.layer w1.layer q.0 r)
            (subst (λ h. Fits K blocks (bh2bio K h tx_sync)) (sym q.2) f) in
        (
          set_buffer K b
              (record v { dirty = false; locked = true; req = true; count = v.count + 1 })
              (record w1 { layer = j.0 }),
          rw (q.1 ∙ dirty) (rw (j.1) refl),
          record {
            writes =
                write q.0 (subst (λ h. Journaled K sid (bh2bio K h tx_sync) w1.layer j.0) q.2 j.2)
                  (done refl);
            clean = ap (λ x. x.dirty) (update_self w1.buffers b _);
            head = ap (λ x. x.head) (update_self w1.buffers b _) ∙ q.2;
            inodes = q.3;
            sbi = q.5;
            unlocks = q.6;
            others = λ c ne. update_ne w1.buffers b c _ ne ∙ q.4 c ne;
          },
        )
