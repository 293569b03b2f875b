-- ===== src/Mqfs/Inodes/Parents.antt =====
-- The directories above a new file are written in the same transaction
-- (mqfs/filemap_compat.c, mqfs_atomic_write_parent_submit).
use ccnvme.Prelude.{
  ℕ, zero, suc, ◌≡◌, ◌⊎◌, inl, inr, refl, Bool, true, false, List, [], ◌∷◌, ◌++◌, some, none,
  Option, Bool-cases, ◌==◌,
}
use ccnvme.Kernel.{Kernel}
use ccnvme.Submit.Chain.{Ready}
use ccnvme.Mqfs.{Mqfs, Vfs}
use ccnvme.Mqfs.Inodes.{climb, climb_to, clear_newentry, mqfs_atomic_write_parent_submit}
use ccnvme.Mqfs.Inodes.Phase.{IsSane, Phase, Phase-trans, Phase-Steady}
use ccnvme.Mqfs.Inodes.Mapping.{Steady-set_inode, submit_mapping-Phase, Phase-refl}
use ccnvme.Mqfs.Inodes.Metadata.{write_metadata-Phase}

module _ (K : Kernel) (V : Vfs K) where
  -- The way up from an inode ends in so many steps: at an inode without the mark of a new entry, or
  -- at one without a parent.
  abbrev pub Ends : ℕ → (ℕ → Bool) → ℕ → Type 0
  Ends zero marked ino = ⊥
  Ends (suc n) marked ino =
      (marked ino ≡ false)
      ⊎ ((V.parent_of ino ≡ none) ⊎ ((p : ℕ) × (V.parent_of ino ≡ some p) × Ends n marked p))

  -- no inode has a mark but those that had one
  abbrev pub Within : (ℕ → Bool) → Mqfs K → Type 0
  Within marked w = (i : ℕ) → (w.inodes i).newentry ≡ true → marked i ≡ true

  module _ (sid blocks : ℕ) where
    -- how the way up ends
    Climbed : Mqfs K → Option (ℕ × List ℕ × Mqfs K) → Type 0
    Climbed w o =
        (r : ℕ) × (ws : List ℕ) × (w' : Mqfs K) × (o ≡ some (r, ws, w')) × Phase K sid blocks w w'

    after_parent :
        (p : ℕ) (waiting : List ℕ) (w : Mqfs K)
        (go_on : ℕ → List ℕ → Mqfs K → Option (ℕ × List ℕ × Mqfs K))
        → Ready K sid blocks w.layer
        → IsSane K blocks w
        → ((ws : List ℕ) (x : Mqfs K) → Phase K sid blocks w x → Climbed x (go_on p ws x))
        → Climbed w (climb_to K V go_on (some p) sid waiting w)
    unfolding climb_to Climbed
    after_parent p waiting w go_on r v ih =
        let x = submit_mapping-Phase K V sid blocks p w r v in
        let y = write_metadata-Phase K V sid blocks p x.0 x.2.ready x.2.sane in
        let through = Phase-trans K sid blocks w x.0 y.1 x.2 y.3 in
        elim (Bool-cases (y.0 == 0)) [
          | inl e ↦
              let z = ih (waiting ++ (p ∷ [])) y.1 through in
              (
                z.0,
                z.1,
                z.2,
                rw (x.1) (rw (y.2) (rw e z.3)),
                Phase-trans K sid blocks w y.1 z.2 through z.4,
              )
          | inr e ↦ (y.0, waiting, y.1, rw (x.1) (rw (y.2) (rw e refl)), through)
        ]

    climb-Climbed :
        (fuel ino : ℕ) (waiting : List ℕ) (w : Mqfs K) (marked : ℕ → Bool)
        → Ends fuel marked ino
        → Within marked w
        → Ready K sid blocks w.layer
        → IsSane K blocks w
        → Climbed w (climb K V fuel false ino sid waiting w)
    unfolding climb Climbed climb_to
    climb-Climbed zero ino waiting w marked h m r v = absurd h
    climb-Climbed (suc fuel) ino waiting w marked h m r v =
        elim (Bool-cases (w.inodes ino).newentry) [
          | inr e ↦ rw e (0, waiting, w, refl, Phase-refl K V sid blocks w r v)
          | inl e ↦ rw e (elim h [
            | inl q ↦ absurd (cc (m ino e, q))
            | inr (inl q) ↦ rw q (0, waiting, w, refl, Phase-refl K V sid blocks w r v)
            | inr (inr (p, q, rest)) ↦ rw q (
                after_parent p waiting w (λ p'. climb K V fuel false p' sid) r v
                  (λ ws x t.
                    climb-Climbed fuel p ws x marked rest (λ i f. m i ((t.kept i).1 f)) t.ready
                      t.sane))
          ])
        ]

    clear-Phase :
        (ino : ℕ) (w : Mqfs K)
        → Ready K sid blocks w.layer
        → IsSane K blocks w
        → Phase K sid blocks w (clear_newentry K V ino w)
    unfolding clear_newentry
    clear-Phase ino w r v =
        Phase-Steady K sid blocks w _ r v
          (Steady-set_inode K blocks ino _ w (λ s. s.distinct ino) (refl, λ e. cc))

    -- mqfs_atomic_write_parent_submit, on a ready stream and a sane file system, where the way up
    -- from the inode ends in at most as many steps as there is fuel: it comes back, and all that
    -- has been sent is journaled.
    pub parent_submit-Climbed :
        (fuel ino : ℕ) (w : Mqfs K)
        → Ends fuel (λ i. (w.inodes i).newentry) ino
        → Ready K sid blocks w.layer
        → IsSane K blocks w
        → (r : ℕ) × (ws : List ℕ) × (w' : Mqfs K) × (mqfs_atomic_write_parent_submit K V fuel ino
              sid w
            ≡ some (r, ws, w'))
          × Phase K sid blocks w w'
    unfolding mqfs_atomic_write_parent_submit climb Climbed climb_to
    parent_submit-Climbed zero ino w h r v = absurd h
    parent_submit-Climbed (suc fuel) ino w h r v = elim (Bool-cases (w.inodes ino).newentry) [
      | inr e ↦ rw e (0, [], w, refl, Phase-refl K V sid blocks w r v)
      | inl e ↦ rw e (elim h [
        | inl q ↦ absurd (cc (e, q))
        | inr (inl q) ↦ rw q (0, [], w0, refl, p0)
        | inr (inr (p, q, rest)) ↦
            let x =
              after_parent p [] w0 (λ p'. climb K V fuel false p' sid) p0.ready p0.sane
                (λ ws y t.
                  climb-Climbed fuel p ws y (λ i. (w.inodes i).newentry) rest
                    (λ i f. (p0.kept i).1 ((t.kept i).1 f)) t.ready t.sane) in
            (x.0, x.1, x.2, rw q x.3, Phase-trans K sid blocks w w0 x.2 p0 x.4)
      ])
    ]
      where
        w0 : Mqfs K
        w0 = clear_newentry K V ino w

        p0 : Phase K sid blocks w w0
        p0 = clear-Phase ino w r v
