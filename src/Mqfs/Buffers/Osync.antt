-- ===== src/Mqfs/Buffers/Osync.antt =====
-- osync_buffers_list (mqfs/filemap_compat.c), which starts again after every wait, against one pass
-- over its list; and what mqfs_wait_mapping_buffers reports.
use mathlib.Core.List.{reverse, reverse_aux}
use ccnvme.Prelude.{
  ℕ, zero, suc, ◌+◌, ◌<◌, ◌≡◌, refl, ap, sym, ◌∙◌, subst, arith, Bool, true, false, not, List, [],
  ◌∷◌, ◌++◌, append_assoc, some, Bool-cases, inl, inr, if◌then◌else◌, All-append, length, ◌>>=◌,
}
use ccnvme.Kernel.{Kernel}
use ccnvme.Mqfs.{Mqfs, Vfs, eio, first_error, wait_buffer}
use ccnvme.Mqfs.Buffers.{
  first_locked, osync_buffers_list, wait_each, take_pending, not_uptodate, same,
  mqfs_wait_mapping_buffers,
}
use ccnvme.Mqfs.Buffers.Waits.{
  flags, any_failed, Idle, any_failed-keeps, Idle-keeps, wait_buffer-unlocks, wait_buffer-keeps,
  wait_each_lem, take_pending-KeepsFlags,
}

module _ (K : Kernel) (V : Vfs K) where
  -- One pass over a list: each locked buffer is waited for, once.
  unfoldable pub one_pass : List ℕ → ℕ → Mqfs K → ℕ × Mqfs K
  one_pass [] err w = (err, w)
  one_pass (b ∷ bs) err w =
      let w1 = wait_buffer K V b w in
      one_pass bs
        (if (w.buffers b).locked then (if (w1.buffers b).uptodate then err else eio) else err) w1

  Idle-wait :
      (l : List ℕ) (b : ℕ) (w : Mqfs K) → Idle l w.buffers → Idle l (wait_buffer K V b w).buffers
  Idle-wait [] b w h = tt
  Idle-wait (c ∷ l) b w h =
      (ap (λ v. v.locked) (wait_buffer-keeps K V b w c h.0) ∙ h.0, Idle-wait l b w h.1)

  first_locked-append :
      (l bs : List ℕ) (w : Mqfs K)
      → Idle l w.buffers
      → first_locked K V (l ++ bs) w ≡ first_locked K V bs w
  unfolding first_locked
  first_locked-append [] bs w h = refl
  first_locked-append (c ∷ l) bs w h = rw (h.0) (first_locked-append l bs w h.1)

  wait_idle : (b : ℕ) (w : Mqfs K) → (w.buffers b).locked ≡ false → wait_buffer K V b w ≡ w
  unfolding wait_buffer
  wait_idle b w h = rw (h, wait_buffer)

  first_held :
      (b : ℕ) (bs : List ℕ) (w : Mqfs K)
      → (w.buffers b).locked ≡ true
      → first_locked K V (b ∷ bs) w ≡ some b
  unfolding first_locked
  first_held b bs w h = rw h

  -- behind buffers that are idle
  osync_behind :
      (l bs : List ℕ) (fuel err : ℕ) (w : Mqfs K)
      → Idle l w.buffers
      → length bs < fuel
      → osync_buffers_list K V fuel (l ++ bs) err w ≡ some (one_pass bs err w)
  unfolding osync_buffers_list one_pass
  osync_behind l bs zero err w h lt = absurd (omega arith)
  osync_behind l [] (suc fuel) err w h lt =
      rw (first_locked-append l [] w h, osync_buffers_list) (unfold first_locked in refl)
  osync_behind l (b ∷ bs) (suc fuel) err w h lt = elim (Bool-cases (w.buffers b).locked) [
    | inl held ↦
        rw (first_locked-append l (b ∷ bs) w h, first_held b bs w held, osync_buffers_list)
          (rw held (
            through fuel _ (wait_buffer K V b w) (
              osync_behind (l ++ (b ∷ [])) bs fuel
                (if ((wait_buffer K V b w).buffers b).uptodate then err else eio)
                (wait_buffer K V b w)
                (All-append _ l (b ∷ []) (Idle-wait l b w h) (wait_buffer-unlocks K V b w, tt))
                (omega arith))))
    | inr free ↦ rw (wait_idle b w free) (
        rw free (
          through (suc fuel) err w (
            osync_behind (l ++ (b ∷ [])) bs (suc fuel) err w (All-append _ l (b ∷ []) h (free, tt))
              (omega arith))))
  ]
    where
      through :
          (n e : ℕ) (x : Mqfs K)
          → osync_buffers_list K V n ((l ++ (b ∷ [])) ++ bs) e x ≡ some (one_pass bs e x)
          → osync_buffers_list K V n (l ++ (b ∷ bs)) e x ≡ some (one_pass bs e x)
      through n e x p =
          subst (λ m. osync_buffers_list K V n m e x ≡ some (one_pass bs e x))
            (append_assoc l (b ∷ []) bs) p

  -- osync_buffers_list, with more rounds than its list has buffers, comes to its end and gives the
  -- same result and the same state as one pass over the list that waits for each locked buffer.
  pub osync-eq-one_pass :
      (l : List ℕ) (fuel err : ℕ) (w : Mqfs K)
      → length l < fuel
      → osync_buffers_list K V fuel l err w ≡ some (one_pass l err w)
  osync-eq-one_pass l fuel err w lt = osync_behind [] l fuel err w tt lt

  one_pass-keeps :
      (l : List ℕ) (err : ℕ) (w : Mqfs K) (c : ℕ)
      → (w.buffers c).locked ≡ false
      → (one_pass l err w).1.buffers c ≡ w.buffers c
  unfolding one_pass
  one_pass-keeps [] err w c h = refl
  one_pass-keeps (b ∷ l) err w c h =
      one_pass-keeps l _ (wait_buffer K V b w) c
        (ap (λ v. v.locked) (wait_buffer-keeps K V b w c h) ∙ h)
      ∙ wait_buffer-keeps K V b w c h

  length-reverse_aux : (l r : List ℕ) → length (reverse_aux l r) ≡ length l + length r
  length-reverse_aux [] r = omega arith
  length-reverse_aux (b ∷ l) r = omega (arith, length-reverse_aux l (b ∷ r))

  first_error_either :
      (p : Bool) (e : ℕ) → first_error (if p then eio else 0) e ≡ (if p then eio else e)
  first_error_either true e = refl
  first_error_either false e = refl

  -- the pending buffers of an inode, in the order in which they are waited for
  abbrev pub pending : ℕ → Mqfs K → List ℕ
  pending ino w = reverse (w.inodes ino).fsmeta_pending_list

  -- the state behind the wait for them
  abbrev pub behind_pending : ℕ → Mqfs K → Mqfs K
  behind_pending ino w =
      (wait_each K V (take_pending K V ino) not_uptodate (same K V) (pending ino w) 0 w).1

  -- mqfs_wait_mapping_buffers of an inode with a buffer mapping comes back, and then no write of a
  -- pending buffer is under way. The result is -EIO if some pending buffer is not up to date; else
  -- it is what one pass over the private list reports, from the state behind the pending buffers.
  pub wait_mapping-reports :
      (ino : ℕ) (w : Mqfs K)
      → (w.inodes ino).has_buffer_mapping ≡ true
      → let w1 = behind_pending ino w in
        let l = reverse (w1.inodes ino).private_list in
        (r : ℕ) × (w' : Mqfs K) × (mqfs_wait_mapping_buffers K V ino w ≡ some (r, w'))
        × Idle (pending ino w) w'.buffers
        × (r ≡ (
            if any_failed not_uptodate w'.buffers (pending ino w)
            then eio
            else (one_pass l 0 w1).0))
        × (w' ≡ (one_pass l 0 w1).1)
  unfolding mqfs_wait_mapping_buffers
  wait_mapping-reports ino w mapped = (
    r,
    w2,
    rw mapped (
        ap (λ o. o >>= λ q. some (first_error first.0 q.0, q.1))
          (osync-eq-one_pass l (suc (length (w1.inodes ino).private_list)) 0 w1
            (omega (arith, length-reverse_aux (w1.inodes ino).private_list [])))
        ∙ ap (λ e. some (e, w2)) result),
    Idle-keeps w1.buffers w2.buffers (λ c h. ap flags (one_pass-keeps l 0 w1 c h)) (pending ino w)
        settled.1,
    refl,
    refl,
  )
    where
      first : ℕ × Mqfs K
      first = wait_each K V (take_pending K V ino) not_uptodate (same K V) (pending ino w) 0 w

      w1 : Mqfs K
      w1 = first.1

      l : List ℕ
      l = reverse (w1.inodes ino).private_list

      w2 : Mqfs K
      w2 = (one_pass l 0 w1).1

      r : ℕ
      r = if any_failed not_uptodate w2.buffers (pending ino w) then eio else (one_pass l 0 w1).0

      settled :
          (first.0 ≡ (if any_failed not_uptodate w1.buffers (pending ino w) then eio else 0))
          × Idle (pending ino w) w1.buffers
      settled =
          wait_each_lem K V (take_pending K V ino) (same K V) not_uptodate
            (take_pending-KeepsFlags K V ino) (λ b x c. refl) (λ u v e. ap (λ t. not t.1) e)
            (pending ino w) 0 w

      result : first_error first.0 (one_pass l 0 w1).0 ≡ r
      result =
          ap (λ e. first_error e (one_pass l 0 w1).0)
            (settled.0
              ∙ ap (λ p. if p then eio else 0)
                  (sym (
                    any_failed-keeps w1.buffers w2.buffers
                      (λ c h. ap flags (one_pass-keeps l 0 w1 c h)) not_uptodate
                      (λ u v e. ap (λ t. not t.1) e) (pending ino w) settled.1)))
          ∙ first_error_either _ (one_pass l 0 w1).0
