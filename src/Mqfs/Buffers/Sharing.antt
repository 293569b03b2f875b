-- ===== src/Mqfs/Buffers/Sharing.antt =====
-- Copies of inode buffers (mqfs/page_sharing.c) and the wait that releases them
-- (mqfs/filemap_compat.c, tx_write_wait_inode_buffer).
use mathlib.Core.List.{reverse}
use mathlib.Core.Path.{fun_ext}
use native.Mathlib.Decide.{ℕ_discrete}
use ccnvme.Prelude.{
  ℕ, ◌+◌, ◌-◌, ◌≡◌, ◌≢◌, refl, ap, ap₂, Option, some, none, ◌==◌, sym, ◌∙◌, arith, Bool, true,
  false, not, ◌&&◌, ◌||◌, subst, List, [], ◌∷◌, Bool-cases, inl, inr, if◌then◌else◌, length,
}
use ccnvme.Kernel.{Kernel}
use ccnvme.Mqfs.{
  Mqfs, Vfs, Buffer, Inode, eio, set_buffer, set_inode, wait_buffer, end_buffer_write_sync_nolock,
  update, is_power_of_two,
}
use ccnvme.Mqfs.Buffers.{
  wait_each, take_inodemeta, take_copyout, requested_not_uptodate, same, release_copy_out_bh,
  fresh_head, copy_out_bh, mqfs_alloc, copy_bytes, mqfs_free, freed, tx_write_wait_inode_buffer,
}
use ccnvme.Mqfs.Buffers.Waits.{
  KeepsFlags, Idle, any_failed-keeps, Idle-keeps, flags, any_failed, update_self, update_ne,
  update_keeps, wait_each_lem, wait_each-keeps, take_inodemeta-KeepsFlags, take_copyout-KeepsFlags,
}

module _ (K : Kernel) (V : Vfs K) where
  -- the part of the state that a wait for a buffer leaves
  abbrev pub rest : Mqfs K → (ℕ → Inode) × ℕ × ℕ × (ℕ → Option ℕ)
  rest w = (w.inodes, w.heads, w.pages, w.ranges)

  pub wait_buffer-rest : (b : ℕ) (w : Mqfs K) → rest (wait_buffer K V b w) ≡ rest w
  unfolding wait_buffer set_buffer
  wait_buffer-rest b w = elim (Bool-cases (w.buffers b).locked) [
    | inl e ↦ rw (e, wait_buffer)
    | inr e ↦ rw (e, wait_buffer)
  ]

  -- the copies of an inode, and the counts of what they take
  copies_of : ℕ → Mqfs K → List ℕ × ℕ × ℕ
  copies_of ino w = ((w.inodes ino).copyout_inode_list, w.heads, w.pages)

  first_loop_keeps :
      (ino : ℕ) (bs : List ℕ) (err : ℕ) (w : Mqfs K)
      → copies_of ino
          (wait_each K V (take_inodemeta K V ino) requested_not_uptodate (same K V) bs err w).1
        ≡ copies_of ino w
  unfolding wait_each copies_of take_inodemeta set_buffer set_inode
  first_loop_keeps ino [] err w = refl
  first_loop_keeps ino (b ∷ bs) err w =
      let w0 = take_inodemeta K V ino b w in
      first_loop_keeps ino bs _ (wait_buffer K V b w0)
      ∙ ap (λ r. ((r.0 ino).copyout_inode_list, r.1, r.2)) (wait_buffer-rest b w0)
      ∙ ap (λ l. (l, w.heads, w.pages))
          (ap (λ i. i.copyout_inode_list) (update_self w.inodes ino _))

  released :
      (ino : ℕ) (bs : List ℕ) (err : ℕ) (w : Mqfs K)
      → let w' =
          (wait_each K V
            (take_copyout K V ino)
            requested_not_uptodate
            (release_copy_out_bh K V)
            bs
            err
            w).1 in
        (w'.heads ≡ w.heads - length bs) × (w'.pages ≡ w.pages - length bs)
  unfolding wait_each release_copy_out_bh mqfs_free take_copyout set_buffer set_inode
  released ino [] err w = omega arith
  released ino (b ∷ bs) err w =
      let w0 = take_copyout K V ino b w in
      let w1 = wait_buffer K V b w0 in
      omega (
        arith,
        released ino bs (if requested_not_uptodate (w1.buffers b) then eio else err)
            (release_copy_out_bh K V b w1),
        ap (λ r. r.1) (wait_buffer-rest b w0),
        ap (λ r. r.2) (wait_buffer-rest b w0),
      )

  release-KeepsFlags : (b : ℕ) → KeepsFlags K (release_copy_out_bh K V b)
  unfolding release_copy_out_bh mqfs_free
  release-KeepsFlags b w c = refl

  requested_reads :
      (u v : Buffer) → flags u ≡ flags v → requested_not_uptodate u ≡ requested_not_uptodate v
  requested_reads u v e = ap (λ t. t.2 && not t.1) e

  -- tx_write_wait_inode_buffer waits for the inode's buffers and for the copies. It returns -EIO
  -- exactly if one of these that was sent is not up to date, and each copy gives back a buffer head
  -- and a range of pages.
  pub tx_write_wait-reports :
      (ino : ℕ) (w : Mqfs K)
      → let inodemeta = reverse (w.inodes ino).inodemeta_pending_list in
        let copies = reverse (w.inodes ino).copyout_inode_list in
        let r = tx_write_wait_inode_buffer K V ino w in
        (r.0 ≡ (
          if any_failed requested_not_uptodate r.1.buffers copies
            || any_failed requested_not_uptodate r.1.buffers inodemeta
          then eio
          else 0))
        × Idle copies r.1.buffers
        × Idle inodemeta r.1.buffers
        × (r.1.heads ≡ w.heads - length copies)
        × (r.1.pages ≡ w.pages - length copies)
  unfolding tx_write_wait_inode_buffer copies_of
  tx_write_wait-reports ino w =
      subst (Report (tx_write_wait_inode_buffer K V ino w)) (ap reverse (ap (λ c. c.0) copied)) (
        second.0
            ∙ ap (λ e. if any_failed requested_not_uptodate r.1.buffers copies then eio else e)
                (first.0
                  ∙ ap (λ p. if p then eio else 0)
                      (sym (
                        any_failed-keeps w1.buffers r.1.buffers keeps requested_not_uptodate
                          requested_reads inodemeta first.1)))
            ∙ either (any_failed requested_not_uptodate r.1.buffers copies)
                (any_failed requested_not_uptodate r.1.buffers inodemeta),
        second.1,
        Idle-keeps w1.buffers r.1.buffers keeps inodemeta first.1,
        (released ino copies r1.0 w1).0 ∙ ap (λ c. c.1 - length copies) copied,
        (released ino copies r1.0 w1).1 ∙ ap (λ c. c.2 - length copies) copied,
      )
    where
      inodemeta : List ℕ
      inodemeta = reverse (w.inodes ino).inodemeta_pending_list

      r1 : ℕ × Mqfs K
      r1 = wait_each K V (take_inodemeta K V ino) requested_not_uptodate (same K V) inodemeta 0 w

      w1 : Mqfs K
      w1 = r1.1

      copied : copies_of ino w1 ≡ copies_of ino w
      copied = first_loop_keeps ino inodemeta 0 w

      copies : List ℕ
      copies = reverse (w1.inodes ino).copyout_inode_list

      r : ℕ × Mqfs K
      r =
          wait_each K V (take_copyout K V ino) requested_not_uptodate (release_copy_out_bh K V)
            copies r1.0 w1

      Report : ℕ × Mqfs K → List ℕ → Type 0
      Report q l =
          (q.0 ≡ (
            if any_failed requested_not_uptodate q.1.buffers l
              || any_failed requested_not_uptodate q.1.buffers inodemeta
            then eio
            else 0))
          × Idle l q.1.buffers
          × Idle inodemeta q.1.buffers
          × (q.1.heads ≡ w.heads - length l)
          × (q.1.pages ≡ w.pages - length l)

      first :
          (r1.0 ≡ (if any_failed requested_not_uptodate w1.buffers inodemeta then eio else 0))
          × Idle inodemeta w1.buffers
      first =
          wait_each_lem K V (take_inodemeta K V ino) (same K V) requested_not_uptodate
            (take_inodemeta-KeepsFlags K V ino) (λ b x c. refl) requested_reads inodemeta 0 w

      second :
          (r.0 ≡ (if any_failed requested_not_uptodate r.1.buffers copies then eio else r1.0))
          × Idle copies r.1.buffers
      second =
          wait_each_lem K V (take_copyout K V ino) (release_copy_out_bh K V) requested_not_uptodate
            (take_copyout-KeepsFlags K V ino) release-KeepsFlags requested_reads copies r1.0 w1

      keeps : (c : ℕ) → (w1.buffers c).locked ≡ false → flags (r.1.buffers c) ≡ flags (w1.buffers c)
      keeps c h =
          wait_each-keeps K V (take_copyout K V ino) (release_copy_out_bh K V)
            requested_not_uptodate (take_copyout-KeepsFlags K V ino) release-KeepsFlags
            requested_reads copies r1.0 w1 c h

      either :
          (p q : Bool) → (if p then eio else (if q then eio else 0)) ≡ (if p || q then eio else 0)
      either true q = refl
      either false q = refl

  -- the bytes and the place of a buffer
  abbrev pub block_of : Buffer → List ℕ × ℕ × ℕ × ℕ
  block_of v = (v.b_data, v.head.blocknr, v.head.b_size, v.head.bdev)

  wait_buffer-block :
      (b c : ℕ) (w : Mqfs K) → block_of ((wait_buffer K V b w).buffers c) ≡ block_of (w.buffers c)
  unfolding wait_buffer set_buffer end_buffer_write_sync_nolock
  wait_buffer-block b c w = elim (Bool-cases (w.buffers b).locked) [
    | inl e ↦ rw (e, wait_buffer) (update_keeps block_of w.buffers b _ refl c)
    | inr e ↦ rw (e, wait_buffer)
  ]

  -- A range of pages noted where there was none, and given back.
  given_back :
      (f : ℕ → Option ℕ) (p n : ℕ)
      → f p ≡ none
      → update (update f p (some n)) p (freed (update f p (some n) p) n) ≡ f
  given_back f p n free = fun_ext (λ x. elim (ℕ_discrete p x) [
    | yes q ↦
        ap (update g p (freed (g p) n)) (sym q)
        ∙ update_self g p (freed (g p) n)
        ∙ ap (λ o. freed o n) (update_self f p (some n))
        ∙ same_size
        ∙ sym free
        ∙ ap f q
    | no ne ↦ update_ne g p x (freed (g p) n) ne ∙ update_ne f p x (some n) ne
  ])
    where
      g : ℕ → Option ℕ
      g = update f p (some n)

      same_size : freed (some n) n ≡ none
      same_size = ground arith

  -- A buffer whose size is a power of two is copied, to a head that is not its own, while there are
  -- pages, at an address where no range lies: the copy has the bytes, the block number, the size and
  -- the device of the original, which keeps its own; it holds the address of a range of that size.
  -- Releasing the copy gives back the head and that range, and leaves the others.
  pub copy_out_roundtrip :
      (b : ℕ) (w : Mqfs K)
      → let size = (w.buffers b).head.b_size in
        let ptr = V.get_free_pages w.layer.io size in
        let new = V.new_head w.layer.io in
        is_power_of_two size ≡ true
        → (ptr == 0) ≡ false
        → w.ranges ptr ≡ none
        → new ≢ b
        → (w' : Mqfs K) × (copy_out_bh K V b w ≡ some (0, new, w'))
          × (block_of (w'.buffers new) ≡ block_of (w.buffers b))
          × (block_of (w'.buffers b) ≡ block_of (w.buffers b))
          × ((w'.buffers new).b_private ≡ ptr)
          × (w'.ranges ptr ≡ some size)
          × (rest (release_copy_out_bh K V new w') ≡ rest w)
  unfolding copy_out_bh mqfs_alloc copy_bytes release_copy_out_bh mqfs_free set_buffer
  copy_out_roundtrip b w two got free ne = (
    set_buffer K new x w1,
    rw (two, V.pages-aligned w.layer.io size two, got) refl,
    ap block_of stored ∙ wait_buffer-block b b w0,
    ap block_of (update_ne w1.buffers new b x ne) ∙ wait_buffer-block b b w0,
    ap (λ v. v.b_private) stored,
    ap (λ q. q.3 ptr) (wait_buffer-rest b w0) ∙ update_self w.ranges ptr (some size),
    ap₂ (λ q (v : ℕ × ℕ). (q.0, q.1 - 1, q.2 - 1, update q.3 v.0 (freed (q.3 v.0) v.1)))
          (wait_buffer-rest b w0)
          (ap (λ v. (v.b_private, v.head.b_size)) stored
            ∙ ap (λ d. (ptr, d.2)) (wait_buffer-block b b w0))
        ∙ ap₂ (λ n f. (w.inodes, n.0, n.1, f)) counts (given_back w.ranges ptr size free),
  )
    where
      size : ℕ
      size = (w.buffers b).head.b_size

      ptr : ℕ
      ptr = V.get_free_pages w.layer.io size

      new : ℕ
      new = V.new_head w.layer.io

      w0 : Mqfs K
      w0 = record w {
        heads = w.heads + 1;
        pages = w.pages + 1;
        ranges = update w.ranges ptr (some size);
      }

      w1 : Mqfs K
      w1 = wait_buffer K V b w0

      x : Buffer
      x = fresh_head (w1.buffers b).head 1 ptr (w1.buffers b).b_data

      stored : update w1.buffers new x new ≡ x
      stored = update_self w1.buffers new x

      counts : ◌≡◌ {A = ℕ × ℕ} ((w.heads + 1) - 1, (w.pages + 1) - 1) (w.heads, w.pages)
      counts = ground arith
