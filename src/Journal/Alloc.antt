-- ===== src/Journal/Alloc.antt =====
-- alloc_journal_block (ccnvme/checkpoint.c): the block that a bio is sent to, and the refusal.
use ccnvme.Prelude.{
  ℕ, ◌+◌, ◌-◌, ◌*◌, ◌^◌, ◌≤◌, ◌<◌, ◌≡◌, arith, some, ap, sym, subst, ◌∙◌, lt→ltb, le→ltb, ltb, leb,
  ◌&&◌, if◌then◌else◌,
}
use ccnvme.Ring.{u32}
use ccnvme.Ring.Laws.{mod_below}
use ccnvme.Kernel.{Kernel, Bio}
use ccnvme.State.{Olayer, stream_at}
use ccnvme.Commit.{index_lookup}
use ccnvme.Commit.Laws.{IsRing, frame}
use ccnvme.Journal.{
  no_block, reserve, alloc_journal_block, journal_write_alloc, note_blocks, horae_get_lba,
  horae_get_secs,
}
use ccnvme.Journal.Region.{Untouched, IsJournal}
use ccnvme.Journal.Bounds.{
  IsSound, Reserved, reserve_lem, Apart-trans, Apart-frame, stream_at-frame,
}
use ccnvme.Journal.Index.{newest, note_blocks-newest, frame-note_blocks}

module _ (K : Kernel) where
  -- A sound stream asked for at most as many blocks as its journal region has gives them: the call
  -- returns a block number such that the blocks from it on lie in the stream's region, sends the
  -- bio to the first sector of that block on the journal device, and leaves the stream sound with
  -- its write pointer behind the blocks. If the blocks fit behind the old write pointer they start
  -- there, else at the left end of the region after a checkpoint has moved `head` to `flushed`. The
  -- other streams stay as they were.
  pub alloc-Reserved :
      (sid n : ℕ) (bio : Bio) (w : Olayer K)
      → IsSound K w sid
      → n ≤ (stream_at K w sid).nr_journal_block
      → (ptr : ℕ) × (w' : Olayer K) × (alloc_journal_block K sid bio n w
          ≡ some (ptr, record bio { dev = w'.cp_dev; sector = ptr * 8 }, w'))
        × Reserved K sid n ptr w w'
  unfolding alloc_journal_block
  alloc-Reserved sid n bio w v h = (
    ptr,
    w',
    rw (le→ltb (stream_at K w sid).nr_journal_block n h, r.2) (rw (from_zero, small)),
    r.3,
  )
    where
      r :
          (ptr : ℕ) × (w' : Olayer K) × (reserve K sid n w ≡ some (ptr, w'))
          × Reserved K sid n ptr w w'
      r = reserve_lem K sid n w v h

      ptr : ℕ
      ptr = r.0

      w' : Olayer K
      w' = r.1

      from_zero : 0 + ptr ≡ ptr
      from_zero = omega arith

      small : u32 ptr ≡ ptr
      small = mod_below ptr (2 ^ 32) (omega (arith, r.3.right, v.journal.end_small))

  -- A request for more blocks than the region has is refused with -1 as a u32, and changes nothing.
  pub alloc-too_large :
      (sid n : ℕ) (bio : Bio) (w : Olayer K)
      → (stream_at K w sid).nr_journal_block < n
      → alloc_journal_block K sid bio n w ≡ some (no_block, bio, w)
  unfolding alloc_journal_block
  alloc-too_large sid n bio w h = rw (lt→ltb (stream_at K w sid).nr_journal_block n h)

  -- what a promise says is in the part of the state that the index does not touch
  Reserved-frame :
      (sid n ptr : ℕ) (w w1 w2 : Olayer K)
      → Reserved K sid n ptr w w1
      → frame K w2 ≡ frame K w1
      → Reserved K sid n ptr w w2
  Reserved-frame sid n ptr w w1 w2 r e = record {
    left = r.left;
    right = r.right;
    next = ap (λ s. s.j_write_ptr) here ∙ r.next;
    in_order = λ q. ((r.in_order q).0, ap (λ s. s.head) here ∙ (r.in_order q).1);
    restarted = λ q. ((r.restarted q).0, ap (λ s. s.head) here ∙ (r.restarted q).1);
    sound = record {
      known = omega (arith, r.sound.known, (Apart-frame K sid w1 w2 e).number);
      ring = subst IsRing (sym here) r.sound.ring;
      journal = subst IsJournal (sym here) r.sound.journal;
    };
    apart = Apart-trans K sid w w1 w2 r.apart (Apart-frame K sid w1 w2 e);
    untouched = subst (Untouched (stream_at K w sid)) (sym here) r.untouched;
  }
    where
      here : stream_at K w2 sid ≡ stream_at K w1 sid
      here = stream_at-frame K w1 w2 sid e

  -- A sound stream asked to journal a bio of at most as many blocks as its region has, with block
  -- numbers of 32 bits: the call takes blocks of the region as `alloc_journal_block` does, sends
  -- the bio to the first of them, and in the index each block of the bio has from then on its new
  -- place and the stream's transaction, unless it had an entry of that transaction or a newer one;
  -- every other block keeps the entry that it had after the room was made.
  pub journal_write-Reserved :
      (sid : ℕ) (bio : Bio) (w : Olayer K)
      → IsSound K w sid
      → horae_get_secs bio ≤ (stream_at K w sid).nr_journal_block
      → horae_get_lba bio + horae_get_secs bio ≤ 2 ^ 32
      → (ptr : ℕ) × (w1 : Olayer K) × (w' : Olayer K) × (journal_write_alloc K sid bio w
          ≡ some (ptr, record bio { dev = w'.cp_dev; sector = ptr * 8 }, w'))
        × (reserve K sid (horae_get_secs bio) w ≡ some (ptr, w1))
        × Reserved K sid (horae_get_secs bio) ptr w w'
        × ((b : ℕ)
            → b < 2 ^ 32
            → 1 ≤ w1.blocks_per_group
            → index_lookup K w' b ≡ (
                if leb (horae_get_lba bio) b && ltb b (horae_get_lba bio + horae_get_secs bio)
                then newest
                    (stream_at K w' sid).last_txid
                    b
                    (ptr + (b - horae_get_lba bio))
                    (index_lookup K w1 b)
                else index_lookup K w1 b))
  unfolding journal_write_alloc
  journal_write-Reserved sid bio w v h fits = (
    ptr,
    w1,
    w',
    rw (le→ltb (stream_at K w sid).nr_journal_block n h, r.2) (rw (from_zero, small)),
    r.2,
    Reserved-frame sid n ptr w w1 w' r.3 kept,
    λ b hb hg. noted b hb hg,
  )
    where
      n : ℕ
      n = horae_get_secs bio

      r :
          (ptr : ℕ) × (w' : Olayer K) × (reserve K sid n w ≡ some (ptr, w'))
          × Reserved K sid n ptr w w'
      r = reserve_lem K sid n w v h

      ptr : ℕ
      ptr = r.0

      w1 : Olayer K
      w1 = r.1

      w' : Olayer K
      w' = note_blocks K (stream_at K w1 sid).last_txid n (horae_get_lba bio) ptr w1

      from_zero : 0 + ptr ≡ ptr
      from_zero = omega arith

      small : u32 ptr ≡ ptr
      small = mod_below ptr (2 ^ 32) (omega (arith, r.3.right, v.journal.end_small))

      kept : frame K w' ≡ frame K w1
      kept = frame-note_blocks K (stream_at K w1 sid).last_txid n (horae_get_lba bio) ptr w1

      noted :
          (b : ℕ)
          → b < 2 ^ 32
          → 1 ≤ w1.blocks_per_group
          → index_lookup K w' b ≡ (
              if leb (horae_get_lba bio) b && ltb b (horae_get_lba bio + n)
              then newest
                  (stream_at K w' sid).last_txid
                  b
                  (ptr + (b - horae_get_lba bio))
                  (index_lookup K w1 b)
              else index_lookup K w1 b)
      noted b hb hg = rw (stream_at-frame K w1 w' sid kept) (
          note_blocks-newest K (stream_at K w1 sid).last_txid n (horae_get_lba bio) ptr w1 b fits hb
            hg)
