-- ===== src/Race.antt =====
-- Appends of several threads to one queue, ccnvme/horae.c: the compare-and-swap loops of
-- stream_submit_bio_core, one step for each access to the shared words. Between the steps of one
-- thread the others may run.
pub mod Counts
pub mod Slots
pub mod Publish
pub mod Exclusive
use ccnvme.Prelude.{ℕ, ◌≤◌, ◌≡◌, ◌≢◌, ◌==◌, if◌then◌else◌}
use ccnvme.Ring.{ring_space, ring_next}

-- where a thread stands: before the loop; with `tail_old` read; with the space tested, too; between the
-- exchange on the watermark and that on the tail
pub data Pc : Type 0 where
  outside : Pc
  marked : ℕ → Pc
  tested : ℕ → Pc
  reserved : ℕ → Pc

-- the shared words of `struct stream`, and the threads
pub record Shared : Type 0 where
  pub head : ℕ
  pub tail : ℕ
  pub watermark : ℕ
  pub pc : ℕ → Pc

abbrev pub at_thread {ℓ} : {A : Type ℓ} → ℕ → A → (ℕ → A) → ℕ → A
at_thread i v f j = if i == j then v else f j

-- A thread `i` reads the watermark; reads the head and finds space, or finds none and goes round
-- again after its checkpoint; exchanges the watermark, or fails to and goes
-- round again; exchanges the tail, when the tail has come to its slot; and a checkpoint frees the
-- entry at the head.
pub data Step (n : ℕ) : Shared → Shared → Type 0 where
  read_watermark :
      (s : Shared) (i : ℕ)
      → s.pc i ≡ outside
      → Step n s (record s { pc = at_thread i (marked s.watermark) s.pc })
  test_space :
      (s : Shared) (i tail_old : ℕ)
      → s.pc i ≡ marked tail_old
      → 1 ≤ ring_space s.head tail_old n
      → Step n s (record s { pc = at_thread i (tested tail_old) s.pc })
  no_space :
      (s : Shared) (i tail_old : ℕ)
      → s.pc i ≡ marked tail_old
      → ring_space s.head tail_old n ≡ 0
      → Step n s (record s { pc = at_thread i outside s.pc })
  swap_watermark :
      (s : Shared) (i tail_old : ℕ)
      → s.pc i ≡ tested tail_old
      → s.watermark ≡ tail_old
      → Step n s
          (record s { watermark = ring_next tail_old n; pc = at_thread i (reserved tail_old) s.pc })
  retry :
      (s : Shared) (i tail_old : ℕ)
      → s.pc i ≡ tested tail_old
      → s.watermark ≢ tail_old
      → Step n s (record s { pc = at_thread i outside s.pc })
  swap_tail :
      (s : Shared) (i tail_old : ℕ)
      → s.pc i ≡ reserved tail_old
      → s.tail ≡ tail_old
      → Step n s (record s { tail = ring_next tail_old n; pc = at_thread i outside s.pc })
  free_head : (s : Shared) → s.head ≢ s.tail → Step n s (record s { head = ring_next s.head n })

-- There is still space when a thread exchanges the watermark. The code has tested that when it read
-- the watermark, and does not test it again.
abbrev pub Fresh : (n : ℕ) (s s' : Shared) → Step n s s' → Type 0
Fresh n s s' (read_watermark t i p) = Unit {0}
Fresh n s s' (test_space t i tail_old p q) = Unit {0}
Fresh n s s' (no_space t i tail_old p q) = Unit {0}
Fresh n s s' (swap_watermark t i tail_old p q) = 1 ≤ ring_space t.head t.watermark n
Fresh n s s' (retry t i tail_old p q) = Unit {0}
Fresh n s s' (swap_tail t i tail_old p q) = Unit {0}
Fresh n s s' (free_head t p) = Unit {0}

-- a run in which it always is so
pub data FreshRun (n : ℕ) : Shared → Shared → Type 0 where
  stay : (s : Shared) → FreshRun n s s
  move : (s s' t : Shared) (st : Step n s s') → Fresh n s s' st → FreshRun n s' t → FreshRun n s t
