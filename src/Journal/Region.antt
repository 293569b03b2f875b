-- ===== src/Journal/Region.antt =====
-- The journal region of one stream: its bounds, and what an allocation makes of its pointer.
use ccnvme.Prelude.{ℕ, ◌+◌, ◌^◌, ◌≤◌, ◌<◌, ◌≡◌, arith, ltb, if◌then◌else◌, refl, lt→ltb, le→ltb}
use native.Mathlib.Decide.{dec_lt}
use ccnvme.Ring.{u64}
use ccnvme.State.{Stream}
use ccnvme.Commit.Laws.{IsRing}

-- The region ends below 2^32, and the write pointer stands in it or at its end.
pub record IsJournal (s : Stream) : Type 0 where
  pub end_small : s.off_in_journal + s.nr_journal_block < 2 ^ 32
  pub from_left : s.off_in_journal ≤ s.j_write_ptr
  pub to_right : s.j_write_ptr ≤ s.off_in_journal + s.nr_journal_block

-- the stream after a checkpoint of its journal
abbrev pub rewound : Stream → Stream
rewound s = record s { head = s.flushed; j_write_ptr = s.off_in_journal }

-- the right end of the region
abbrev pub edge : Stream → ℕ
edge s = s.off_in_journal + s.nr_journal_block

-- the stream with room for `n` blocks
abbrev pub pick : ℕ → Stream → Stream
pick n s = if ltb (edge s) (n + s.j_write_ptr) then rewound s else s

abbrev pub advanced : ℕ → Stream → Stream
advanced n t = record t { j_write_ptr = u64 (t.j_write_ptr + n) }

-- what of a queue is left alone
pub record Untouched (s t : Stream) : Type 0 where
  pub tail : t.tail ≡ s.tail
  pub watermark : t.tail_watermark ≡ s.tail_watermark
  pub size : t.nr_ometa ≡ s.nr_ometa
  pub entries : t.ometa ≡ s.ometa

pub record Picked (n : ℕ) (s t : Stream) : Type 0 where
  pub left : s.off_in_journal ≤ t.j_write_ptr
  pub right : t.j_write_ptr + n ≤ edge s
  pub next : (advanced n t).j_write_ptr ≡ t.j_write_ptr + n
  pub ring : IsRing t
  pub journal : IsJournal (advanced n t)
  pub in_order : n + s.j_write_ptr ≤ edge s → (t.j_write_ptr ≡ s.j_write_ptr) × (t.head ≡ s.head)
  pub restarted :
      edge s < n + s.j_write_ptr → (t.j_write_ptr ≡ s.off_in_journal) × (t.head ≡ s.flushed)
  pub untouched : Untouched s t

pub pick-Picked :
    (n : ℕ) (s : Stream) → n ≤ s.nr_journal_block → IsRing s → IsJournal s → Picked n s (pick n s)
pick-Picked n s h r j = elim (dec_lt (edge s) (n + s.j_write_ptr)) [
  | yes full ↦ rw (lt→ltb (edge s) (n + s.j_write_ptr) full) (record {
    left = omega arith;
    right = omega arith;
    next = omega arith;
    ring = omega arith;
    journal = omega arith;
    in_order = λ p. absurd (omega arith);
    restarted = λ p. (refl, refl);
    untouched = record { tail = refl; watermark = refl; size = refl; entries = refl };
  })
  | no fits ↦ rw (le→ltb (edge s) (n + s.j_write_ptr) (omega arith)) (record {
    left = omega arith;
    right = omega arith;
    next = omega arith;
    ring = omega arith;
    journal = omega arith;
    in_order = λ p. (refl, refl);
    restarted = λ p. absurd (omega arith);
    untouched = record { tail = refl; watermark = refl; size = refl; entries = refl };
  })
]
