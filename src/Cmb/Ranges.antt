-- ===== src/Cmb/Ranges.antt =====
-- Which bytes of the controller memory buffer an operation touches (ccnvme/cmb.c).
use native.Mathlib.Decide.{dec_lt}
use ccnvme.Prelude.{
  ℕ, zero, suc, ◌+◌, ◌-◌, ◌*◌, ◌/◌, ◌%◌, ◌^◌, ◌≤◌, ◌<◌, ◌≡◌, ◌⊎◌, inl, inr, arith, List, [], ◌∷◌,
  refl, ltb, lt→ltb, le→ltb, if◌then◌else◌, Bool, true, false, ◌∙◌,
}
use ccnvme.Ring.{u32, sub_u64}
use ccnvme.Ring.Laws.{mod_below}
use ccnvme.Ometa.{ometa_bytes}
use ccnvme.Kernel.{Kernel, memcpy_toio, clflush}
use ccnvme.State.{Stream, Olayer, emit}
use ccnvme.Commit.Laws.{frame}
use ccnvme.Cmb.{
  lines_from, clflush_lines, flush_lines, copy_from_buff_to_dev, copy_from_dev_to_buff, flush_range,
  dev_left, cmb_flush,
}

-- One of the lines has the byte.
abbrev pub Covers : List ℕ → ℕ → Type 0
Covers [] b = ⊥
Covers (l ∷ ls) b = ((l ≤ b) × (b < l + 64)) ⊎ Covers ls b

lines_from-Covers :
    (fuel ptr stop b : ℕ)
    → stop ≤ ptr + fuel
    → ptr ≤ b
    → b < stop
    → Covers (lines_from fuel ptr stop) b
unfolding lines_from
lines_from-Covers zero ptr stop b enough lo hi = absurd (omega arith)
lines_from-Covers (suc fuel) ptr stop b enough lo hi =
    rw (lt→ltb ptr stop (omega arith)) (elim (dec_lt b (ptr + 64)) [
      | yes p ↦ inl (lo, p)
      | no p ↦ inr (lines_from-Covers fuel (ptr + 64) stop b (omega arith) (omega arith) hi)
    ])

-- The loop of `clflush_` ends within its fuel and flushes the line of every byte of a
-- range of fewer than 2^31 bytes.
pub clflush-Covers :
    (addr len b : ℕ) → len < 2 ^ 31 → addr ≤ b → b < addr + len → Covers (clflush_lines addr len) b
unfolding clflush_lines
clflush-Covers addr len b small lo hi = rw (mod_below len (2 ^ 32) (omega arith)) (
    rw (lt→ltb len (2 ^ 31) small)
      (lines_from-Covers (len + 64) (addr / 64 * 64) (addr + len) b (omega arith) (omega arith) hi))

module _ (K : Kernel) where
  pub frame-flush_lines : (ls : List ℕ) (w : Olayer K) → frame K (flush_lines K ls w) ≡ frame K w
  unfolding flush_lines emit
  frame-flush_lines [] w = refl
  frame-flush_lines (l ∷ ls) w = frame-flush_lines ls (emit K (clflush l) w)

  pub frame-if :
      (b : Bool) (x y w : Olayer K)
      → frame K x ≡ frame K w
      → frame K y ≡ frame K w
      → frame K (if b then x else y) ≡ frame K w
  frame-if true x y w p q = p
  frame-if false x y w p q = q

  pub frame-copy :
      (s : Stream) (off len : ℕ) (w : Olayer K)
      → frame K (copy_from_buff_to_dev K s off len w) ≡ frame K w
  unfolding copy_from_buff_to_dev emit
  frame-copy s off len w = frame-if _ _ _ w refl refl

  pub frame-read :
      (s : Stream) (off len : ℕ) (w : Olayer K)
      → frame K (copy_from_dev_to_buff K s off len w) ≡ frame K w
  unfolding copy_from_dev_to_buff emit
  frame-read s off len w = frame-if _ _ _ w refl refl

  frame-flush_range :
      (s : Stream) (off len : ℕ) (w : Olayer K) → frame K (flush_range K s off len w) ≡ frame K w
  unfolding flush_range
  frame-flush_range s off len w =
      frame-if (ltb (dev_left K w off) (u32 len))
        (flush_lines K (clflush_lines s.off_in_cmb (u32 len - dev_left K w off))
          (flush_lines K (clflush_lines (s.off_in_cmb + off) (dev_left K w off)) w))
        (flush_lines K (clflush_lines (s.off_in_cmb + off) len) w) w
        (frame-flush_lines (clflush_lines s.off_in_cmb (u32 len - dev_left K w off))
            (flush_lines K (clflush_lines (s.off_in_cmb + off) (dev_left K w off)) w)
          ∙ frame-flush_lines (clflush_lines (s.off_in_cmb + off) (dev_left K w off)) w)
        (frame-flush_lines (clflush_lines (s.off_in_cmb + off) len) w)

  -- Flushing and reading back leave the module's state alone.
  pub frame-cmb_flush :
      (s : Stream) (off len : ℕ) (w : Olayer K) → frame K (cmb_flush K s off len w) ≡ frame K w
  unfolding cmb_flush
  frame-cmb_flush s off len w =
      frame-read s off 0 (flush_range K s off len w) ∙ frame-flush_range s off len w

  -- A stream whose buffer holds its entries and is shorter than 2^32 bytes: storing an entry copies
  -- its 64 bytes, and these alone, to their place in the stream's part of the buffer, in one piece.
  pub copy-entry :
      (s : Stream) (i : ℕ) (w : Olayer K)
      → i < s.nr_ometa
      → s.ometa_size ≡ s.nr_ometa * ometa_bytes
      → s.ometa_size < 2 ^ 32
      → copy_from_buff_to_dev K s (i * ometa_bytes) ometa_bytes w
        ≡ emit K (memcpy_toio (s.off_in_cmb + i * ometa_bytes) (i * ometa_bytes) ometa_bytes) w
  unfolding copy_from_buff_to_dev
  copy-entry s i w hi size small =
      rw (place, le→ltb (u32 (sub_u64 s.ometa_size (i * ometa_bytes))) ometa_bytes room)
    where
      inside : i * ometa_bytes < s.ometa_size
      inside = omega arith

      place : u32 (i * ometa_bytes % s.ometa_size) ≡ i * ometa_bytes
      place =
          rw (mod_below (i * ometa_bytes) s.ometa_size inside)
            (mod_below (i * ometa_bytes) (2 ^ 32) (omega arith))

      room : ometa_bytes ≤ u32 (sub_u64 s.ometa_size (i * ometa_bytes))
      room = omega arith
