-- ===== src/Cmb.antt =====
-- The controller memory buffer that holds the submission queues, ccnvme/cmb.c: copies to and from
-- it and the flush of its cache lines. Addresses count from `dev_addr`, which is page-aligned.
pub mod Ranges
pub mod Map
use ccnvme.Prelude.{ℕ, zero, suc, ◌+◌, ◌-◌, ◌*◌, ◌/◌, ◌%◌, ◌^◌, List, [], ◌∷◌, ltb, if◌then◌else◌}
use ccnvme.Ring.{u32, sub_u64}
use ccnvme.Kernel.{Kernel, Event, memcpy_toio, memcpy_fromio, clflush}
use ccnvme.State.{Stream, Olayer, emit}

-- The lines of 64 bytes that the loop of `clflush_` goes through, from `ptr` up to `stop`.
unfoldable pub lines_from : ℕ → ℕ → ℕ → List ℕ
lines_from zero ptr stop = []
lines_from (suc fuel) ptr stop =
    let rest = lines_from fuel (ptr + 64) stop in if ltb ptr stop then ptr ∷ rest else []

-- `data + len`, where `len` is an int: from 2^31 on its bits are those of a negative number.
abbrev pub end_of : ℕ → ℕ → ℕ
end_of addr len = if ltb (u32 len) (2 ^ 31) then addr + u32 len else addr + u32 len - 2 ^ 32

-- `clflush_(data, len)`: the loop starts at `data & ~63`; `len + 64` is fuel enough.
unfoldable pub clflush_lines : ℕ → ℕ → List ℕ
unfolding lines_from
clflush_lines addr len = lines_from (u32 len + 64) (addr / 64 * 64) (end_of addr len)

module _ (K : Kernel) where
  unfoldable pub flush_lines : List ℕ → Olayer K → Olayer K
  flush_lines [] w = w
  flush_lines (l ∷ ls) w = flush_lines ls (emit K (clflush l) w)

  -- `data_off` is the offset of the data in the buffer that starts at `ometa_start`.
  unfoldable pub copy_from_buff_to_dev : Stream → ℕ → ℕ → Olayer K → Olayer K
  copy_from_buff_to_dev str data_off data_len w =
      let buff_off = u32 (data_off % str.ometa_size) in
      let buff_left = u32 (sub_u64 str.ometa_size buff_off) in
      if ltb buff_left data_len
      then emit K (memcpy_toio str.off_in_cmb 0 (data_len - buff_left))
          (emit K (memcpy_toio (str.off_in_cmb + buff_off) data_off buff_left) w)
      else emit K (memcpy_toio (str.off_in_cmb + buff_off) data_off data_len) w

  unfoldable pub copy_from_dev_to_buff : Stream → ℕ → ℕ → Olayer K → Olayer K
  copy_from_dev_to_buff str data_off data_len w =
      let dev_left = u32 (sub_u64 w.dev_size data_off) in
      if ltb dev_left data_len
      then emit K (memcpy_fromio str.off_in_cmb (data_len - dev_left))
          (emit K (memcpy_fromio (str.off_in_cmb + data_off) dev_left) w)
      else emit K (memcpy_fromio (str.off_in_cmb + data_off) data_len) w

  -- what is left of the buffer behind `data_off`, as cmb_flush computes it
  abbrev pub dev_left : Olayer K → ℕ → ℕ
  dev_left w data_off = u32 (sub_u64 w.dev_size data_off)

  -- the flush to the root complex
  unfoldable pub flush_range : Stream → ℕ → ℕ → Olayer K → Olayer K
  unfolding clflush_lines flush_lines
  flush_range str data_off data_len w =
      if ltb (dev_left w data_off) (u32 data_len)
      then flush_lines (clflush_lines str.off_in_cmb (u32 data_len - dev_left w data_off))
          (flush_lines (clflush_lines (str.off_in_cmb + data_off) (dev_left w data_off)) w)
      else flush_lines (clflush_lines (str.off_in_cmb + data_off) data_len) w

  -- and the empty read that pushes it on to the device
  unfoldable pub cmb_flush : Stream → ℕ → ℕ → Olayer K → Olayer K
  unfolding flush_range copy_from_dev_to_buff
  cmb_flush str data_off data_len w =
      copy_from_dev_to_buff str data_off 0 (flush_range str data_off data_len w)

  unfoldable pub cmb_write : Stream → ℕ → ℕ → Olayer K → Olayer K
  unfolding copy_from_buff_to_dev
  cmb_write str data_off data_len w = copy_from_buff_to_dev str data_off data_len w

  unfoldable pub cmb_read : Stream → ℕ → ℕ → Olayer K → Olayer K
  unfolding copy_from_dev_to_buff
  cmb_read str data_off data_len w = copy_from_dev_to_buff str data_off data_len w
