-- ===== src/Ring.antt =====
-- The ring arithmetic of ccnvme/horae.h: unsigned words, `horae_ring_space`, `horae_count` and the
-- step `(i + 1) % n` of every loop over a ring.
pub mod Laws
pub mod Window
use ccnvme.Prelude.{ℕ, ◌+◌, ◌-◌, ◌%◌, ◌^◌}

-- uint64_t and uint32_t, by their wrap-around
abbrev pub u64 : ℕ → ℕ
u64 x = x % 2 ^ 64

abbrev pub u32 : ℕ → ℕ
u32 x = x % 2 ^ 32

abbrev pub sub_u64 : ℕ → ℕ → ℕ
sub_u64 a b = (a + 2 ^ 64 - b) % 2 ^ 64

-- The entries that may still be reserved: one slot stays empty.
unfoldable pub ring_space : ℕ → ℕ → ℕ → ℕ
ring_space head tail size = sub_u64 (sub_u64 (u64 (size + head)) tail) 1 % size

-- The entries from `head` up to `tail`.
unfoldable pub ring_count : ℕ → ℕ → ℕ → ℕ
ring_count head tail size = sub_u64 (u64 (size + tail)) head % size

-- The next index.
abbrev pub ring_next : ℕ → ℕ → ℕ
ring_next i size = (i + 1) % size
