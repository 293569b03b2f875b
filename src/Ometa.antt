-- ===== src/Ometa.antt =====
-- The ordering metadata of ccnvme/horae.h: an entry of a submission queue and its transaction tag.
use ccnvme.Prelude.{ℕ, ◌/◌, ◌%◌, ◌^◌, Bool, ◌==◌}

-- The anonymous enum of the tag bits.
abbrev pub horae_tx_begin : ℕ
horae_tx_begin = 0

abbrev pub horae_tx : ℕ
horae_tx = 1

abbrev pub horae_tx_end : ℕ
horae_tx_end = 2

-- `struct nvme_rw_command_`, less its padding; `tag` has three bits, `device_id` eight.
pub record Ometa : Type 0 where
  pub lba : ℕ
  pub length : ℕ
  pub txid : ℕ
  pub tag : ℕ
  pub device_id : ℕ
  pub plba : ℕ

-- sizeof(struct nvme_rw_command_)
abbrev pub ometa_bytes : ℕ
ometa_bytes = 64

-- `tag & (1 << bit)`
abbrev pub has_bit : ℕ → ℕ → Bool
has_bit tag bit = tag / 2 ^ bit % 2 == 1

abbrev pub zero_ometa : Ometa
zero_ometa = record { lba = 0; length = 0; txid = 0; tag = 0; device_id = 0; plba = 0 }
