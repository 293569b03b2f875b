-- ===== src/State.antt =====
-- The state of the module (ccnvme/horae.h): `struct stream`, `struct registerd_dev`,
-- `struct olayer_info` with the module's parameters, and what it has sent to the devices so far.
use ccnvme.Prelude.{
  ℕ, ◌+◌, ◌%◌, ◌^◌, ◌<◌, ◌≡◌, Bool, false, List, [], ◌∷◌, length, get_or, set, ◌≢◌, length-set,
  get_or-set_self, get_or-set_ne, get_or-set_out, ◌≤◌,
}
use ccnvme.Ometa.{Ometa, zero_ometa}
use ccnvme.Kernel.{Kernel, Event}

pub record Stream : Type 0 where
  pub ometa_size : ℕ
  pub nr_ometa : ℕ
  pub off_in_cmb : ℕ
  pub head : ℕ
  pub tail : ℕ
  pub tail_watermark : ℕ
  pub flushed : ℕ
  pub last_txid : ℕ
  pub committed : Bool
  pub last_queue_flushed : ℕ
  pub ometa : List Ometa
  pub cp_size : ℕ
  pub nr_cp_block : ℕ
  pub off_in_cp : ℕ
  pub j_size : ℕ
  pub nr_journal_block : ℕ
  pub off_in_journal : ℕ
  pub j_write_ptr : ℕ
  pub nr_devices : ℕ
  pub cmb_device_id : ℕ
  pub stream_id : ℕ
  pub delegated_bio : ℕ
  pub done_by_self_bio : ℕ

-- `stream_ometa_at`
unfoldable pub stream_ometa_at : Stream → ℕ → Ometa
stream_ometa_at s idx = get_or s.ometa idx zero_ometa

abbrev pub blank_stream : Stream
blank_stream = record {
  ometa_size = 0;
  nr_ometa = 0;
  off_in_cmb = 0;
  head = 0;
  tail = 0;
  tail_watermark = 0;
  flushed = 0;
  last_txid = 0;
  committed = false;
  last_queue_flushed = 0;
  ometa = [];
  cp_size = 0;
  nr_cp_block = 0;
  off_in_cp = 0;
  j_size = 0;
  nr_journal_block = 0;
  off_in_journal = 0;
  j_write_ptr = 0;
  nr_devices = 0;
  cmb_device_id = 0;
  stream_id = 0;
  delegated_bio = 0;
  done_by_self_bio = 0;
}

-- `find_ometa_idx`
unfoldable pub find_ometa_idx : Stream → ℕ → ℕ
find_ometa_idx s off = (off + s.head) % s.nr_ometa

-- `struct registerd_dev`: a device and the super block on it
pub record RegisteredDev : Type 0 where
  pub dev_id : ℕ
  pub sb : ℕ

-- the minor number of a `dev_t`
abbrev pub minor : ℕ → ℕ
minor dev = dev % 2 ^ 20

module _ (K : Kernel) where
  open K use {Tree}

  pub record Olayer : Type 0 where
    pub streams : List Stream
    pub olog_size : ℕ
    pub registered_list : List RegisteredDev
    pub ipu_tree : ℕ → Tree
    pub blocks_per_group : ℕ
    pub nr_streams : ℕ
    pub version_consistency : Bool
    pub journal_size : ℕ
    pub cp_size : ℕ
    pub cp_dev : ℕ
    pub dev_size : ℕ
    pub io : List Event

  -- newest first
  unfoldable pub emit : Event → Olayer → Olayer
  emit e w = record w { io = e ∷ w.io }

  -- `&olayer->stream[sid]`, read and written
  unfoldable pub stream_at : Olayer → ℕ → Stream
  stream_at w sid = get_or w.streams sid blank_stream

  unfoldable pub put_stream : Olayer → ℕ → Stream → Olayer
  put_stream w sid s = record w { streams = set w.streams sid s }

  pub stream_at-put_self :
      (w : Olayer) (sid : ℕ) (s : Stream)
      → sid < length w.streams
      → stream_at (put_stream w sid s) sid ≡ s
  unfolding stream_at put_stream
  stream_at-put_self w sid s h = get_or-set_self w.streams sid s blank_stream h

  pub stream_at-put_out :
      (w : Olayer) (sid : ℕ) (s : Stream)
      → length w.streams ≤ sid
      → stream_at (put_stream w sid s) sid ≡ stream_at w sid
  unfolding stream_at put_stream
  stream_at-put_out w sid s h = get_or-set_out w.streams sid s blank_stream h

  pub stream_at-put_ne :
      (w : Olayer) (sid other : ℕ) (s : Stream)
      → sid ≢ other
      → stream_at (put_stream w sid s) other ≡ stream_at w other
  unfolding stream_at put_stream
  stream_at-put_ne w sid other s ne = get_or-set_ne w.streams sid other s blank_stream ne

  pub length-put_stream :
      (w : Olayer) (sid : ℕ) (s : Stream) → length (put_stream w sid s).streams ≡ length w.streams
  unfolding put_stream
  length-put_stream w sid s = length-set w.streams sid s
