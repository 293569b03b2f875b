-- ===== src/Mqfs/PageIo.antt =====
-- File data as bios, mqfs/page-io.c: ext4_io_submit_init, io_submit_init_bio, io_submit_add_bh and
-- ext4_io_submit. What a call submits is a list, which `send_all` hands to the block layer or to
-- ccNVMe. That a bio takes a page, and that there is one, is up to the kernel.
pub mod Runs
use ccnvme.Prelude.{
  ℕ, zero, suc, ◌+◌, ◌*◌, ◌/◌, ◌^◌, Bool, true, false, not, ◌&&◌, Option, none, some, List, [], ◌∷◌,
  ◌++◌, ◌==◌, if◌then◌else◌, ◌>>=◌,
}
use ccnvme.Kernel.{Kernel, Bio, BufferHead, Opf, submit_bio}
use ccnvme.State.{Olayer, emit}
use ccnvme.Submit.{stream_submit_bio_ipu}
use ccnvme.Mqfs.{enomem, sync_only, tx_sync}

-- `enum writeback_sync_modes` with the modes of ccnvme/compat.h
pub data SyncMode : Type 0 where
  wb_sync_none wb_sync_all wb_ordered_all wb_barrier_all wb_tx_write : SyncMode

-- `struct ext4_io_submit` with the two fields of its writeback_control that are read
pub record IoSubmit : Type 0 where
  pub io_bio : Option Bio
  pub io_next_block : ℕ
  pub overwrite : Bool
  pub sync_mode : SyncMode
  pub stream : ℕ

-- What is done with a bio: it is sent as it is, or as a journaled write of a stream.
pub data Route : Type 0 where
  plain : Bio → Route
  in_stream : ℕ → Bio → Route

-- What the kernel decides: whether a bio is there, and whether it takes so many bytes more.
pub record BlockLayer : Type 0 where
  pub has_bio : BufferHead → Bool
  pub takes : Bio → ℕ → Bool

abbrev pub no_flags : Opf
no_flags = record sync_only { rest = 0 }

-- `io_op_flags`: the ordering flags only for an overwrite
unfoldable pub io_op_flags : SyncMode → Bool → Opf
io_op_flags wb_sync_none overwrite = no_flags
io_op_flags wb_sync_all overwrite = sync_only
io_op_flags wb_tx_write overwrite = if overwrite then tx_sync else no_flags
io_op_flags wb_ordered_all overwrite =
    if overwrite then record sync_only { ordered = true } else no_flags
io_op_flags wb_barrier_all overwrite =
    if overwrite then record sync_only { barrier = true } else no_flags

abbrev pub routed : IoSubmit → Option Bio → List Route
routed io none = []
routed io (some bio) =
    let bio' = record bio { opf = io_op_flags io.sync_mode io.overwrite } in
    (if io.overwrite then in_stream io.stream bio' else plain bio') ∷ []

unfoldable pub ext4_io_submit : IoSubmit → List Route × IoSubmit
ext4_io_submit io = (routed io io.io_bio, record io { io_bio = none })

unfoldable pub ext4_io_submit_init : IoSubmit → SyncMode → ℕ → IoSubmit
ext4_io_submit_init io mode stream = record io {
  sync_mode = mode;
  stream = stream;
  io_bio = none;
  overwrite = false;
}

abbrev pub breaks : IoSubmit → BufferHead → Option Bio → Bool
breaks io bh none = false
breaks io bh (some bio) = not (bh.blocknr == io.io_next_block)

-- submit_and_retry: what was submitted before goes first
abbrev pub behind :
    List Route → Option (ℕ × List Route × IoSubmit) → Option (ℕ × List Route × IoSubmit)
behind out o = o >>= λ r. some (r.0, out ++ r.1, r.2)

module _ (B : BlockLayer) where
  unfoldable pub io_submit_init_bio : IoSubmit → BufferHead → ℕ × IoSubmit
  io_submit_init_bio io bh =
      if B.has_bio bh
      then (
        0,
        record io {
          io_bio = some (record {
            dev = bh.bdev;
            sector = bh.blocknr * (bh.b_size / 2 ^ 9);
            size = 0;
            opf = no_flags;
          });
          io_next_block = bh.blocknr;
        },
      )
      else (enomem, io)

  -- `if (io->io_bio == NULL)`
  abbrev pub with_bio : IoSubmit → BufferHead → Option Bio → ℕ × IoSubmit
  with_bio io bh (some bio) = (0, io)
  with_bio io bh none = io_submit_init_bio io bh

  -- bio_add_page, with what is left to do if the bio does not take the page
  abbrev pub add_page :
      (IoSubmit → Option (ℕ × List Route × IoSubmit))
      → IoSubmit
      → BufferHead
      → Option Bio
      → Option (ℕ × List Route × IoSubmit)
  add_page retry io bh none = none
  add_page retry io bh (some bio) =
      if B.takes bio bh.b_size
      then some (
        0,
        [],
        record io {
          io_bio = some (record bio { size = bio.size + bh.b_size });
          io_next_block = io.io_next_block + 1;
        },
      )
      else retry io

  -- from `if (io->io_bio == NULL)` on; `fuel` bounds the retries, see `Runs`
  unfoldable pub put_bh : ℕ → BufferHead → Bool → IoSubmit → Option (ℕ × List Route × IoSubmit)
  put_bh zero bh overwrite io = none
  put_bh (suc fuel) bh overwrite io =
      let r = with_bio io bh io.io_bio in
      let io1 = record (r.1) { overwrite = if overwrite then true else (r.1).overwrite } in
      if r.0 == 0
      then add_page (λ io2. let s = ext4_io_submit io2 in behind s.0 (put_bh fuel bh overwrite s.1))
          io1 bh io1.io_bio
      else some (r.0, [], r.1)

  unfoldable pub io_submit_add_bh :
      BufferHead → Bool → IoSubmit → Option (ℕ × List Route × IoSubmit)
  io_submit_add_bh bh overwrite io =
      if breaks io bh io.io_bio
      then (let s = ext4_io_submit io in behind s.0 (put_bh 2 bh overwrite s.1))
      else put_bh 2 bh overwrite io

module _ (K : Kernel) where
  unfoldable pub send : Route → Olayer K → Option (Olayer K)
  send (plain bio) l = some (emit K (submit_bio bio) l)
  send (in_stream stream bio) l = stream_submit_bio_ipu K bio stream false l

  unfoldable pub send_all : List Route → Olayer K → Option (Olayer K)
  send_all [] l = some l
  send_all (r ∷ rs) l = send r l >>= λ l'. send_all rs l'
