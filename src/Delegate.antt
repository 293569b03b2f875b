-- ===== src/Delegate.antt =====
-- The background submitters, ccnvme/submitter.c: delegate_bio and the loop of bio_delegater. The
-- calls for one submitter do not overlap here; Race has the exchanges that delegate_bio repeats.
pub mod Fifo
use ccnvme.Prelude.{
  ℕ, zero, suc, ◌+◌, ◌%◌, Bool, true, false, Option, none, some, List, [], ◌∷◌, length, get_or, set,
  ltb, leb, ◌==◌, if◌then◌else◌, ◌>>=◌,
}
use ccnvme.Ring.{ring_space, ring_next}
use ccnvme.Kernel.{Kernel, Bio, Opf, submit_bio}
use ccnvme.State.{Stream, Olayer, emit, stream_at, put_stream}
use ccnvme.Checkpoint.{sync_fua}

-- `struct submitter_ring`; of the flags there is HORAE_SUBMITTER_NEED_WAKEUP.
pub record SubmitterRing : Type 0 where
  pub head : ℕ
  pub tail : ℕ
  pub len : ℕ
  pub tail_watermark : ℕ
  pub bio_sqes : List Bio
  pub need_wakeup : Bool

-- what stands where no bio has been stored
abbrev pub no_bio : Bio
no_bio = record { dev = 0; sector = 0; size = 0; opf = sync_fua }

unfoldable pub sqe_at : SubmitterRing → ℕ → Bio
sqe_at r i = get_or r.bio_sqes i no_bio

abbrev pub blank_ring : SubmitterRing
blank_ring = record {
  head = 0;
  tail = 0;
  len = 0;
  tail_watermark = 0;
  bio_sqes = [];
  need_wakeup = false;
}

module _ (K : Kernel) where
  -- the module's state, the rings of the submitters, and the submitters that were woken, newest
  -- first
  pub record Delegation : Type 0 where
    pub layer : Olayer K
    pub rings : List SubmitterRing
    pub woken : List ℕ

  -- `if (submitter_id >= nr_submitters) submitter_id %= nr_submitters`
  abbrev pub known_submitter : Delegation → ℕ → ℕ
  known_submitter d id = if leb (length d.rings) id then id % length d.rings else id

  abbrev pub ring_at : Delegation → ℕ → SubmitterRing
  ring_at d id = get_or d.rings id blank_ring

  -- a ring with a bio stored at its tail
  unfoldable pub pushed : Bio → SubmitterRing → SubmitterRing
  pushed bio r = record r {
    tail_watermark = ring_next r.tail_watermark r.len;
    bio_sqes = set r.bio_sqes r.tail_watermark bio;
    tail = ring_next r.tail_watermark r.len;
  }

  -- The bio is put in the ring, or submitted at once where that is full. The loop that waits for
  -- the tail to come to the slot waits for ever if nobody moves it, which is `none`.
  unfoldable pub delegate_bio : ℕ → Bio → ℕ → Delegation → Option Delegation
  delegate_bio sid bio submitter_id d =
      let id = known_submitter d submitter_id in
      let r = ring_at d id in
      let s = stream_at K d.layer sid in
      if ltb (ring_space r.head r.tail_watermark r.len) 1
      then some (record d {
        layer =
            emit K (submit_bio bio)
              (put_stream K d.layer sid (record s { done_by_self_bio = s.done_by_self_bio + 1 }));
      })
      else (if r.tail == r.tail_watermark
          then some (record {
            layer = put_stream K d.layer sid (record s { delegated_bio = s.delegated_bio + 1 });
            rings = set d.rings id (pushed bio r);
            woken = if r.need_wakeup then id ∷ d.woken else d.woken;
          })
          else none)

  -- `do { if (head == ring->tail) break; ... } while (1)`: the bios that are submitted
  unfoldable pub submit_all : ℕ → ℕ → SubmitterRing → Olayer K → Option (ℕ × Olayer K)
  submit_all zero head r w = if head == r.tail then some (head, w) else none
  submit_all (suc fuel) head r w = elim (head == r.tail) [
    | true ↦ some (head, w)
    | false ↦ submit_all fuel (ring_next head r.len) r (emit K (submit_bio (sqe_at r head)) w)
  ]

  -- one round of bio_delegater, up to the store of the head
  unfoldable pub bio_delegater : ℕ → Delegation → Option Delegation
  unfolding submit_all
  bio_delegater id d =
      let r = ring_at d id in
      submit_all r.len r.head r d.layer >>= λ q.
      some (record d { layer = q.1; rings = set d.rings id (record r { head = q.0 }) })
