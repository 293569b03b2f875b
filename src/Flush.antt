-- ===== src/Flush.antt =====
-- Flushing a stream, ccnvme/flush.c: stream_blkdev_issue_flush, its asynchronous flushes and
-- stream_blkdev_issue_flush_noop.
pub mod Laws
use ccnvme.Prelude.{
  ℕ, zero, suc, ◌+◌, ◌||◌, ◌&&◌, not, Bool, true, false, Option, none, some, List, [], ◌∷◌, ◌++◌,
  ltb, leb, ◌==◌, if◌then◌else◌, ◌>>=◌,
}
use ccnvme.Ring.{u32, ring_count}
use ccnvme.Kernel.{Kernel, issue_flush, issue_flush_async, wait_for_completion, store_flushed}
use ccnvme.State.{Stream, Olayer, emit, stream_at, put_stream}
use ccnvme.Cmb.{cmb_flush}
use ccnvme.Submit.{known_sid}

-- `stream_cmb_needs_flush`
unfoldable pub stream_cmb_needs_flush : Stream → ℕ → Bool
stream_cmb_needs_flush s device_id = ltb 1 s.nr_devices && not (s.cmb_device_id == device_id)

abbrev pub no_devices : List ℕ → Bool
no_devices [] = true
no_devices (d ∷ ds) = false

module _ (K : Kernel) where
  open K use {has_write_cache, has_queue}

  -- The flush is submitted unless the device has no queue; the caller drops the error.
  unfoldable pub blkdev_issue_flush_async : ℕ → Olayer K → Bool × Olayer K
  blkdev_issue_flush_async dev w =
      if has_queue dev then (true, emit K (issue_flush_async dev) w) else (false, w)

  -- the loop over the devices: those whose completion is waited for, with whether it will come
  unfoldable pub flush_devices : List ℕ → Olayer K → List (ℕ × Bool) × Olayer K
  unfolding blkdev_issue_flush_async
  flush_devices [] w = ([], w)
  flush_devices (dev ∷ devs) w =
      let (sent, w1) = blkdev_issue_flush_async dev w in
      elim (has_write_cache dev) [
        | true ↦ let (pending, w2) = flush_devices devs w1 in ((dev, sent) ∷ pending, w2)
        | false ↦ flush_devices devs (emit K (issue_flush dev) w)
      ]

  -- `wait_for_completion_io` on each; one that never comes is waited for for ever, which is `none`
  unfoldable pub wait_devices : List (ℕ × Bool) → Olayer K → Option (Olayer K)
  wait_devices [] w = some w
  wait_devices ((dev, true) ∷ l) w = wait_devices l (emit K (wait_for_completion dev) w)
  wait_devices ((dev, false) ∷ l) w = none

  unfoldable pub flush_all : List ℕ → Olayer K → Option (Olayer K)
  unfolding flush_devices wait_devices
  flush_all [] w = some w
  flush_all (dev ∷ []) w = some (emit K (issue_flush dev) w)
  flush_all (dev ∷ dev' ∷ devs) w =
      let (pending, w1) = flush_devices (dev ∷ dev' ∷ devs) w in wait_devices pending w1

  -- The return value is 0 where there is nothing to flush, and else a variable that is never set:
  -- it is left out.
  unfoldable pub stream_blkdev_issue_flush : List ℕ → ℕ → Olayer K → Option (Olayer K)
  unfolding known_sid
  stream_blkdev_issue_flush bdevs sid w =
      let id = known_sid K w sid in
      let s = stream_at K w id in
      if no_devices bdevs || ring_count s.head s.tail s.nr_ometa == 0
      then some w
      else flush_all bdevs w >>= (λ w1.
        let s1 = record (stream_at K w1 id) { flushed = u32 s.tail } in
        some (cmb_flush K s1 0 8 (emit K (store_flushed id (u32 s.tail)) (put_stream K w1 id s1))))

  unfoldable pub stream_blkdev_issue_flush_noop : ℕ → Olayer K → Olayer K
  unfolding known_sid
  stream_blkdev_issue_flush_noop sid w =
      let id = known_sid K w sid in
      let s = stream_at K w id in
      if ring_count s.head s.tail s.nr_ometa == 0
      then w
      else put_stream K w id (record s { head = u32 s.tail })
