-- ===== src/Flush/Laws.antt =====
-- What a flush of a stream guarantees (ccnvme/flush.c).
use ccnvme.Prelude.{
  ℕ, ◌<◌, ◌≡◌, ◌≢◌, inl, inr, arith, List, [], ◌∷◌, ◌++◌, ap, sym, if◌then◌else◌, some, All, refl,
  ◌∙◌, Bool, true, false, Bool-cases, lt→leb, ==_ne, ◌==◌,
}
use ccnvme.Ring.{u32, ring_count}
use ccnvme.Ring.Laws.{ring_count-pos}
use ccnvme.Kernel.{
  Kernel, Event, issue_flush, issue_flush_async, wait_for_completion, store_flushed,
}
use ccnvme.State.{Stream, Olayer, emit, stream_at, put_stream, stream_at-put_self}
use ccnvme.Cmb.{cmb_flush}
use ccnvme.Cmb.Ranges.{frame-cmb_flush}
use ccnvme.Commit.Laws.{frame}
use ccnvme.Journal.Bounds.{IsSound, Apart, Apart-trans, Apart-put, Apart-frame, stream_at-frame}
use ccnvme.Submit.{known_sid}
use ccnvme.Flush.{flush_devices, wait_devices, flush_all, stream_blkdev_issue_flush}

module _ (K : Kernel) where
  -- a device whose flush will be answered
  abbrev pub Answers : ℕ → Type 0
  Answers d = K.has_write_cache d ≡ true → K.has_queue d ≡ true

  -- The flushes of several devices, oldest first: one for each, which is asynchronous if the device
  -- has a write cache; and then the waits for those that are.
  unfoldable pub sends : List ℕ → List Event
  sends [] = []
  sends (d ∷ ds) = (if K.has_write_cache d then issue_flush_async d else issue_flush d) ∷ sends ds

  unfoldable pub waits : List ℕ → List Event
  waits [] = []
  waits (d ∷ ds) =
      let rest = waits ds in if K.has_write_cache d then wait_for_completion d ∷ rest else rest

  -- of one device: a flush that waits
  abbrev pub flushes : List ℕ → List Event
  flushes [] = []
  flushes (d ∷ []) = issue_flush d ∷ []
  flushes (d ∷ d' ∷ ds) = sends (d ∷ d' ∷ ds) ++ waits (d ∷ d' ∷ ds)

  -- a state behind some events, the first of which comes first
  abbrev pub behind : List Event → Olayer K → Olayer K
  behind [] w = w
  behind (e ∷ es) w = behind es (emit K e w)

  behind-append : (l r : List Event) (w : Olayer K) → behind (l ++ r) w ≡ behind r (behind l w)
  behind-append [] r w = refl
  behind-append (e ∷ l) r w = behind-append l r (emit K e w)

  frame-behind : (l : List Event) (w : Olayer K) → frame K (behind l w) ≡ frame K w
  unfolding emit
  frame-behind [] w = refl
  frame-behind (e ∷ l) w = frame-behind l (emit K e w)

  -- the devices with a write cache, whose completions all come
  pending : List ℕ → List (ℕ × Bool)
  pending [] = []
  pending (d ∷ ds) = if K.has_write_cache d then (d, true) ∷ pending ds else pending ds

  flush_devices_lem :
      (devs : List ℕ) (w : Olayer K)
      → All Answers devs
      → flush_devices K devs w ≡ (pending devs, behind (sends devs) w)
  unfolding flush_devices sends pending
  flush_devices_lem [] w h = refl
  flush_devices_lem (dev ∷ devs) w h = elim (Bool-cases (K.has_write_cache dev)) [
    | inl c ↦
        rw (c, flush_devices)
          (rw (h.0 c) (rw (flush_devices_lem devs (emit K (issue_flush_async dev) w) h.1) refl))
    | inr c ↦ rw (c, flush_devices) (flush_devices_lem devs (emit K (issue_flush dev) w) h.1)
  ]

  wait_devices_lem :
      (devs : List ℕ) (w : Olayer K)
      → wait_devices K (pending devs) w ≡ some (behind (waits devs) w)
  unfolding wait_devices pending waits
  wait_devices_lem [] w = refl
  wait_devices_lem (d ∷ devs) w = elim (Bool-cases (K.has_write_cache d)) [
    | inl c ↦ rw (c, wait_devices) (wait_devices_lem devs (emit K (wait_for_completion d) w))
    | inr c ↦ rw c (wait_devices_lem devs w)
  ]

  flush_all_lem :
      (devs : List ℕ) (w : Olayer K)
      → All Answers devs
      → flush_all K devs w ≡ some (behind (flushes devs) w)
  unfolding flush_all
  flush_all_lem [] w h = refl
  flush_all_lem (d ∷ []) w h = refl
  flush_all_lem (d ∷ d' ∷ ds) w h =
      let devs = d ∷ d' ∷ ds in
      rw (flush_devices_lem devs w h) (
        wait_devices_lem devs (behind (sends devs) w)
        ∙ ap (λ x. some x) (sym (behind-append (sends devs) (waits devs) w)))

  -- A flush of a sound stream that has entries, over at least one device, each of which has a queue
  -- if it has a write cache: the call comes back, and these are its events, in this order. Each
  -- device is sent a flush; the completion of each flush that was sent asynchronously is waited
  -- for; `flushed` is moved to the tail that was read at the beginning; and the cache line of the
  -- pointer is flushed. Nothing else of the stream and no other stream has changed.
  pub issue_flush-moves_flushed :
      (dev : ℕ) (devs : List ℕ) (sid : ℕ) (w : Olayer K)
      → IsSound K w sid
      → sid < w.nr_streams
      → (stream_at K w sid).head ≢ (stream_at K w sid).tail
      → All Answers (dev ∷ devs)
      → (w' : Olayer K) × (stream_blkdev_issue_flush K (dev ∷ devs) sid w ≡ some w')
        × (w'
            ≡ cmb_flush K
                (record (stream_at K w sid) { flushed = (stream_at K w sid).tail })
                0
                8
                (emit K (store_flushed sid (stream_at K w sid).tail) (
                  put_stream K
                    (behind (flushes (dev ∷ devs)) w)
                    sid
                    (record (stream_at K w sid) { flushed = (stream_at K w sid).tail }))))
        × (stream_at K w' sid ≡ record (stream_at K w sid) { flushed = (stream_at K w sid).tail })
        × Apart K sid w w'
  unfolding stream_blkdev_issue_flush known_sid emit
  issue_flush-moves_flushed dev devs sid w v known ne h = (
    w2,
    rw (lt→leb w.nr_streams sid known, busy, flush_all_lem (dev ∷ devs) w h)
        (rw (stream_at-frame K w w1 sid kept, whole)),
    refl,
    here,
    apart,
  )
    where
      s : Stream
      s = stream_at K w sid

      w1 : Olayer K
      w1 = behind (flushes (dev ∷ devs)) w

      kept : frame K w1 ≡ frame K w
      kept = frame-behind (flushes (dev ∷ devs)) w

      s1 : Stream
      s1 = record s { flushed = s.tail }

      w3 : Olayer K
      w3 = emit K (store_flushed sid s.tail) (put_stream K w1 sid s1)

      w2 : Olayer K
      w2 = cmb_flush K s1 0 8 w3

      busy : (ring_count s.head s.tail s.nr_ometa == 0) ≡ false
      busy = ==_ne _ 0 (
          omega (
            arith,
            ring_count-pos s.head s.tail s.nr_ometa v.ring.head_in v.ring.tail_in
                (omega (arith, v.ring.small)) ne,
          ))

      whole : u32 s.tail ≡ s.tail
      whole = omega (arith, v.ring.tail_in, v.ring.small)

      flushed : frame K w2 ≡ frame K (put_stream K w1 sid s1)
      flushed = frame-cmb_flush K s1 0 8 w3

      here : stream_at K w2 sid ≡ s1
      here =
          stream_at-frame K (put_stream K w1 sid s1) w2 sid flushed
          ∙ stream_at-put_self K w1 sid s1
              (omega (arith, v.known, (Apart-frame K sid w w1 kept).number))

      apart : Apart K sid w w2
      apart =
          Apart-trans K sid w (put_stream K w1 sid s1) w2
            (Apart-put K sid w w1 s1 (Apart-frame K sid w w1 kept) refl refl)
            (Apart-frame K sid _ w2 flushed)
