-- ===== src/Recovery/Laws.antt =====
-- graceful_shutdown (ccnvme/recovery.c) comes to its end.
use ccnvme.Prelude.{ℕ, ◌+◌, ◌<◌, ◌≡◌, Option, none, some}
use ccnvme.Ometa.{Ometa}
use ccnvme.Kernel.{Kernel, IpuEntry}
use ccnvme.State.{stream_ometa_at, Olayer, stream_at}
use ccnvme.Scan.{Phase}
use ccnvme.Scan.Run.{PhaseWithin}
use ccnvme.Commit.{index_lookup}
use ccnvme.Commit.Laws.{IsRing, frame}

module _ (K : Kernel) (sb : ℕ) where
  -- the blocks of an entry, and of the entries of all streams
  abbrev pub OfEntry : Ometa → ℕ → Type 0
  OfEntry o b = (k : ℕ) × (k < o.length) × (b ≡ o.lba + k)

  abbrev pub OfStreams : Olayer K → ℕ → Type 0
  OfStreams w b =
      (sid : ℕ) × (i : ℕ) × (sid < w.nr_streams) × OfEntry (stream_ometa_at (stream_at K w sid) i) b

  -- A block of a kind whose entry was found in the index, in some state with these streams and
  -- settings, and whose buffer could not be had.
  abbrev pub Missed : (ℕ → Type 0) → Olayer K → Type 0
  Missed B w =
      (b : ℕ) × (u : Olayer K) × (e : IpuEntry) × B b
      × (frame K u ≡ frame K w)
      × (index_lookup K u b ≡ some e)
      × (K.sb_getblk sb b ≡ none)

  -- What is left of the state, or the block that was missed.
  abbrev pub Keeps : (ℕ → Type 0) → Olayer K → Option (Olayer K) → Type 0
  Keeps B w none = Missed B w
  Keeps B w (some w') = frame K w' ≡ frame K w

  -- Every stream that there is has a ring, and all have rings of one length.
  abbrev pub SameRings : ℕ → Olayer K → Type 0
  SameRings nr w =
      (i : ℕ) → i < w.nr_streams → IsRing (stream_at K w i) × ((stream_at K w i).nr_ometa ≡ nr)

  -- the result of the walks: a phase of the ring, and a state
  abbrev Ends : (ℕ → Type 0) → ℕ → Olayer K → Option (Phase × Option (Olayer K)) → Type 0
  Ends B nr w r =
      (p : Phase) × (u : Option (Olayer K)) × (r ≡ some (p, u)) × PhaseWithin nr p × Keeps B w u
