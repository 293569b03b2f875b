-- ===== src/Examples/Delegate.antt =====
-- The theorems on the background submitters, applied: one ring of four slots with one bio in it.
use ccnvme.Prelude.{◌≡◌, arith, true, some, [], ◌∷◌, refl, replicate}
use ccnvme.Delegate.{SubmitterRing, no_bio, Delegation, ring_at, bio_delegater}
use ccnvme.Delegate.Fifo.{IsSubmitterRing, waiting, submitted, bio_delegater-empties}
use ccnvme.Examples.{host, busy, layer_of}

abbrev one_waits : SubmitterRing
one_waits = record {
  head = 3;
  tail = 0;
  len = 4;
  tail_watermark = 0;
  bio_sqes = replicate 4 no_bio;
  need_wakeup = true;
}

abbrev delegated : Delegation host
delegated = record { layer = layer_of busy; rings = one_waits ∷ []; woken = [] }

one_waits-IsSubmitterRing : IsSubmitterRing one_waits
one_waits-IsSubmitterRing = record {
  small = omega arith;
  head_in = omega arith;
  tail_in = omega arith;
  array = refl;
  published = refl;
}

bio_delegater-empties_example :
    (d' : Delegation host) × (bio_delegater host 0 delegated ≡ some d')
    × (d'.layer.io ≡ submitted (waiting one_waits) [])
    × ((ring_at host d' 0).head ≡ (ring_at host d' 0).tail)
    × (waiting (ring_at host d' 0) ≡ [])
bio_delegater-empties_example =
    bio_delegater-empties host 0 delegated (omega arith) one_waits-IsSubmitterRing
