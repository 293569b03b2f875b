-- ===== src/Examples/Files/Streams.antt =====
-- Streams of a mount taken and given back.
use ccnvme.Prelude.{ℕ, zero, suc, ◌≡◌, arith, refl, true, false, [], ◌∷◌}
use ccnvme.Mqfs.{Sbi}
use ccnvme.Mqfs.Streams.{took, get_free_stream, put_stream, lock_index, lock_is_held, with_lock}
use ccnvme.Mqfs.Streams.Laws.{
  IsMounted, IsAligned, Found, get_free_stream_lem, get_put_roundtrip, put_stream-misses,
}
use ccnvme.Examples.Files.{two_streams}

two_streams-IsMounted : IsMounted two_streams
two_streams-IsMounted = record { some_stream = omega arith; locks = refl }

get_free_stream_lem_example : Found 4 two_streams (get_free_stream 4 two_streams)
get_free_stream_lem_example = get_free_stream_lem 4 two_streams two_streams-IsMounted

two_streams-IsAligned : IsAligned two_streams
unfolding lock_index
two_streams-IsAligned zero h = refl
two_streams-IsAligned (suc zero) h = refl
two_streams-IsAligned (suc (suc s)) h = absurd (omega arith)

get_put_roundtrip_example : put_stream (with_lock two_streams 1 true) 1 ≡ two_streams
unfolding get_free_stream
get_put_roundtrip_example =
    get_put_roundtrip 4 1 two_streams (with_lock two_streams 1 true) two_streams-IsMounted
      two_streams-IsAligned refl

-- A mount of two streams behind one of three: it has the streams 3 and 4.
abbrev second_mount : Sbi
second_mount = record {
  streams = 3 ∷ 4 ∷ [];
  nr_streams = 2;
  stream_lock = false ∷ true ∷ [];
  txid_alloc = 0;
}

put_stream-misses_example :
    (id : ℕ) × (sbi' : Sbi) × (get_free_stream 0 second_mount ≡ took id sbi')
    × (lock_is_held (put_stream sbi' id) 0 ≡ true)
    × (lock_is_held (put_stream sbi' id) (lock_index second_mount id) ≡ false)
unfolding lock_index
put_stream-misses_example =
    put_stream-misses 0 second_mount (record { some_stream = omega arith; locks = refl })
      (omega arith) refl (omega arith)
