-- ===== src/Examples/Register.antt =====
-- The theorems on the set-up and the registration of streams, applied.
use ccnvme.Prelude.{
  ℕ, ◌-◌, ◌≡◌, arith, min, List, [], ◌∷◌, ◌++◌, refl, length, replicate, take, drop,
}
use ccnvme.Ometa.{zero_ometa}
use ccnvme.State.{Stream, Olayer, blank_stream}
use ccnvme.Kfifo.{Kfifo}
use ccnvme.Register.{InitParam, Pool, olayer_unregister_all_streams, init_streams}
use ccnvme.Register.Layout.{IsLaidOut, init_streams-IsLaidOut}
use ccnvme.Register.Shares.{IsSized}
use ccnvme.Register.Lease.{handed_out, unregister_all-none_left}
use ccnvme.Examples.{host, layer_of, busy}

-- a queue of what it holds and its capacity
abbrev pub fifo : Kfifo
fifo = record {
  Fifo = List ℕ × ℕ;
  contents = λ q. q.0;
  capacity = λ q. q.1;
  fifo_alloc = λ n. ([], n);
  alloc-empty = λ n. refl;
  alloc-capacity = λ n. omega arith;
  fifo_in = λ q l.
      (min (length l) (q.1 - length q.0), (q.0 ++ take (min (length l) (q.1 - length q.0)) l, q.1));
  in-number = λ q l. refl;
  in-contents = λ q l. refl;
  in-capacity = λ q l. refl;
  fifo_out = λ q n. (take n q.0, (drop n q.0, q.1));
  out-taken = λ q n. refl;
  out-contents = λ q n. refl;
  out-capacity = λ q n. refl;
  roundup_pow_of_two = λ n. n;
  roundup-le = λ n. omega arith;
}

-- two streams of eight entries each
abbrev pub unset : Olayer host
unset = record (layer_of busy) { nr_streams = 2; olog_size = 1024; dev_size = 1024 }

abbrev pub memory : ℕ → Stream
memory i = record blank_stream { ometa = replicate 8 zero_ometa }

unset-IsSized : IsSized host memory 2 unset
unset-IsSized = record {
  some_streams = omega arith;
  one_each = omega arith;
  queue_small = omega arith;
  journal_small = omega arith;
  allocated = λ i h. refl;
}

init_streams-IsLaidOut_example : IsLaidOut host (init_streams host fifo memory 4 unset).layer
init_streams-IsLaidOut_example = init_streams-IsLaidOut host fifo memory 4 unset unset-IsSized

abbrev pool : Pool host fifo
pool = record { layer = unset; free_stream_q = (1 ∷ 0 ∷ [], 8) }

unregister_all-none_left_example :
    ((olayer_unregister_all_streams host fifo pool).free_stream_q.0 ≡ [])
    × ((olayer_unregister_all_streams host fifo pool).layer.registered_list ≡ [])
    × ((calls : List (ℕ × InitParam))
        → handed_out host fifo calls (olayer_unregister_all_streams host fifo pool) ≡ [])
unregister_all-none_left_example = unregister_all-none_left host fifo pool (omega arith)
