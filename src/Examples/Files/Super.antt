-- ===== src/Examples/Files/Super.antt =====
-- The first mount on a module of two streams.
use ccnvme.Prelude.{ℕ, ◌≡◌, arith, refl, false, some, [], ◌∷◌, ◌++◌, replicate}
use ccnvme.Ometa.{Ometa, zero_ometa}
use ccnvme.Register.{
  Pool, init_streams, olayer_register_streams, olayer_unregister_streams, olayer_init_stream,
}
use ccnvme.Register.Lease.{numbers}
use ccnvme.Mqfs.{Sbi}
use ccnvme.Mqfs.Streams.Laws.{IsMounted, IsAligned}
use ccnvme.Mqfs.Super.{
  SuperBlock, param_of, mounted, mount_streams, unmount_streams, wanted_streams,
}
use ccnvme.Recovery.{graceful_shutdown}
use ccnvme.Scan.{scan}
use ccnvme.Mqfs.Super.Return.{unmount-rotates}
use ccnvme.Mqfs.Super.Fresh.{mount_fresh}
use ccnvme.State.{put_stream, stream_at}
use ccnvme.Examples.{host}
use ccnvme.Examples.Register.{fifo, memory, unset}

abbrev super_block : SuperBlock
super_block = record { nr_streams = 0; crashmonkey = false; dev = 3; sb = 5; blocks_per_group = 4 }

abbrev nothing_read : ℕ → ℕ → Ometa
nothing_read sid i = zero_ometa

mount_fresh_example :
    (sbi : Sbi) × (p : Pool host fifo) × (mount_streams host fifo nothing_read 4 super_block
        (init_streams host fifo memory 4 unset)
      ≡ some (sbi, p))
    × IsMounted sbi
    × IsAligned sbi
    × (sbi.stream_lock ≡ replicate sbi.nr_streams false)
    × (sbi.streams ++ p.free_stream_q.0 ≡ numbers 0 2)
mount_fresh_example =
    mount_fresh host fifo memory 4 unset nothing_read super_block (omega arith) refl

-- One stream of two is taken and given back.
abbrev one_wanted : SuperBlock
one_wanted = record super_block { nr_streams = 1 }

abbrev two_free : Pool host fifo
two_free = record {
  layer = record unset { streams = memory 0 ∷ memory 1 ∷ [] };
  free_stream_q = (0 ∷ 1 ∷ [], 8);
}

abbrev taken_one : Pool host fifo
taken_one = (olayer_register_streams host fifo 1 (param_of one_wanted) two_free).1

abbrev given_one : Pool host fifo
given_one = olayer_unregister_streams host fifo (0 ∷ []) (3 ∷ []) taken_one

unmount-rotates_example :
    (two_free.free_stream_q.0 ≡ (0 ∷ []) ++ (1 ∷ []))
    × (given_one.free_stream_q.0 ≡ (1 ∷ []) ++ (0 ∷ []))
unfolding mount_streams unmount_streams olayer_register_streams graceful_shutdown wanted_streams
    olayer_init_stream put_stream scan stream_at
unmount-rotates_example =
    unmount-rotates host fifo nothing_read 4 one_wanted two_free taken_one given_one
      (mounted (0 ∷ [])) (record (mounted (0 ∷ [])) { nr_streams = 0 }) (omega arith) refl refl
