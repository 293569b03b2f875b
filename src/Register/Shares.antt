-- ===== src/Register/Shares.antt =====
-- One stream of init_streams (ccnvme/horae.c): its ring, its queue's place and its journal region.
use native.Mathlib.Nat.{mul-le-mul_right, div-mul-le_self, le-div_iff_mul-le}
use ccnvme.Prelude.{ℕ, ◌+◌, ◌*◌, ◌/◌, ◌^◌, ◌≤◌, ◌<◌, ◌≡◌, arith, length, refl}
use ccnvme.Ring.Laws.{mod_below}
use ccnvme.Ometa.{ometa_bytes}
use ccnvme.Kernel.{Kernel}
use ccnvme.State.{Stream, Olayer}
use ccnvme.Commit.Laws.{IsRing}
use ccnvme.Journal.{stream_init_journal}
use ccnvme.Journal.Region.{IsJournal}
use ccnvme.Checkpoint.{stream_init_cp}
use ccnvme.Submit.Queue.{IsQuiet}
use ccnvme.Kfifo.{Kfifo}
use ccnvme.Register.{new_stream}

-- One share ends where the next begins, or before.
pub before_next : (i j c : ℕ) → i < j → i * c + c ≤ j * c
before_next i j c h = omega (arith, mul-le-mul_right {m = i + 1} {n = j} c (omega arith), one_more)
  where
    one_more : (i + 1) * c ≡ i * c + c
    one_more = grind arith

-- The shares of a total lie in it.
pub in_total : (i n total : ℕ) → i < n → i * (total / n) + total / n ≤ total
in_total i n total h = omega (arith, before_next i n (total / n) h, div-mul-le_self total n, swap)
  where
    swap : n * (total / n) ≡ total / n * n
    swap = grind arith

module _ (K : Kernel) where
  -- what is asked of the module's parameters and of the device
  pub record IsSized (memory : ℕ → Stream) (nr : ℕ) (w : Olayer K) : Type 0 where
    pub some_streams : 1 ≤ nr
    pub one_each : nr * ometa_bytes ≤ w.olog_size
    pub queue_small : w.olog_size ≤ 2 ^ 37
    pub journal_small : 256 * w.journal_size < 2 ^ 32
    pub allocated : (i : ℕ) → i < nr → length (memory i).ometa ≡ w.olog_size / ometa_bytes / nr

  module _ (Q : Kfifo) (memory : ℕ → Stream) where
    pub new_stream-empty :
        (w : Olayer K) (i : ℕ) → (new_stream K Q memory w i).head ≡ (new_stream K Q memory w i).tail
    unfolding new_stream stream_init_journal stream_init_cp
    new_stream-empty w i = refl

    module _ (w : Olayer K) (z : IsSized memory w.nr_streams w) (i : ℕ) (h : i < w.nr_streams) where
      share : w.olog_size / ometa_bytes / w.nr_streams ≤ 2 ^ 31
      share = omega (arith, in_total i w.nr_streams (w.olog_size / ometa_bytes) h, z.queue_small)

      nonempty : 1 ≤ w.olog_size / ometa_bytes / w.nr_streams
      nonempty =
          (le-div_iff_mul-le {k = w.nr_streams} {x = 1} {y = w.olog_size / ometa_bytes}
              (omega (arith, z.some_streams))).1
            (omega (arith, z.one_each))

      pub new_stream-IsRing : IsRing (new_stream K Q memory w i)
      unfolding new_stream stream_init_journal stream_init_cp
      new_stream-IsRing = record {
        small = share;
        head_in = nonempty;
        tail_in = nonempty;
        flushed_in = nonempty;
      }

      pub new_stream-IsQuiet : IsQuiet (new_stream K Q memory w i)
      unfolding new_stream stream_init_journal stream_init_cp
      new_stream-IsQuiet = record { array = z.allocated i h; published = refl }

      pub in_queues :
          i * (w.olog_size / ometa_bytes / w.nr_streams * ometa_bytes)
            + w.olog_size / ometa_bytes / w.nr_streams * ometa_bytes
          ≤ w.olog_size
      in_queues = omega (arith, in_total i w.nr_streams (w.olog_size / ometa_bytes) h, regroup)
        where
          regroup :
              i * (w.olog_size / ometa_bytes / w.nr_streams * ometa_bytes)
              ≡ i * (w.olog_size / ometa_bytes / w.nr_streams) * ometa_bytes
          regroup = grind arith

      pub new_stream-queue :
          ((new_stream K Q memory w i).off_in_cmb
            ≡ i * (w.olog_size / ometa_bytes / w.nr_streams * ometa_bytes))
          × ((new_stream K Q memory w i).ometa_size
              ≡ w.olog_size / ometa_bytes / w.nr_streams * ometa_bytes)
      unfolding new_stream stream_init_journal stream_init_cp
      new_stream-queue = (mod_below _ (2 ^ 64) (omega (arith, in_queues, z.queue_small)), refl)

      pub new_stream-journal :
          ((new_stream K Q memory w i).off_in_journal ≡ i * (256 * w.journal_size / w.nr_streams))
          × ((new_stream K Q memory w i).nr_journal_block ≡ 256 * w.journal_size / w.nr_streams)
          × ((new_stream K Q memory w i).j_write_ptr ≡ i * (256 * w.journal_size / w.nr_streams))
      unfolding new_stream stream_init_journal stream_init_cp
      new_stream-journal =
          rw (mod_below (256 * w.journal_size) (2 ^ 32) z.journal_small) (refl, refl, refl)

      pub new_stream-IsJournal : IsJournal (new_stream K Q memory w i)
      new_stream-IsJournal = omega (
        arith,
        new_stream-journal.0,
        new_stream-journal.1,
        new_stream-journal.2,
        in_total i w.nr_streams (256 * w.journal_size) h,
        z.journal_small,
      )
