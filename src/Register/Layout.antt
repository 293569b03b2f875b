-- ===== src/Register/Layout.antt =====
-- What init_streams (ccnvme/horae.c) sets up: sound streams with empty queues, each with its own
-- part of the buffer and of the journal.
use ccnvme.Prelude.{
  ℕ, zero, suc, ◌+◌, ◌*◌, ◌/◌, ◌≤◌, ◌<◌, ◌≡◌, arith, [], ◌∷◌, length, get_or, refl, ap, sym, ◌∙◌,
  subst,
}
use ccnvme.Ometa.{ometa_bytes}
use ccnvme.Kernel.{Kernel}
use ccnvme.State.{Stream, Olayer, stream_at, blank_stream}
use ccnvme.Commit.Laws.{IsRing}
use ccnvme.Journal.Region.{IsJournal}
use ccnvme.Journal.Bounds.{IsSound}
use ccnvme.Submit.Queue.{IsQuiet}
use ccnvme.Kfifo.{Kfifo}
use ccnvme.Register.{new_stream, setup_streams, init_streams, used_streams}
use ccnvme.Register.Shares.{
  before_next, in_total, IsSized, new_stream-empty, in_queues, new_stream-IsRing,
  new_stream-IsQuiet, new_stream-queue, new_stream-journal, new_stream-IsJournal,
}

module _ (K : Kernel) where
  -- the streams of a module that has just been loaded
  pub record IsLaidOut (w : Olayer K) : Type 0 where
    pub sound : (i : ℕ) → i < w.nr_streams → IsSound K w i
    pub quiet : (i : ℕ) → i < w.nr_streams → IsQuiet (stream_at K w i)
    pub empty : (i : ℕ) → i < w.nr_streams → (stream_at K w i).head ≡ (stream_at K w i).tail
    pub queues_apart :
        (i j : ℕ)
        → i < j
        → j < w.nr_streams
        → (stream_at K w i).off_in_cmb + (stream_at K w i).ometa_size ≤ (stream_at K w j).off_in_cmb
    pub queues_in :
        (i : ℕ)
        → i < w.nr_streams
        → (stream_at K w i).off_in_cmb + (stream_at K w i).ometa_size ≤ w.olog_size
    pub journals_apart :
        (i j : ℕ)
        → i < j
        → j < w.nr_streams
        → (stream_at K w i).off_in_journal + (stream_at K w i).nr_journal_block
          ≤ (stream_at K w j).off_in_journal
    pub journals_in :
        (i : ℕ)
        → i < w.nr_streams
        → (stream_at K w i).off_in_journal + (stream_at K w i).nr_journal_block
          ≤ 256 * w.journal_size

  module _ (Q : Kfifo) (memory : ℕ → Stream) where
    setup_streams-get_or :
        (w : Olayer K) (n k : ℕ) (q : Q.Fifo) (i : ℕ)
        → i < n
        → get_or (setup_streams K Q memory w n k q).0 i blank_stream
          ≡ new_stream K Q memory w (k + i)
    unfolding setup_streams
    setup_streams-get_or w zero k q i h = absurd (omega arith)
    setup_streams-get_or w (suc n) k q zero h = ap (λ t. new_stream K Q memory w t) (omega arith)
    setup_streams-get_or w (suc n) k q (suc i) h =
        setup_streams-get_or w n (k + 1) (Q.fifo_in q (k ∷ [])).1 i (omega arith)
        ∙ ap (λ t. new_stream K Q memory w t) (omega arith)

    length-setup_streams :
        (w : Olayer K) (n k : ℕ) (q : Q.Fifo) → length (setup_streams K Q memory w n k q).0 ≡ n
    unfolding setup_streams
    length-setup_streams w zero k q = refl
    length-setup_streams w (suc n) k q =
        ap suc (length-setup_streams w n (k + 1) (Q.fifo_in q (k ∷ [])).1)

    -- the state that is filled in
    abbrev cleared : Olayer K → ℕ → Olayer K
    cleared w nr = record w {
      nr_streams = nr;
      registered_list = [];
      ipu_tree = λ t. K.tree_empty;
      blocks_per_group = 1;
    }

    stream_at-init_streams :
        (cpus : ℕ) (w : Olayer K) (i : ℕ)
        → i < used_streams w.nr_streams cpus
        → stream_at K (init_streams K Q memory cpus w).layer i
          ≡ new_stream K Q memory (cleared w (used_streams w.nr_streams cpus)) i
    unfolding init_streams stream_at
    stream_at-init_streams cpus w i h =
        setup_streams-get_or (cleared w (used_streams w.nr_streams cpus))
          (used_streams w.nr_streams cpus) 0
          (Q.fifo_alloc (Q.roundup_pow_of_two (used_streams w.nr_streams cpus) * 4)) i h
        ∙ ap (λ t. new_stream K Q memory (cleared w (used_streams w.nr_streams cpus)) t)
            (omega arith)

    length-init_streams :
        (cpus : ℕ) (w : Olayer K)
        → length (init_streams K Q memory cpus w).layer.streams ≡ used_streams w.nr_streams cpus
    unfolding init_streams
    length-init_streams cpus w =
        length-setup_streams (cleared w (used_streams w.nr_streams cpus))
          (used_streams w.nr_streams cpus) 0
          (Q.fifo_alloc (Q.roundup_pow_of_two (used_streams w.nr_streams cpus) * 4))

    -- With at least one stream, a buffer of at most 2^37 bytes with an entry for each stream, a
    -- journal of fewer than 2^32 blocks, and memory of the right size for each queue: the streams
    -- of a module that has just been loaded are sound and quiet and their queues empty, whatever
    -- the memory held; their parts of the buffer lie in it, their parts of the journal in that, and
    -- no two of them overlap.
    pub init_streams-IsLaidOut :
        (cpus : ℕ) (w : Olayer K)
        → IsSized K memory (used_streams w.nr_streams cpus) w
        → IsLaidOut (init_streams K Q memory cpus w).layer
    unfolding init_streams
    init_streams-IsLaidOut cpus w z = record {
      sound = λ i h. record {
        known = omega (arith, length-init_streams cpus w);
        ring = subst IsRing (sym (at i h)) (new_stream-IsRing K Q memory w1 z1 i h);
        journal = subst IsJournal (sym (at i h)) (new_stream-IsJournal K Q memory w1 z1 i h);
      };
      quiet = λ i h. subst IsQuiet (sym (at i h)) (new_stream-IsQuiet K Q memory w1 z1 i h);
      empty = λ i h.
          ap (λ s. s.head) (at i h)
          ∙ new_stream-empty K Q memory w1 i
          ∙ sym (ap (λ s. s.tail) (at i h));
      queues_apart = λ i j ij h.
          rw (at i (omega arith), at j h)
            (omega (
              arith,
              new_stream-queue K Q memory w1 z1 i (omega arith),
              new_stream-queue K Q memory w1 z1 j h,
              before_next i j (w.olog_size / ometa_bytes / nr * ometa_bytes) ij,
            ));
      queues_in = λ i h.
          rw (at i h)
            (omega (arith, new_stream-queue K Q memory w1 z1 i h, in_queues K Q memory w1 z1 i h));
      journals_apart = λ i j ij h.
          rw (at i (omega arith), at j h)
            (omega (
              arith,
              new_stream-journal K Q memory w1 z1 i (omega arith),
              new_stream-journal K Q memory w1 z1 j h,
              before_next i j (256 * w.journal_size / nr) ij,
            ));
      journals_in = λ i h. rw (at i h) (
          omega (
            arith,
            new_stream-journal K Q memory w1 z1 i h,
            in_total i nr (256 * w.journal_size) h,
          ));
    }
      where
        nr : ℕ
        nr = used_streams w.nr_streams cpus

        w1 : Olayer K
        w1 = cleared w nr

        z1 : IsSized K memory w1.nr_streams w1
        z1 = record {
          some_streams = z.some_streams;
          one_each = z.one_each;
          queue_small = z.queue_small;
          journal_small = z.journal_small;
          allocated = z.allocated;
        }

        at :
            (i : ℕ)
            → i < nr
            → stream_at K (init_streams K Q memory cpus w).layer i ≡ new_stream K Q memory w1 i
        at i h = stream_at-init_streams cpus w i h
