-- ===== src/Mqfs/Super/Fresh.antt =====
-- The first mount on a module that has just been loaded (mqfs/super.c, ccnvme/horae.c).
use ccnvme.Prelude.{
  ℕ, zero, suc, ◌+◌, ◌<◌, ◌≤◌, ◌≡◌, arith, refl, ap, sym, ◌∙◌, false, some, List, ◌++◌, subst,
  length, replicate, take, get_or, ltb, lt→leb, if◌then◌else◌,
}
use ccnvme.Ometa.{Ometa}
use ccnvme.Kernel.{Kernel}
use ccnvme.State.{Stream, Olayer}
use ccnvme.Kfifo.{Kfifo}
use ccnvme.Register.{Pool, used_streams, init_streams, olayer_register_streams}
use ccnvme.Register.Lease.{numbers, init_streams-free, register_streams-free, free}
use ccnvme.Mqfs.{Sbi}
use ccnvme.Mqfs.Streams.{lock_index}
use ccnvme.Mqfs.Streams.Laws.{IsMounted, IsAligned}
use ccnvme.Mqfs.Super.{SuperBlock, param_of, wanted_streams, mounted, mount_streams}

length-numbers : (i n m : ℕ) → m ≤ n → length (take m (numbers i n)) ≡ m
length-numbers i n zero h = refl
length-numbers i zero (suc m) h = absurd (omega arith)
length-numbers i (suc n) (suc m) h = omega (arith, length-numbers (i + 1) n m (omega arith))

nth-numbers : (i n m s : ℕ) → m ≤ n → s < m → get_or (take m (numbers i n)) s 0 ≡ i + s
nth-numbers i n zero s h lt = absurd (omega arith)
nth-numbers i zero (suc m) s h lt = absurd (omega arith)
nth-numbers i (suc n) (suc m) zero h lt = omega arith
nth-numbers i (suc n) (suc m) (suc s) h lt =
    nth-numbers (i + 1) n m s (omega arith) (omega arith) ∙ omega arith

length-replicate : (n : ℕ) → length (replicate n false) ≡ n
length-replicate zero = refl
length-replicate (suc n) = ap (λ m. suc m) (length-replicate n)

-- a mount that was given the first streams of all
mounted-IsMounted : (n m : ℕ) → 0 < m → m ≤ n → IsMounted (mounted (take m (numbers 0 n)))
mounted-IsMounted n m some_m h = record {
  some_stream = omega (arith, length-numbers 0 n m h);
  locks = length-replicate (length (take m (numbers 0 n)));
}

index_below : (sbi : Sbi) (x : ℕ) → x < sbi.nr_streams → lock_index sbi x ≡ x
unfolding lock_index
index_below sbi x lt = rw (lt→leb sbi.nr_streams x lt) refl

mounted-IsAligned : (n m : ℕ) → m ≤ n → IsAligned (mounted (take m (numbers 0 n)))
mounted-IsAligned n m h s lt =
    let sbi = mounted (take m (numbers 0 n)) in
    let k = length-numbers 0 n m h in
    let e : get_or sbi.streams s 0 ≡ s =
      nth-numbers 0 n m s h (omega (arith, k, lt)) ∙ omega arith in
    ap (lock_index sbi) e ∙ index_below sbi s lt

-- as many streams as are asked for, if there are so many
given-lt : (n nr : ℕ) → 0 < n → 0 < nr → 0 < (if ltb n nr then n else nr)
given-lt n nr a b = ground (arith, a, b)

given_le : (n nr : ℕ) → (if ltb n nr then n else nr) ≤ n
given_le n nr = ground arith

used-lt : (n cpus : ℕ) → 0 < cpus → 0 < used_streams n cpus
used-lt n cpus h = ground (arith, h)

wanted-lt : (s : SuperBlock) (cpus : ℕ) → 0 < cpus → 0 < wanted_streams s cpus
unfolding wanted_streams
wanted-lt s cpus h = ground (arith, h)

module _ (K : Kernel) (Q : Kfifo) where
  -- On a module that has just been set up with a stream at least, a mount that is not one of
  -- crashmonkey's comes back. It has a stream at least, a free lock for each, and put_stream maps
  -- each of its streams to its own lock; and the streams that stay free are the others, in order.
  pub mount_fresh :
      (memory : ℕ → Stream) (cpus : ℕ) (w : Olayer K) (buffer : ℕ → ℕ → Ometa) (s : SuperBlock)
      → 0 < cpus
      → s.crashmonkey ≡ false
      → (sbi : Sbi) × (p : Pool K Q) × (mount_streams K Q buffer cpus s
            (init_streams K Q memory cpus w)
          ≡ some (sbi, p))
        × IsMounted sbi
        × IsAligned sbi
        × (sbi.stream_lock ≡ replicate sbi.nr_streams false)
        × (sbi.streams ++ free K Q p ≡ numbers 0 (used_streams w.nr_streams cpus))
  unfolding mount_streams olayer_register_streams init_streams
  mount_fresh memory cpus w buffer s some_cpu plain = (
    mounted strs,
    (olayer_register_streams K Q nr (param_of s) p0).1,
    rw plain refl,
    subst (λ l. IsMounted (mounted l)) (sym e)
        (mounted-IsMounted n m
          (given-lt n nr (used-lt w.nr_streams cpus some_cpu) (wanted-lt s cpus some_cpu))
          (given_le n nr)),
    subst (λ l. IsAligned (mounted l)) (sym e) (mounted-IsAligned n m (given_le n nr)),
    refl,
    (register_streams-free K Q nr (param_of s) p0).0 ∙ init_streams-free K Q memory cpus w,
  )
    where
      n : ℕ
      n = used_streams w.nr_streams cpus

      nr : ℕ
      nr = wanted_streams s cpus

      m : ℕ
      m = if ltb n nr then n else nr

      p0 : Pool K Q
      p0 = init_streams K Q memory cpus w

      strs : List ℕ
      strs = (olayer_register_streams K Q nr (param_of s) p0).0

      e : strs ≡ take m (numbers 0 n)
      e = Q.out-taken p0.free_stream_q m ∙ ap (λ l. take m l) (init_streams-free K Q memory cpus w)
