-- ===== src/Kfifo.antt =====
-- What the set-up of the streams asks of Linux: the queue of `linux/kfifo.h` and the rounding of
-- `linux/log2.h`. They are not part of the repository, so they are a parameter; `contents` and
-- `capacity` are the view by which the documented behaviour is stated.
use ccnvme.Prelude.{ℕ, ◌-◌, ◌≤◌, ◌≡◌, min, List, [], ◌++◌, length, take, drop}

pub record Kfifo : Type 1 where
  pub Fifo : Type 0
  pub contents : Fifo → List ℕ
  pub capacity : Fifo → ℕ
  -- `kfifo_alloc`
  pub fifo_alloc : ℕ → Fifo
  pub alloc-empty : (n : ℕ) → contents (fifo_alloc n) ≡ []
  pub alloc-capacity : (n : ℕ) → n ≤ capacity (fifo_alloc n)
  -- `kfifo_in` and `kfifo_put`: as many as there is room for
  pub fifo_in : Fifo → List ℕ → ℕ × Fifo
  pub in-number :
      (q : Fifo) (l : List ℕ) → (fifo_in q l).0 ≡ min (length l) (capacity q - length (contents q))
  pub in-contents :
      (q : Fifo) (l : List ℕ) → contents (fifo_in q l).1 ≡ contents q ++ take (fifo_in q l).0 l
  pub in-capacity : (q : Fifo) (l : List ℕ) → capacity (fifo_in q l).1 ≡ capacity q
  -- `kfifo_out` and `kfifo_get`: as many as there are
  pub fifo_out : Fifo → ℕ → List ℕ × Fifo
  pub out-taken : (q : Fifo) (n : ℕ) → (fifo_out q n).0 ≡ take n (contents q)
  pub out-contents : (q : Fifo) (n : ℕ) → contents (fifo_out q n).1 ≡ drop n (contents q)
  pub out-capacity : (q : Fifo) (n : ℕ) → capacity (fifo_out q n).1 ≡ capacity q
  -- `roundup_pow_of_two`
  pub roundup_pow_of_two : ℕ → ℕ
  pub roundup-le : (n : ℕ) → n ≤ roundup_pow_of_two n
