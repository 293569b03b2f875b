-- ===== src/Submit/Queue.antt =====
-- The contents of a submission queue, and what a new entry behind them makes of it.
use ccnvme.Prelude.{
  ◌^◌, ◌≤◌, ◌≡◌, ◌≢◌, arith, List, [], ◌∷◌, ◌++◌, map, length, set, All, refl, ap, ap₂, sym, ◌∙◌,
  Bool, get_or-set_self, get_or-set_ne,
}
use ccnvme.Ring.{ring_space, ring_next}
use ccnvme.Ring.Laws.{ring_space-add-count}
use ccnvme.Ring.Window.{visited, visited-snoc, visited-ne}
use ccnvme.Ometa.{Ometa, zero_ometa}
use ccnvme.State.{Stream, stream_ometa_at}
use ccnvme.Commit.Laws.{IsRing}

-- the entries of a submission queue, oldest first
unfoldable pub queue : Stream → List Ometa
queue s = map (stream_ometa_at s) (visited s.nr_ometa s.head s.tail)

-- The queue has its array, and nobody is between reserving and publishing a slot.
pub record IsQuiet (s : Stream) : Type 0 where
  pub array : length s.ometa ≡ s.nr_ometa
  pub published : s.tail_watermark ≡ s.tail

pub map-cong {ℓ κ} :
    {A : Type ℓ} {B : Type κ} (P : A → Type ℓ) (f g : A → B) (l : List A)
    → All P l
    → ((a : A) → P a → f a ≡ g a)
    → map f l ≡ map g l
map-cong P f g [] h e = refl
map-cong P f g (a ∷ l) h e = ap₂ ◌∷◌ (e a h.0) (map-cong P f g l h.1 e)

pub map-snoc {ℓ κ} :
    {A : Type ℓ} {B : Type κ} (f : A → B) (l : List A) (a : A)
    → map f (l ++ (a ∷ [])) ≡ map f l ++ (f a ∷ [])
map-snoc f [] a = refl
map-snoc f (b ∷ l) a = ap (λ r. f b ∷ r) (map-snoc f l a)

-- a stream with the slot at its tail filled and published
abbrev pub appended : Ometa → Bool → Stream → Stream
appended o c s = record s {
  tail_watermark = ring_next s.tail s.nr_ometa;
  ometa = set s.ometa s.tail o;
  committed = c;
  tail = ring_next s.tail s.nr_ometa;
}

pub queue-appended :
    (s : Stream) (o : Ometa) (c : Bool)
    → IsRing s
    → length s.ometa ≡ s.nr_ometa
    → 1 ≤ ring_space s.head s.tail s.nr_ometa
    → queue (appended o c s) ≡ queue s ++ (o ∷ [])
unfolding queue stream_ometa_at
queue-appended s o c r full space =
    ap (map (stream_ometa_at (appended o c s))) (
      visited-snoc s.nr_ometa s.head s.tail small r.head_in r.tail_in (
        omega
          (arith, space, ring_space-add-count s.head s.tail s.nr_ometa r.head_in r.tail_in small)))
    ∙ map-snoc (stream_ometa_at (appended o c s)) (visited s.nr_ometa s.head s.tail) s.tail
    ∙ ap₂ (λ l x. l ++ (x ∷ []))
        (map-cong (λ j. j ≢ s.tail) (stream_ometa_at (appended o c s)) (stream_ometa_at s)
          (visited s.nr_ometa s.head s.tail)
          (visited-ne s.nr_ometa s.head s.tail small r.head_in r.tail_in)
          (λ j ne. get_or-set_ne s.ometa s.tail j o zero_ometa (λ q. ne (sym q))))
        (get_or-set_self s.ometa s.tail o zero_ometa (omega (arith, r.tail_in, full)))
  where
    small : s.nr_ometa ≤ 2 ^ 62
    small = omega (arith, r.small)
