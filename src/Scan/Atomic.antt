-- ===== src/Scan/Atomic.antt =====
-- All or nothing: what the walk does with a transaction that has its end mark, and with one that
-- a crash or a later append has left without.
use ccnvme.Prelude.{
  ℕ, ◌^◌, ◌≤◌, ◌<◌, ◌≡◌, List, [], ◌∷◌, ◌++◌, map, ap, refl, ◌∙◌, true, false, none, some, All,
  append_assoc, append-nil,
}
use ccnvme.Ring.Window.{visited}
use ccnvme.Ometa.{Ometa, has_bit, horae_tx_begin, horae_tx_end}
use ccnvme.Scan.{Phase, find_begin, scan}
use ccnvme.Scan.Run.{last_phase, commit_all, commit_all-append}
use ccnvme.Scan.Transactions.{committed, scan_refines, settle, yield}

module _ (outer : ℕ → Ometa) where
  abbrev pub HasMark : ℕ → ℕ → Type 0
  HasMark bit j = has_bit (outer j).tag bit ≡ true

  abbrev pub LacksMark : ℕ → ℕ → Type 0
  LacksMark bit j = has_bit (outer j).tag bit ≡ false

  committed-idle :
      (idle rest : List ℕ)
      → All (LacksMark horae_tx_begin) idle
      → committed outer none (idle ++ rest) ≡ committed outer none rest
  unfolding committed settle yield
  committed-idle [] rest h = refl
  committed-idle (j ∷ idle) rest h = rw (h.0) (committed-idle idle rest h.1)

  committed-body :
      (acc body rest : List ℕ)
      → All (LacksMark horae_tx_end) body
      → committed outer (some acc) (body ++ rest) ≡ committed outer (some (acc ++ body)) rest
  unfolding committed settle yield
  committed-body acc [] rest h = rw append-nil
  committed-body acc (j ∷ body) rest h = rw (h.0) (
      committed-body (acc ++ (j ∷ [])) body rest h.1
      ∙ ap (λ l. committed outer (some l) rest) (append_assoc acc (j ∷ []) body))

  committed-open :
      (acc body : List ℕ) → All (LacksMark horae_tx_end) body → committed outer (some acc) body ≡ []
  unfolding committed settle yield
  committed-open acc [] h = refl
  committed-open acc (j ∷ body) h = rw (h.0) (committed-open (acc ++ (j ∷ [])) body h.1)

  pub committed-finished :
      (idle body rest : List ℕ) (b e : ℕ)
      → All (LacksMark horae_tx_begin) idle
      → HasMark horae_tx_begin b
      → All (LacksMark horae_tx_end) body
      → HasMark horae_tx_end e
      → committed outer none (idle ++ (b ∷ (body ++ (e ∷ rest))))
        ≡ map (λ k. (k, (outer e).txid)) body ++ committed outer none rest
  unfolding committed settle yield
  committed-finished idle body rest b e hi hb hl he =
      committed-idle idle (b ∷ (body ++ (e ∷ rest))) hi
      ∙ rw hb (committed-body [] body (e ∷ rest) hl ∙ rw he)

  pub committed-unfinished :
      (idle body : List ℕ) (b : ℕ)
      → All (LacksMark horae_tx_begin) idle
      → HasMark horae_tx_begin b
      → All (LacksMark horae_tx_end) body
      → committed outer none (idle ++ (b ∷ body)) ≡ []
  unfolding committed settle yield
  committed-unfinished idle body b hi hb hl =
      committed-idle idle (b ∷ body) hi ∙ rw hb (committed-open [] body hl)

module _ {ℓ} {S : Type ℓ} (nr : ℕ) (outer inner : ℕ → Ometa) (act : Ometa → ℕ → S → S) where
  -- In a ring of at most 2^62 entries with both indices inside: if the entries from `head` to
  -- `flushed` are some without a begin mark, a begin mark at `b`, some without an end mark, an end
  -- mark at `e`, and any others, then the walk commits the entries between `b` and `e`, in order
  -- and with the transaction of `e`, and goes on with the others as if it started there; the
  -- entries at `b` and `e` themselves it does not commit.
  pub scan-finished :
      (head flushed : ℕ) (idle body rest : List ℕ) (b e : ℕ) (s : S)
      → nr ≤ 2 ^ 62
      → head < nr
      → flushed < nr
      → visited nr head flushed ≡ idle ++ (b ∷ (body ++ (e ∷ rest)))
      → All (LacksMark outer horae_tx_begin) idle
      → HasMark outer horae_tx_begin b
      → All (LacksMark outer horae_tx_end) body
      → HasMark outer horae_tx_end e
      → (p : Phase) × (scan nr outer inner act nr head flushed find_begin s
          ≡ some (
            p,
            commit_all inner act
                (committed outer none rest)
                (commit_all inner act (map (λ k. (k, (outer e).txid)) body) s),
          ))
  scan-finished head flushed idle body rest b e s small hh hf shape hi hb hl he = (
    last_phase nr outer (visited nr head flushed) find_begin,
    scan_refines nr small outer inner act head flushed s hh hf
        ∙ ap (λ t. some (last_phase nr outer (visited nr head flushed) find_begin, t))
            (ap (λ l. commit_all inner act l s)
                (ap (committed outer none) shape
                  ∙ committed-finished outer idle body rest b e hi hb hl he)
              ∙ commit_all-append inner act (map (λ k. (k, (outer e).txid)) body)
                  (committed outer none rest) s),
  )

  -- In a ring of at most 2^62 entries with both indices inside: if the entries from `head` to
  -- `flushed` are some without a begin mark, a begin mark at `b`, and then none with an end mark,
  -- the walk ends and commits nothing.
  pub scan-unfinished :
      (head flushed : ℕ) (idle body : List ℕ) (b : ℕ) (s : S)
      → nr ≤ 2 ^ 62
      → head < nr
      → flushed < nr
      → visited nr head flushed ≡ idle ++ (b ∷ body)
      → All (LacksMark outer horae_tx_begin) idle
      → HasMark outer horae_tx_begin b
      → All (LacksMark outer horae_tx_end) body
      → (p : Phase) × (scan nr outer inner act nr head flushed find_begin s ≡ some (p, s))
  unfolding commit_all
  scan-unfinished head flushed idle body b s small hh hf shape hi hb hl = (
    last_phase nr outer (visited nr head flushed) find_begin,
    scan_refines nr small outer inner act head flushed s hh hf
        ∙ ap (λ t. some (last_phase nr outer (visited nr head flushed) find_begin, t))
            (ap (λ l. commit_all inner act l s)
              (ap (committed outer none) shape ∙ committed-unfinished outer idle body b hi hb hl)),
  )
