-- ===== src/Scan.antt =====
-- The walk over a submission queue that commit_write (ccnvme/checkpoint.c), graceful_shutdown and
-- olayer_crash_recovery (ccnvme/recovery.c) each spell out: look for a begin mark, then for an end
-- mark, then hand every journaled entry between the two to the commit routine.
-- `outer` reads the entry that is visited and `inner` the entries in between; `act` is the commit
-- routine, over a state of the caller's.
pub mod Run
pub mod Transactions
pub mod Atomic
use ccnvme.Prelude.{ℕ, zero, suc, Bool, true, false, Option, none, some, ◌==◌, if◌then◌else◌}
use ccnvme.Ring.{ring_next}
use ccnvme.Ometa.{Ometa, has_bit, horae_tx_begin, horae_tx_end}

-- `phase`, with `begin_idx` and `begin_txid` where they are set
pub data Phase : Type 0 where
  find_begin : Phase
  find_end : ℕ → ℕ → Phase

-- one round of the loop over `k`: an entry with no journal block is passed over
unfoldable pub commit_at {ℓ} : {S : Type ℓ} → (ℕ → Ometa) → (Ometa → ℕ → S → S) → ℕ → ℕ → S → S
commit_at inner act k txid s = if (inner k).plba == 0 then s else act (inner k) txid s

module _ {ℓ} {S : Type ℓ} (nr : ℕ) (inner : ℕ → Ometa) (act : Ometa → ℕ → S → S) where
  -- `for (; k != j; k = (k + 1) % nr)`; `none` means that the fuel ran out
  unfoldable pub commit_between : ℕ → ℕ → ℕ → ℕ → S → Option S
  commit_between zero k j txid s = if k == j then some s else none
  commit_between (suc fuel) k j txid s =
      let rest = commit_between fuel (ring_next k nr) j txid (commit_at inner act k txid s) in
      if k == j then some s else rest

module _ {ℓ} {S : Type ℓ} (nr : ℕ) (outer inner : ℕ → Ometa) (act : Ometa → ℕ → S → S) where
  -- the body of the loop over `m`
  unfoldable pub visit : ℕ → Phase → S → Option (Phase × S)
  visit j find_begin s =
      if has_bit (outer j).tag horae_tx_begin
      then some (find_end j (outer j).txid, s)
      else some (find_begin, s)
  visit j (find_end begin_idx begin_txid) s =
      if has_bit (outer j).tag horae_tx_end
      then elim (commit_between nr inner act nr (ring_next begin_idx nr) j (outer j).txid s) [
        | none ↦ none
        | some s' ↦ some (find_begin, s')
      ]
      else some (find_end begin_idx begin_txid, s)

  -- `for (m = head; m != flushed; m = (m + 1) % nr)`
  unfoldable pub scan : ℕ → ℕ → ℕ → Phase → S → Option (Phase × S)
  scan zero m flushed phase s = if m == flushed then some (phase, s) else none
  scan (suc fuel) m flushed phase s = elim (m == flushed) [
    | true ↦ some (phase, s)
    | false ↦ elim (visit m phase s) [
      | none ↦ none
      | some (phase', s') ↦ scan fuel (ring_next m nr) flushed phase' s'
    ]
  ]
