-- ===== src/Client/Reverse/Protocol.antt =====
-- What the client of a reverse swap promises, as a protocol that knows nothing of its driver
-- (swap-client/src/reverse.rs): the phases of its payment and its secret, and which call may be made
-- in which phase.
use pubky_swap.Prelude.{
  ℕ, ◌+◌, ◌≡◌, ◌⊎◌, String, Bool, true, false, ◌&&◌, Option, none, some, List, [], ◌∷◌, Result, ok,
  eqb, leb, ltb, if◌then◌else◌,
}
use pubky_swap.Chain.{Txid, FundingUtxo, default_max_overpay_sat}
use pubky_swap.Timelock.{claim_abort_margin}
use pubky_swap.Submarine.{PaymentStatus, failed_with, unknown, not_found}
use pubky_swap.Client.Reverse.{
  ReverseClaim, Call, payment_status, payment_started, pay_invoice, find_outputs, tip_height,
  spend_broadcast, claim_confirmed, invoice_paid,
}

-- `own` where this run has started a payment.
pub data Phase : Type 0 where
  asking clear marked : Phase
  -- The preimage is secret; no funding is worth it, or one is.
  waiting funded : Bool → Phase
  -- The preimage may be shown.
  open_to_claim : Bool → Phase
  claimed : Bool → Txid → Phase
  complete : Txid → Phase

-- A payment may be started where the node knows of none that could still succeed; where it cannot
-- tell, only in a run with no past.
unfoldable pub may_start : Bool → Result String PaymentStatus → Bool
may_start fresh (ok not_found) = true
may_start fresh (ok (failed_with reason)) = true
may_start fresh (ok unknown) = fresh
may_start fresh _ = false

module _ (claim : ReverseClaim) (required : ℕ) where
  -- The script's only output holds what the swap is priced at, not much more, and is buried.
  unfoldable pub is_worth_it : List FundingUtxo → Bool
  is_worth_it [] = false
  is_worth_it (u ∷ v ∷ rest) = false
  is_worth_it (u ∷ []) =
      leb claim.onchain_amount_sat u.value_sat
      && leb u.value_sat (claim.onchain_amount_sat + default_max_overpay_sat)
      && leb required u.confirmations

  -- The provider's refund is more than the margin away.
  unfoldable pub is_early : ℕ → Bool
  is_early tip = ltb (tip + claim_abort_margin) claim.timeout_height

  module _ (fresh : Bool) (max_fee : ℕ) where
    unfoldable pub advance : Phase → Call → Option Phase
    unfolding may_start is_worth_it is_early
    advance asking (payment_status status) =
        some (if may_start fresh status then clear else waiting false)
    advance clear payment_started = some marked
    advance marked (pay_invoice fee) = if eqb fee max_fee then some (waiting true) else none
    advance (waiting own) (find_outputs outputs) =
        some (if is_worth_it outputs then funded own else waiting own)
    advance (waiting own) (tip_height tip) = some (waiting own)
    advance (funded own) (tip_height tip) =
        some (if is_early tip then open_to_claim own else waiting own)
    advance (open_to_claim own) (spend_broadcast txid) = some (open_to_claim own)
    advance (open_to_claim own) (claim_confirmed txid) = some (claimed own txid)
    advance (claimed true txid) (invoice_paid fee) = some (complete txid)
    advance _ _ = none

-- A run may report a claim that is final, and where it has paid itself, after the payment.
unfoldable pub Reports : Txid → Phase → Type 0
Reports txid p = (p ≡ claimed false txid) ⊎ (p ≡ complete txid)

abbrev pub pays : Call → ℕ
pays (pay_invoice fee) = 1
pays _ = 0

-- The calls that show the preimage.
abbrev pub reveals : Call → ℕ
reveals (spend_broadcast txid) = 1
reveals _ = 0

abbrev pub may_pay : Phase → ℕ
may_pay asking = 1
may_pay clear = 1
may_pay marked = 1
may_pay _ = 0
