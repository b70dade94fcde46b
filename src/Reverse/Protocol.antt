-- ===== src/Reverse/Protocol.antt =====
-- What a reverse swap promises, as a protocol that knows nothing of the driver: the phases of the
-- swap's money, and which call may be made in which phase (swap-provider/src/reverse.rs).
use pubky_swap.Prelude.{
  ℕ, ◌+◌, ◌≤◌, ◌≡◌, Bool, true, false, Option, none, some, List, arith, ok, err, eqb, leb,
  if◌then◌else◌, ◌==◌,
}
use pubky_swap.Chain.{OutPoint}
use pubky_swap.Onchain.Preimages.{Bytes, PaymentHash, is_preimage, outpoint_eq}
use pubky_swap.Reorg.{finality_depth}
use pubky_swap.Swap.{SwapState, claimed, refunded, expired, failed}
use pubky_swap.Timelock.{Check, check_reverse_before_fund}
use pubky_swap.Driver.Traces.{follow}
use pubky_swap.Driver.Counts.{count, count-follow}
use pubky_swap.Reverse.{
  ReverseSwap, «open», accepted, settled, cancelled, Call, invoice_state, earliest_htlc_expiry,
  tip_height, funding_intent, fund_htlc, funded, relied_on, claimable, claim_observed,
  settle_hold_invoice, claim_depth, spend_broadcast, refund_confirmed, cancel_hold_invoice,
}

pub data Phase : Type 0 where
  -- Nothing is locked, and the client has not paid.
  unpaid : Phase
  -- The client's payment is held.
  held : Phase
  -- The held payment expires at this height.
  expiring : ℕ → Phase
  -- The funding is about to be broadcast.
  intended : Phase
  -- A funding may be on the wire; whether the timeout has come.
  unsure : Bool → Phase
  -- The coins are in the HTLC; whether the timeout has come.
  locked : OutPoint → Bool → Phase
  -- The client's claim has been seen.
  revealed : OutPoint → Bool → Phase
  -- The invoice is settled, and the claim not yet final.
  paid : Phase
  -- The claim that we settled on is final, or an earlier run settled.
  complete : Phase
  -- The refund is final.
  recovered : Phase
  -- The payment went back to the client: after a refund, and with nothing locked.
  undone returned : Phase

abbrev accept_passed : Phase → Check → Option Phase
accept_passed p (ok passed) = some p
accept_passed p (err violation) = none

unfoldable pub is_early : Phase → Bool
is_early unpaid = true
is_early held = true
is_early (expiring h) = true
is_early intended = true
is_early _ = false

-- The state that a swap may report in a phase.
unfoldable pub reports : SwapState → Phase → Bool
reports claimed complete = true
reports refunded undone = true
reports expired returned = true
reports (failed reason) returned = true
reports _ _ = false

module _ (sha256 : Bytes → PaymentHash) (swap : ReverseSwap) where
  unfoldable pub advance_early : Phase → Call → Option Phase
  advance_early unpaid (invoice_state accepted) = some held
  advance_early unpaid (invoice_state settled) = some complete
  advance_early unpaid (invoice_state cancelled) = some returned
  advance_early unpaid (invoice_state «open») = some unpaid
  advance_early unpaid (tip_height tip) = some unpaid
  advance_early unpaid cancel_hold_invoice = some returned
  advance_early held (earliest_htlc_expiry h) = some (expiring h)
  advance_early held (funded outpoint) = some (locked outpoint false)
  advance_early held cancel_hold_invoice = some returned
  advance_early (expiring h) cancel_hold_invoice = some returned
  -- Only under timelocks, as realised, that leave the refund before the payment's expiry.
  advance_early (expiring h) (funding_intent tip) =
      accept_passed intended (check_reverse_before_fund tip swap.timeout_height h swap.timelock)
  advance_early intended (fund_htlc amount) =
      if eqb amount swap.onchain_amount_sat then some (unsure false) else none
  advance_early _ _ = none

  unfoldable pub advance_late : Phase → Call → Option Phase
  advance_late (unsure late) (funded outpoint) = some (locked outpoint false)
  advance_late (unsure late) (relied_on outpoint) = some (locked outpoint false)
  advance_late (unsure late) (tip_height tip) = some (unsure (leb swap.timeout_height tip))
  -- Only after the timeout.
  advance_late (unsure true) cancel_hold_invoice = some returned
  advance_late (locked outpoint late) (claimable hinted) =
      if hinted == outpoint then some (locked outpoint late) else none
  advance_late (locked outpoint late) (tip_height tip) =
      some (locked outpoint (leb swap.timeout_height tip))
  advance_late (locked outpoint late) (claim_observed txid) = some (revealed outpoint late)
  -- Only after the timeout, and never the cancel before the refund is final.
  advance_late (locked outpoint true) (spend_broadcast txid) = some (locked outpoint true)
  advance_late (locked outpoint true) (refund_confirmed txid) = some recovered
  -- Only with a preimage of the payment hash.
  advance_late (revealed outpoint late) (settle_hold_invoice preimage answer) =
      if is_preimage sha256 swap.payment_hash preimage
      then some (if answer then paid else locked outpoint late)
      else none
  advance_late paid (tip_height tip) = some paid
  advance_late paid (claimable hinted) = some paid
  advance_late paid (claim_depth depth) = some (if leb finality_depth depth then complete else paid)
  advance_late recovered cancel_hold_invoice = some undone
  advance_late _ _ = none

  unfoldable pub advance : Phase → Call → Option Phase
  unfolding advance_early advance_late is_early
  advance p c = if is_early p then advance_early p c else advance_late p c

-- Calls that fund, that settle, and that give the payment back.
abbrev pub funds : Call → ℕ
funds (fund_htlc amount) = 1
funds _ = 0

abbrev pub pays : Call → ℕ
pays (settle_hold_invoice preimage true) = 1
pays cancel_hold_invoice = 1
pays _ = 0

abbrev pub may_fund : Phase → ℕ
may_fund unpaid = 1
may_fund held = 1
may_fund (expiring h) = 1
may_fund intended = 1
may_fund _ = 0

abbrev pub may_pay : Phase → ℕ
may_pay paid = 0
may_pay complete = 0
may_pay undone = 0
may_pay returned = 0
may_pay _ = 1

module _ (sha256 : Bytes → PaymentHash) (swap : ReverseSwap) where
  funds_step :
      (p q : Phase) (c : Call)
      → advance sha256 swap p c ≡ some q
      → funds c + may_fund q ≤ may_fund p
  unfolding advance
  funds_step unpaid q c h = ground arith
  funds_step p q c h = ground arith

  pays_step :
      (p q : Phase) (c : Call) → advance sha256 swap p c ≡ some q → pays c + may_pay q ≤ may_pay p
  unfolding advance
  pays_step unpaid q c h = ground arith
  pays_step p q c h = ground arith

  pub funds_once :
      (p q : Phase) (cs : List Call)
      → follow (advance sha256 swap) p cs ≡ some q
      → count funds cs ≤ may_fund p
  funds_once p q cs h =
      omega (arith, count-follow (advance sha256 swap) funds may_fund funds_step p q cs h)

  pub pays_once :
      (p q : Phase) (cs : List Call)
      → follow (advance sha256 swap) p cs ≡ some q
      → count pays cs + may_pay q ≤ may_pay p
  pays_once p q cs h = count-follow (advance sha256 swap) pays may_pay pays_step p q cs h
