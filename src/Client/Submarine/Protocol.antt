-- ===== src/Client/Submarine/Protocol.antt =====
-- What the client of a submarine swap promises, as a protocol that knows nothing of its driver
-- (swap-client/src/submarine.rs): the phases of its coins, and which call may be made in which phase.
use pubky_swap.Prelude.{
  ℕ, ◌+◌, ◌≤◌, ◌≡◌, Bool, true, false, Option, none, some, List, arith, eqb, leb, ltb,
  if◌then◌else◌,
}
use pubky_swap.Chain.{OutPoint}
use pubky_swap.Onchain.Preimages.{Bytes, PaymentHash}
use pubky_swap.Swap.{SwapState, claimed, refunded, expired}
use pubky_swap.Timelock.{claim_abort_margin}
use pubky_swap.Reverse.{InvoiceState, settled}
use pubky_swap.Driver.Traces.{follow}
use pubky_swap.Driver.Counts.{count, count-follow}
use pubky_swap.Client.Submarine.{
  SubmarineFunding, Call, tip_height, funding_intent, fund_htlc, funded, relied_on, invoice_state,
  find_spend, spend_broadcast, refund_confirmed, conflicted, is_claim, is_claimed,
}

pub data Phase : Type 0 where
  -- Nothing is locked; nothing is to be locked any more.
  unfunded hopeless : Phase
  -- There is time to fund, at this tip.
  timely : ℕ → Phase
  -- The funding is about to be broadcast.
  intended : Phase
  -- A funding may be on the wire; whether the timeout has come.
  unsure : Bool → Phase
  -- The coins are in the HTLC.
  locked : OutPoint → Phase
  -- The invoice is not settled; and then, the timeout has come.
  unsettled overdue : OutPoint → Phase
  -- No claim of the provider is to be seen after the timeout.
  refunding : OutPoint → Phase
  -- Another spend of the HTLC shows no preimage.
  taken : OutPoint → Phase
  paid recovered : Phase

unfoldable pub after_state : OutPoint → InvoiceState → Phase
after_state outpoint settled = paid
after_state outpoint _ = unsettled outpoint

-- The state that a swap may report in a phase.
unfoldable pub reports : SwapState → Phase → Bool
reports claimed paid = true
reports refunded recovered = true
reports expired (unsure true) = true
reports _ _ = false

module _ (sha256 : Bytes → PaymentHash) (funding : SubmarineFunding) where
  -- The timeout is more than the margin away.
  unfoldable pub is_early : ℕ → Bool
  is_early tip = ltb (tip + claim_abort_margin) funding.timeout_height

  unfoldable pub advance : Phase → Call → Option Phase
  unfolding after_state is_early
  advance unfunded (funded outpoint) = some (locked outpoint)
  advance unfunded (tip_height tip) = some (if is_early tip then timely tip else hopeless)
  advance (timely tip) (funding_intent at) = if eqb at tip then some intended else none
  advance intended (fund_htlc amount) =
      if eqb amount funding.onchain_amount_sat then some (unsure false) else none
  advance (unsure late) (funded outpoint) = some (locked outpoint)
  advance (unsure late) (relied_on outpoint) = some (locked outpoint)
  advance (unsure late) (tip_height tip) = some (unsure (leb funding.timeout_height tip))
  advance (locked outpoint) (invoice_state state) = some (after_state outpoint state)
  advance (unsettled outpoint) (tip_height tip) =
      some (if leb funding.timeout_height tip then overdue outpoint else locked outpoint)
  advance (overdue outpoint) (find_spend spend) =
      some (if is_claimed sha256 funding outpoint spend then paid else refunding outpoint)
  advance (refunding outpoint) (invoice_state state) = some (after_state outpoint state)
  advance (refunding outpoint) (spend_broadcast txid) = some (refunding outpoint)
  advance (refunding outpoint) (refund_confirmed txid) = some recovered
  advance (refunding outpoint) (conflicted tx) =
      some (if is_claim sha256 funding outpoint tx then paid else taken outpoint)
  advance (taken outpoint) (spend_broadcast txid) = some recovered
  advance _ _ = none

abbrev pub funds : Call → ℕ
funds (fund_htlc amount) = 1
funds _ = 0

-- A refund on the wire, our own or one that is adopted.
abbrev pub refunds : Call → ℕ
refunds (spend_broadcast txid) = 1
refunds _ = 0

abbrev pub may_fund : Phase → ℕ
may_fund unfunded = 1
may_fund (timely tip) = 1
may_fund intended = 1
may_fund _ = 0

-- Where a run starts, by whether an earlier one may have funded.
abbrev pub first_phase : Bool → Phase
first_phase funded_before = if funded_before then unsure false else unfunded

module _ (sha256 : Bytes → PaymentHash) (funding : SubmarineFunding) where
  funds_step :
      (p q : Phase) (c : Call)
      → advance sha256 funding p c ≡ some q
      → funds c + may_fund q ≤ may_fund p
  unfolding advance
  funds_step p q c h = ground arith

  pub funds_once :
      (p q : Phase) (cs : List Call)
      → follow (advance sha256 funding) p cs ≡ some q
      → count funds cs + may_fund q ≤ may_fund p
  funds_once = count-follow (advance sha256 funding) funds may_fund funds_step
