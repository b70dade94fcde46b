-- ===== src/Reverse.antt =====
-- swap-provider/src/reverse.rs: driving a reverse swap. The client pays a hold invoice, the
-- provider funds the HTLC, the client's claim reveals the preimage, and the provider settles with
-- it; or the provider refunds at the timeout and cancels. What the Lightning node, the chain and
-- the wallet answer is not part of the source, and enters as a record for each turn of a loop.
pub mod Create
pub mod Establish
pub mod Watch
pub mod Protocol
pub mod Refines
pub mod Settles
pub mod Promises
mod Examples
use pubky_swap.Prelude.{
  min, [], ◌∷◌, ℕ, max, Bool, true, false, ◌&&◌, ◌||◌, String, Option, none, some, List, [], ◌∷◌,
  Result, ok, err, leb, eqb, if◌then◌else◌, is_some, ◌==◌, not,
}
use pubky_swap.Chain.{Txid, OutPoint, FundingUtxo}
use pubky_swap.Chain.Recorded.{HistoricalOutput, FindSpend, select_recorded_funding}
use pubky_swap.Onchain.{fee_rate_cap}
use pubky_swap.Onchain.Preimages.{Bytes, PaymentHash, Transaction, extract_preimage, outpoint_eq}
use pubky_swap.FeeBump.{
  SpendOutcome, confirmed, conflicting_spend, deadline_exceeded, Spend, SpendWatchConfig, Opening,
  Turn, refund_config, with_known_ours, confirm_or_bump,
}
use pubky_swap.Reorg.{finality_depth}
use pubky_swap.Swap.{SwapState, claimed, refunded, expired, failed}
use pubky_swap.Timelock.{TimelockParams, check_reverse_before_fund}
use pubky_swap.Driver.{
  Ends, running, fails, returns, Run, done, unfinished, ask, tell, tell_all, ◌>>=◌, ◌>>◌,
}

-- `store::Resume`: what an earlier run of the swap left on the record.
pub record Resume : Type 0 where
  pub invoice_pay_started_at_unix : Option ℕ
  pub funding : Option OutPoint
  pub funding_intent_at_height : Option ℕ
  pub our_spends : List Txid
  pub reorg_seen_at_height : Option ℕ

-- The script, the keys and the invoice enter by what the spends make of them, `Answers.build` and
-- `Answers.refund_vsize`.
pub record ReverseSwap : Type 0 where
  pub payment_hash : PaymentHash
  pub onchain_amount_sat : ℕ
  pub fee_rate_sat_vb : ℕ
  pub timeout_height : ℕ
  pub timelock : TimelockParams

-- `InvoiceState` of lightning/src/lib.rs.
pub data InvoiceState : Type 0 where
  «open» accepted settled cancelled : InvoiceState

-- The calls on a driver's log, each with the answer that decides what may follow it.
pub data Call : Type 0 where
  invoice_state : InvoiceState → Call
  -- The earliest expiry among the HTLCs that the invoice holds.
  earliest_htlc_expiry : ℕ → Call
  tip_height : ℕ → Call
  -- Recorded: a marker that could not be written is no call.
  funding_intent : ℕ → Call
  fund_htlc : ℕ → Call
  funded : OutPoint → Call
  -- No call of the source: the recorded outpoint is relied on as it stands.
  relied_on : OutPoint → Call
  claimable : OutPoint → Call
  claim_observed : Txid → Call
  -- With whether the node answered `Ok`.
  settle_hold_invoice : Bytes → Bool → Call
  -- The depth of the counterparty's claim.
  claim_depth : ℕ → Call
  spend_broadcast : Txid → Call
  refund_confirmed : Txid → Call
  cancel_hold_invoice : Call

abbrev pub refund_fee_target_blocks : ℕ
refund_fee_target_blocks = 6

abbrev pub default_max_fee_bps : ℕ
default_max_fee_bps = 2_000

abbrev pub absolute_max_fee_rate_sat_vb : ℕ
absolute_max_fee_rate_sat_vb = 1_000

-- `InvoiceStatus::earliest_htlc_expiry` of lightning/src/lib.rs.
unfoldable pub earliest_expiry : List ℕ → Option ℕ
earliest_expiry [] = none
earliest_expiry (h ∷ rest) = some (elim (earliest_expiry rest) [ none ↦ h | some e ↦ min h e ])

pub data FundingOutcome : Type 0 where
  funded_at : OutPoint → FundingOutcome
  refused : SwapState → FundingOutcome

-- One poll of the hold invoice.
pub record InvoiceTurn : Type 0 where
  pub state : Result String InvoiceState
  pub tip : Result String ℕ

-- One poll of `await_recorded_funding`.
pub record RecordedTurn : Type 0 where
  pub find_funding : Result String (Option FundingUtxo)
  pub history : Result String (List HistoricalOutput)
  pub find_spend : FindSpend
  pub tip : Result String ℕ

-- What `establish_funding` asks once.
pub record Establishing : Type 0 where
  pub outputs : Result String (List FundingUtxo)
  pub find_funding : Result String (Option FundingUtxo)
  -- The expiries of the HTLCs that the invoice holds.
  pub invoice_status : Result String (List ℕ)
  pub tip : Result String ℕ
  pub funding_intent : Result String (Unit {0})
  pub fund_htlc : Result String OutPoint

-- One poll for the client's claim.
pub record WatchTurn : Type 0 where
  pub spend : Result String (Option Transaction)
  pub funding_confirmations : Result String (Option ℕ)
  pub settle : Result String (Unit {0})
  pub claim_confirmations : Result String (Option ℕ)
  pub tip : Result String ℕ
  pub refund_opening : Opening
  pub refund_turns : List Turn

pub record Answers : Type 0 where
  pub invoice_turns : List InvoiceTurn
  pub establishing : Establishing
  pub recorded_turns : List RecordedTurn
  pub wants_claimable : Bool
  pub watch_turns : List WatchTurn
  -- The signed refund of the funding outpoint at a fee rate, by its id, and its size.
  pub build : OutPoint → ℕ → Result String Txid
  pub refund_vsize : ℕ
