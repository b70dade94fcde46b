-- ===== src/Submarine.antt =====
-- swap-provider/src/submarine.rs: driving a submarine swap. The client funds the HTLC, the
-- provider pays the invoice, which buys the preimage, and claims the coins with it. What the
-- Lightning node and the chain answer enters as a record for each turn of a loop.
pub mod Create
pub mod Funding
pub mod Payment
pub mod Claim
pub mod Protocol
pub mod Refines
pub mod Pays
pub mod Orders
pub mod Promises
mod Examples
use pubky_swap.Prelude.{ℕ, String, Option, none, some, List, [], ◌∷◌, Result}
use pubky_swap.Chain.{Txid, OutPoint, FundingUtxo}
use pubky_swap.Onchain.Preimages.{Bytes, PaymentHash, Transaction}
use pubky_swap.FeeBump.{Opening, Turn}
use pubky_swap.Swap.{SwapState}
use pubky_swap.Timelock.{TimelockParams}

-- The script, the key and the invoice enter by what the spends make of them, `Answers.build` and
-- `Answers.claim_vsize`.
pub record SubmarineSwap : Type 0 where
  pub payment_hash : PaymentHash
  pub onchain_amount_sat : ℕ
  pub fee_rate_sat_vb : ℕ
  pub timeout_height : ℕ
  pub max_routing_fee_msat : ℕ
  pub timelock : TimelockParams

-- `PaymentStatus` and `LightningError` of lightning/src/lib.rs; a payment's result enters by its
-- preimage.
pub data PaymentStatus : Type 0 where
  succeeded : Bytes → PaymentStatus
  in_flight : PaymentStatus
  failed_with : String → PaymentStatus
  unknown not_found : PaymentStatus

pub data LightningError : Type 0 where
  not_implemented backend payment_failed : String → LightningError
  invoice_not_found : LightningError

-- The calls on a driver's log, each with the answer that decides what may follow it.
pub data Call : Type 0 where
  tip_height : ℕ → Call
  funded : OutPoint → Call
  -- The depth of the funding, if it is there.
  outpoint_status : Option ℕ → Call
  -- The funding was found spent: by a claim, on this path.
  htlc_spent : Call
  payment_status : PaymentStatus → Call
  -- Recorded: a marker that could not be written is no call.
  invoice_pay_started : Call
  -- With the cap on the routing fee and the limit on the expiry of the outgoing HTLC.
  pay_invoice : ℕ → ℕ → Call
  -- The node refused the payment, or reported that it failed.
  payment_refused : Call
  -- With the preimage that the payment bought.
  invoice_paid : Bytes → Call
  spend_broadcast claim_confirmed : Txid → Call

-- How a stage of the driver ends: with what the next one needs, or with the state to report.
pub data Stage {ℓ} (A : Type ℓ) : Type ℓ where
  proceed : A → Stage A
  stop : SwapState → Stage A

abbrev pub payment_poll_iterations : ℕ
payment_poll_iterations = 30

-- One poll for the client's funding.
pub record FundingTurn : Type 0 where
  pub outputs : Result String (List FundingUtxo)
  pub tip : Result String ℕ

-- One poll of the payment; what is asked depends on the status.
pub record PaymentTurn : Type 0 where
  pub status : Result String PaymentStatus
  pub tip : Result String ℕ
  pub invoice_pay_started : Result String (Unit {0})
  pub pay_invoice : Result LightningError Bytes

-- One call of `confirm_or_bump` for the claim.
pub record ClaimTurn : Type 0 where
  pub opening : Opening
  pub turns : List Turn

pub record Answers : Type 0 where
  -- The spend of a resumed swap's funding.
  pub resumed_spend : Result String (Option Transaction)
  pub funding_turns : List FundingTurn
  -- The guard before the payment.
  pub status : Result String (Option FundingUtxo)
  pub spend : Result String (Option Transaction)
  pub lost_payment : Result String PaymentStatus
  pub payment_turns : List PaymentTurn
  pub claim_turns : List ClaimTurn
  -- The signed claim of an outpoint of this value, with the preimage, at a fee rate, by its id.
  pub build : OutPoint → ℕ → Bytes → ℕ → Result String Txid
  pub claim_vsize : ℕ
