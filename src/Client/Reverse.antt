-- ===== src/Client/Reverse.antt =====
-- swap-client/src/reverse.rs: the client of a reverse swap. It starts to pay the hold invoice, waits
-- for the provider's HTLC, claims it with the preimage, and waits for its own payment. What the
-- Lightning node and the chain answer enters as a record for each turn of a loop.
pub mod Protocol
pub mod Refines
pub mod Final
pub mod Promises
use pubky_swap.Prelude.{
  ℕ, ◌-◌, Bool, true, false, not, ◌&&◌, String, Option, none, some, List, [], ◌∷◌, map, Result, ok,
  err, leb, if◌then◌else◌, is_some,
}
use pubky_swap.Chain.{
  Txid, OutPoint, FundingUtxo, FundingSelection, nothing, exact, overpaid, underpaid,
  excessive_overpay, multiple, select_funding, default_max_overpay_sat,
}
use pubky_swap.Onchain.{fee_rate_cap}
use pubky_swap.Onchain.Preimages.{Bytes}
use pubky_swap.FeeBump.{
  SpendOutcome, confirmed, conflicting_spend, deadline_exceeded, Spend, SpendWatchConfig, Opening,
  Turn, claim_config, with_known_ours, confirm_or_bump,
}
use pubky_swap.Reorg.{finality_depth}
use pubky_swap.Timelock.{claim_abort_margin, claim_start_is_safe}
use pubky_swap.Driver.{Run, done, unfinished, ask, tell, tell_all, ◌>>=◌, ◌>>◌}
use pubky_swap.Reverse.{Resume, default_max_fee_bps, absolute_max_fee_rate_sat_vb}
use pubky_swap.Submarine.{PaymentStatus, succeeded, in_flight, failed_with, unknown, not_found}
use pubky_swap.Submarine.Claim.{claim_fee_target_blocks, told}

-- The script, the key, the invoice and the destination enter by what the claim makes of them,
-- `Answers.build` and `Answers.claim_vsize`.
pub record ReverseClaim : Type 0 where
  pub onchain_amount_sat : ℕ
  pub timeout_height : ℕ
  pub preimage : Bytes
  pub fee_rate_sat_vb : ℕ

-- The calls on a run's log, each with the answer that decides what may follow it.
pub data Call : Type 0 where
  payment_status : Result String PaymentStatus → Call
  -- Recorded: a marker that could not be written is no call.
  payment_started : Call
  -- With the cap on the routing fee. The payment runs beside the driver.
  pay_invoice : ℕ → Call
  find_outputs : List FundingUtxo → Call
  tip_height : ℕ → Call
  spend_broadcast : Txid → Call
  claim_confirmed : Txid → Call
  -- Our own payment has returned, with its routing fee.
  invoice_paid : ℕ → Call

-- One poll for the provider's funding. The payment's task gives an error where it cannot be
-- joined, else the payment's own result, by its routing fee.
pub record FundingTurn : Type 0 where
  pub outputs : Result String (List FundingUtxo)
  pub tip : Result String ℕ
  pub is_finished : Bool
  pub pay_task : Result String (Result String ℕ)

pub record Answers : Type 0 where
  pub payment_status : Result String PaymentStatus
  pub payment_started : Result String (Unit {0})
  pub funding_turns : List FundingTurn
  pub tip : Result String ℕ
  -- The signed claim of an outpoint that holds a value, at a fee rate, by its id; and its size.
  pub build : OutPoint → ℕ → ℕ → Result String Txid
  pub claim_vsize : ℕ
  pub claim_opening : Opening
  pub claim_turns : List Turn
  pub pay_task : Result String (Result String ℕ)

-- `Resume::is_fresh` of swap-common/src/store.rs.
unfoldable pub is_fresh : Resume → Bool
is_fresh resume =
    not (is_some resume.invoice_pay_started_at_unix)
    && not (is_some resume.funding)
    && not (is_some resume.funding_intent_at_height)
    && elim resume.our_spends [ [] ↦ true | txid ∷ rest ↦ false ]
    && not (is_some resume.reorg_seen_at_height)

unfoldable pub already_paying : Resume → Result String PaymentStatus → Bool
already_paying resume (ok (succeeded preimage)) = true
already_paying resume (ok in_flight) = true
already_paying resume (ok not_found) = false
already_paying resume (ok (failed_with reason)) = false
already_paying resume (ok unknown) = not (is_fresh resume)
already_paying resume (err e) = true

unfoldable pub start_payment : ℕ → Answers → Bool → Run Call (Unit {0})
start_payment max_routing_fee_msat answers true = done tt
start_payment max_routing_fee_msat answers false = do
  recorded ← ask answers.payment_started
  tell payment_started
  tell (pay_invoice max_routing_fee_msat)
  done tt

unfoldable pub settle : Answers → Bool → Txid → Run Call Txid
settle answers false txid = done txid
settle answers true txid = do
  joined ← ask answers.pay_task
  fee_msat ← ask joined
  tell (invoice_paid fee_msat)
  done txid

unfoldable pub on_outcome : SpendOutcome → Run Call Txid
on_outcome (confirmed txid) = do tell (claim_confirmed txid); done txid
on_outcome (conflicting_spend txid) =
    ask (err "the provider refunded the HTLC before our claim confirmed")
on_outcome (deadline_exceeded txid tip) =
    ask (err "the claim did not confirm before the provider's refund window")

unfoldable pub push_claim : Option (Result String SpendOutcome × Option Spend) → Run Call Txid
unfolding on_outcome
push_claim none = unfinished
push_claim (some (result, spend)) = do
  tell_all (map spend_broadcast (told spend))
  outcome ← ask result
  on_outcome outcome

module _ (claim : ReverseClaim) where
  -- The end of a poll that has found no funding to claim; `own` where a payment of ours is running.
  unfoldable pub poll_again : Bool → FundingTurn → Run Call FundingUtxo → Run Call FundingUtxo
  poll_again own turn rest = do
    tip ← ask turn.tip
    tell (tip_height tip)
    if not (claim_start_is_safe tip claim.timeout_height)
        then ask (err "the provider's HTLC did not confirm in time")
        else if own && turn.is_finished
        then (do
          joined ← ask turn.pay_task
          ask (err "invoice payment ended before the HTLC was funded"))
        else rest

  unfoldable pub if_deep :
      ℕ → Bool → FundingTurn → Run Call FundingUtxo → FundingUtxo → Run Call FundingUtxo
  unfolding poll_again
  if_deep required own turn rest u =
      if leb required u.confirmations then done u else poll_again own turn rest

  unfoldable pub on_selection :
      ℕ → Bool → FundingTurn → Run Call FundingUtxo → FundingSelection → Run Call FundingUtxo
  unfolding if_deep poll_again
  on_selection required own turn rest (exact u) = if_deep required own turn rest u
  on_selection required own turn rest (overpaid u excess) = if_deep required own turn rest u
  on_selection required own turn rest (underpaid got) =
      ask (err "the provider's HTLC holds less than the swap is priced on")
  on_selection required own turn rest (excessive_overpay got) =
      ask (err "the provider's HTLC holds far more than expected")
  on_selection required own turn rest (multiple utxos) =
      ask (err "several outputs pay the HTLC address")
  on_selection required own turn rest nothing = poll_again own turn rest

  unfoldable pub await_funding : ℕ → Bool → List FundingTurn → Run Call FundingUtxo
  unfolding on_selection
  await_funding required own [] = unfinished
  await_funding required own (turn ∷ turns) = do
    let rest = await_funding required own turns
    outputs ← ask turn.outputs
    tell (find_outputs outputs)
    on_selection required own turn rest
        (select_funding outputs claim.onchain_amount_sat default_max_overpay_sat)

  unfoldable pub claim_watch : Resume → ℕ → SpendWatchConfig
  claim_watch resume vsize =
      let cap =
        fee_rate_cap claim.onchain_amount_sat vsize default_max_fee_bps absolute_max_fee_rate_sat_vb
          claim.fee_rate_sat_vb in
      with_known_ours
        (claim_config claim_fee_target_blocks claim.fee_rate_sat_vb cap finality_depth
          (claim.timeout_height - claim_abort_margin))
        resume.our_spends

  -- The claim is built over what the output holds.
  unfoldable pub claim_funding : Resume → Answers → FundingUtxo → Run Call Txid
  unfolding push_claim
  claim_funding resume answers u = do
    tip ← ask answers.tip
    tell (tip_height tip)
    if not (claim_start_is_safe tip claim.timeout_height)
        then ask (err "the provider's HTLC confirmed too close to its refund")
        else push_claim (
            confirm_or_bump (answers.build u.outpoint u.value_sat)
              (claim_watch resume answers.claim_vsize) answers.claim_opening answers.claim_turns)

  unfoldable pub execute_reverse_swap : Resume → ℕ → ℕ → Answers → Run Call Txid
  unfolding start_payment await_funding claim_funding settle
  execute_reverse_swap resume max_routing_fee_msat required answers = do
    tell (payment_status answers.payment_status)
    let paying = already_paying resume answers.payment_status
    start_payment max_routing_fee_msat answers paying
    u ← await_funding required (not paying) answers.funding_turns
    txid ← claim_funding resume answers u
    settle answers (not paying) txid
