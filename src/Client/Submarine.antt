-- ===== src/Client/Submarine.antt =====
-- swap-client/src/submarine.rs: the client of a submarine swap. It funds the HTLC, without ever
-- funding twice, waits for the provider to pay its invoice, and refunds at the timeout. What the
-- node, the chain and the wallet answer enters as a record for each turn of a loop.
pub mod Protocol
pub mod Refines
pub mod Refunds
pub mod Outpoints
pub mod Settlements
pub mod Promises
use pubky_swap.Prelude.{
  ℕ, Bool, true, false, not, String, Option, none, some, List, [], ◌∷◌, map, Result, ok, err, leb,
  if◌then◌else◌, is_some,
}
use pubky_swap.Chain.{Txid, OutPoint, FundingUtxo}
use pubky_swap.Chain.Recorded.{select_recorded_funding}
use pubky_swap.Onchain.{fee_rate_cap}
use pubky_swap.Onchain.Preimages.{Bytes, PaymentHash, Transaction, extract_preimage}
use pubky_swap.FeeBump.{
  SpendOutcome, confirmed, conflicting_spend, deadline_exceeded, Spend, SpendWatchConfig, Opening,
  Turn, refund_config, with_known_ours, confirm_or_bump,
}
use pubky_swap.Reorg.{finality_depth}
use pubky_swap.Swap.{SwapState, claimed, refunded, expired}
use pubky_swap.Timelock.{claim_start_is_safe}
use pubky_swap.Driver.{Run, done, unfinished, ask, tell, tell_all, ◌>>=◌, ◌>>◌}
use pubky_swap.Reverse.{
  Resume, InvoiceState, settled, RecordedTurn, refund_fee_target_blocks, default_max_fee_bps,
  absolute_max_fee_rate_sat_vb,
}
use pubky_swap.Submarine.Claim.{told}

-- The script and the key enter by what the refund makes of them, `Answers.build` and
-- `Answers.refund_vsize`.
pub record SubmarineFunding : Type 0 where
  pub onchain_amount_sat : ℕ
  pub payment_hash : PaymentHash
  pub timeout_height : ℕ
  pub fee_rate_sat_vb : ℕ

-- The calls on a run's log, each with the answer that decides what may follow it.
pub data Call : Type 0 where
  tip_height : ℕ → Call
  -- Recorded: a marker that could not be written is no call.
  funding_intent : ℕ → Call
  fund_htlc : ℕ → Call
  funded : OutPoint → Call
  -- No call of the source: the recorded outpoint is relied on as it stands.
  relied_on : OutPoint → Call
  invoice_state : InvoiceState → Call
  find_spend : Option Transaction → Call
  spend_broadcast : Txid → Call
  refund_confirmed : Txid → Call
  -- The refund has met another spend of the HTLC.
  conflicted : Transaction → Call

-- What `establish_funding` asks once.
pub record Establishing : Type 0 where
  pub find_funding : Result String (Option FundingUtxo)
  pub tip : Result String ℕ
  pub funding_intent : Result String (Unit {0})
  pub fund_htlc : Result String OutPoint

-- One turn of the wait for the settlement.
pub record SettleTurn : Type 0 where
  pub state : Result String InvoiceState
  pub tip : Result String ℕ
  pub spend : Result String (Option Transaction)
  pub refund_opening : Opening
  pub refund_turns : List Turn

pub record Answers : Type 0 where
  pub establishing : Establishing
  pub recorded_turns : List RecordedTurn
  pub settle_turns : List SettleTurn
  -- The signed refund of the outpoint at a fee rate, by its id, and its size.
  pub build : OutPoint → ℕ → Result String Txid
  pub refund_vsize : ℕ
  -- The transaction that the chain holds under an id.
  pub transaction : Txid → Transaction

unfoldable pub adopt : OutPoint → Run Call (Option OutPoint)
adopt outpoint = do tell (funded outpoint); done (some outpoint)

unfoldable pub rely_on : OutPoint → Run Call (Option OutPoint)
rely_on outpoint = do tell (relied_on outpoint); done (some outpoint)

module _ (sha256 : Bytes → PaymentHash) (funding : SubmarineFunding) where
  -- Never funds; gives up when the swap's timeout has come.
  unfoldable pub await_recorded_funding : List RecordedTurn → Run Call (Option OutPoint)
  await_recorded_funding [] = unfinished
  await_recorded_funding (turn ∷ turns) = do
    let rest = await_recorded_funding turns
    visible ← ask turn.find_funding
    elim visible [
      | some u ↦ adopt u.outpoint
      | none ↦ do
        history ← ask turn.history
        recorded ← ask (
            select_recorded_funding sha256 turn.find_spend funding.payment_hash
              funding.onchain_amount_sat history)
        elim recorded [
          | some outpoint ↦ adopt outpoint
          | none ↦ do
            tip ← ask turn.tip
            tell (tip_height tip)
            if leb funding.timeout_height tip then done none else rest
        ]
    ]

  -- The call of the wallet. An error leaves open whether the coins are on the wire.
  unfoldable pub fund : Establishing → List RecordedTurn → Run Call (Option OutPoint)
  fund asked turns = do
    tell (fund_htlc funding.onchain_amount_sat)
    elim asked.fund_htlc [ ok outpoint ↦ adopt outpoint | err e ↦ await_recorded_funding turns ]

  -- Is the swap still worth funding? Then the marker, and the funding.
  unfoldable pub commit : Establishing → List RecordedTurn → Run Call (Option OutPoint)
  commit asked turns = do
    tip ← ask asked.tip
    tell (tip_height tip)
    if not (claim_start_is_safe tip funding.timeout_height)
        then ask (err "no window is left for the provider to pay and claim")
        else (do recorded ← ask asked.funding_intent; tell (funding_intent tip); fund asked turns)

  unfoldable pub establish_fresh :
      Option ℕ → Establishing → List RecordedTurn → Run Call (Option OutPoint)
  establish_fresh intent asked turns = do
    visible ← ask asked.find_funding
    elim visible [
      | some u ↦ adopt u.outpoint
      | none ↦ if is_some intent then await_recorded_funding turns else commit asked turns
    ]

  unfoldable pub establish_from :
      Option OutPoint → Option ℕ → Establishing → List RecordedTurn → Run Call (Option OutPoint)
  unfolding establish_fresh
  establish_from (some outpoint) intent asked turns = rely_on outpoint
  establish_from none intent asked turns = establish_fresh intent asked turns

  unfoldable pub establish_funding :
      Resume → Establishing → List RecordedTurn → Run Call (Option OutPoint)
  unfolding establish_from
  establish_funding resume asked turns =
      establish_from resume.funding resume.funding_intent_at_height asked turns

  unfoldable pub refund_watch : Resume → ℕ → SpendWatchConfig
  refund_watch resume vsize =
      let cap =
        fee_rate_cap funding.onchain_amount_sat vsize default_max_fee_bps
          absolute_max_fee_rate_sat_vb funding.fee_rate_sat_vb in
      with_known_ours
        (refund_config refund_fee_target_blocks funding.fee_rate_sat_vb cap finality_depth)
        resume.our_spends

  -- Only the hashlock branch shows a preimage, so such a spend is the provider's claim.
  unfoldable pub is_claim : OutPoint → Transaction → Bool
  is_claim outpoint tx = is_some (extract_preimage sha256 tx outpoint funding.payment_hash)

  unfoldable pub is_claimed : OutPoint → Option Transaction → Bool
  unfolding is_claim
  is_claimed outpoint none = false
  is_claimed outpoint (some tx) = is_claim outpoint tx

  -- The refund's end, or `rest`, the next turn.
  unfoldable pub close_refund :
      Answers → OutPoint → Run Call SwapState → SpendOutcome → Run Call SwapState
  close_refund answers outpoint rest (confirmed txid) = do
    tell (refund_confirmed txid)
    done refunded
  close_refund answers outpoint rest (conflicting_spend txid) = do
    tell (conflicted (answers.transaction txid))
    if is_claim outpoint (answers.transaction txid)
        then done claimed
        else (do tell (spend_broadcast txid); done refunded)
  close_refund answers outpoint rest (deadline_exceeded txid tip) = rest

  unfoldable pub refund :
      Answers
      → OutPoint
      → Option (Result String SpendOutcome × Option Spend)
      → Run Call SwapState
      → Run Call SwapState
  unfolding close_refund
  refund answers outpoint none rest = unfinished
  refund answers outpoint (some (result, spend)) rest = do
    tell_all (map spend_broadcast (told spend))
    outcome ← ask result
    close_refund answers outpoint rest outcome

  unfoldable pub at_timeout :
      Resume → Answers → OutPoint → SettleTurn → Run Call SwapState → Run Call SwapState
  unfolding refund is_claimed
  at_timeout resume answers outpoint turn rest = do
    spend ← ask turn.spend
    tell (find_spend spend)
    if is_claimed outpoint spend
        then done claimed
        else refund answers outpoint
            (confirm_or_bump (answers.build outpoint) (refund_watch resume answers.refund_vsize)
              turn.refund_opening turn.refund_turns)
            rest

  -- After the invoice's state: the settlement, the refund at the timeout, or the next turn.
  unfoldable pub on_state :
      Resume
      → Answers
      → OutPoint
      → SettleTurn
      → Run Call SwapState
      → InvoiceState
      → Run Call SwapState
  unfolding at_timeout
  on_state resume answers outpoint turn rest settled = done claimed
  on_state resume answers outpoint turn rest _ = do
    tip ← ask turn.tip
    tell (tip_height tip)
    if leb funding.timeout_height tip then at_timeout resume answers outpoint turn rest else rest

  unfoldable pub await_settlement :
      Resume → Answers → OutPoint → List SettleTurn → Run Call SwapState
  unfolding on_state
  await_settlement resume answers outpoint [] = unfinished
  await_settlement resume answers outpoint (turn ∷ turns) = do
    let rest = await_settlement resume answers outpoint turns
    state ← ask turn.state
    tell (invoice_state state)
    on_state resume answers outpoint turn rest state

  unfoldable pub with_funding : Resume → Answers → Option OutPoint → Run Call SwapState
  unfolding await_settlement
  with_funding resume answers none = done expired
  with_funding resume answers (some outpoint) =
      await_settlement resume answers outpoint answers.settle_turns

  unfoldable pub execute_submarine_swap : Resume → Answers → Run Call SwapState
  unfolding with_funding establish_funding
  execute_submarine_swap resume answers = do
    outpoint ← establish_funding resume answers.establishing answers.recorded_turns
    with_funding resume answers outpoint
