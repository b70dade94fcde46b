-- ===== src/Reverse/Establish.antt =====
-- Up to the funding of a reverse swap (swap-provider/src/reverse.rs): the wait for the hold
-- invoice, and the funding outpoint, established without ever funding twice.
use pubky_swap.Prelude.{
  ℕ, Bool, false, ◌&&◌, ◌||◌, Option, none, some, List, [], ◌∷◌, ok, err, leb, if◌then◌else◌,
  is_some, ◌==◌,
}
use pubky_swap.Chain.{OutPoint, FundingUtxo}
use pubky_swap.Chain.Recorded.{select_recorded_funding}
use pubky_swap.Onchain.Preimages.{Bytes, PaymentHash, outpoint_eq}
use pubky_swap.Swap.{SwapState, claimed, expired, failed}
use pubky_swap.Timelock.{check_reverse_before_fund}
use pubky_swap.Driver.{Run, done, unfinished, ask, tell, ◌>>=◌, ◌>>◌}
use pubky_swap.Reverse.{
  earliest_expiry, InvoiceState, Resume, ReverseSwap, «open», accepted, settled, cancelled, Call,
  invoice_state, earliest_htlc_expiry, tip_height, funding_intent, fund_htlc, funded, relied_on,
  cancel_hold_invoice, FundingOutcome, funded_at, refused, InvoiceTurn, RecordedTurn, Establishing,
}

-- The `match` on the invoice's state: `none` once it is accepted, the state that ends the swap, or
-- the rest of the loop.
unfoldable pub on_state :
    ReverseSwap
    → InvoiceTurn
    → Run Call (Option SwapState)
    → InvoiceState
    → Run Call (Option SwapState)
on_state swap turn rest accepted = done none
on_state swap turn rest settled = done (some claimed)
on_state swap turn rest cancelled = done (some (failed "hold invoice cancelled"))
on_state swap turn rest «open» = do
  tip ← ask turn.tip
  tell (tip_height tip)
  if leb swap.timeout_height tip then (do tell cancel_hold_invoice; done (some expired)) else rest

-- The first loop.
unfoldable pub await_invoice : ReverseSwap → List InvoiceTurn → Run Call (Option SwapState)
unfolding on_state
await_invoice swap [] = unfinished
await_invoice swap (turn ∷ turns) = do
  let rest = await_invoice swap turns
  state ← ask turn.state
  tell (invoice_state state)
  on_state swap turn rest state

-- Every exit that commits nothing returns the client's payment first; the answer to the cancel
-- is only logged.
unfoldable pub refuse : SwapState → Run Call FundingOutcome
refuse state = do tell cancel_hold_invoice; done (refused state)

unfoldable pub adopt : OutPoint → Run Call FundingOutcome
adopt outpoint = do tell (funded outpoint); done (funded_at outpoint)

unfoldable pub may_have_funded : Resume → Bool
may_have_funded resume = is_some resume.funding || is_some resume.funding_intent_at_height

-- The recorded outpoint is still among the script's outputs, at the depth required.
unfoldable pub is_at_depth : OutPoint → ℕ → List FundingUtxo → Bool
is_at_depth outpoint required [] = false
is_at_depth outpoint required (u ∷ rest) =
    u.outpoint == outpoint && leb required u.confirmations || is_at_depth outpoint required rest

unfoldable pub rely_on : OutPoint → Run Call FundingOutcome
rely_on outpoint = do tell (relied_on outpoint); done (funded_at outpoint)

-- `await_recorded_funding`: never funds; gives up when the swap's timeout has come.
module _ (sha256 : Bytes → PaymentHash) (swap : ReverseSwap) where
  unfoldable pub await_recorded_funding : List RecordedTurn → Run Call FundingOutcome
  await_recorded_funding [] = unfinished
  await_recorded_funding (turn ∷ turns) = do
    let rest = await_recorded_funding turns
    visible ← ask turn.find_funding
    elim visible [
      | some u ↦ adopt u.outpoint
      | none ↦ do
        history ← ask turn.history
        recorded ← ask (
            select_recorded_funding sha256 turn.find_spend swap.payment_hash swap.onchain_amount_sat
              history)
        elim recorded [
          | some outpoint ↦ adopt outpoint
          | none ↦ do
            tip ← ask turn.tip
            tell (tip_height tip)
            if leb swap.timeout_height tip then refuse expired else rest
        ]
    ]

  -- The call of the wallet. An error leaves open whether the coins are on the wire.
  unfoldable pub fund : Establishing → List RecordedTurn → Run Call FundingOutcome
  fund asked turns = do
    tell (fund_htlc swap.onchain_amount_sat)
    elim asked.fund_htlc [ ok outpoint ↦ adopt outpoint | err e ↦ await_recorded_funding turns ]

  -- The realised timelocks, the marker, and then the funding.
  unfoldable pub commit : Establishing → List RecordedTurn → Run Call FundingOutcome
  commit asked turns = do
    htlcs ← ask asked.invoice_status
    elim (earliest_expiry htlcs) [
      | none ↦ refuse (failed "no held HTLC on an accepted invoice")
      | some ln_expiry ↦ do
        tell (earliest_htlc_expiry ln_expiry)
        tip ← ask asked.tip
        elim (check_reverse_before_fund tip swap.timeout_height ln_expiry swap.timelock) [
          | err violation ↦ refuse (failed "timelock violation")
          | ok passed ↦ elim asked.funding_intent [
            | err e ↦ refuse (failed "could not record the funding intent")
            | ok recorded ↦ do tell (funding_intent tip); fund asked turns
          ]
        ]
    ]

  -- With no outpoint on the record; the argument is the marker of an intent.
  unfoldable pub establish_fresh :
      Option ℕ → Establishing → List RecordedTurn → Run Call FundingOutcome
  establish_fresh intent asked turns = do
    visible ← ask asked.find_funding
    elim visible [
      | some u ↦ adopt u.outpoint
      | none ↦ if is_some intent then await_recorded_funding turns else commit asked turns
    ]

  -- With an outpoint on the record, and the height of a reorganisation seen since.
  unfoldable pub establish_recorded :
      OutPoint → Option ℕ → ℕ → Establishing → List RecordedTurn → Run Call FundingOutcome
  establish_recorded outpoint none required asked turns = rely_on outpoint
  establish_recorded outpoint (some fork) required asked turns = do
    outputs ← ask asked.outputs
    if is_at_depth outpoint required outputs then rely_on outpoint else await_recorded_funding turns

  unfoldable pub establish_from :
      Option OutPoint → Resume → ℕ → Establishing → List RecordedTurn → Run Call FundingOutcome
  unfolding establish_recorded establish_fresh
  establish_from (some outpoint) resume required asked turns =
      establish_recorded outpoint resume.reorg_seen_at_height required asked turns
  establish_from none resume required asked turns =
      establish_fresh resume.funding_intent_at_height asked turns

  unfoldable pub establish_funding :
      Resume → ℕ → Establishing → List RecordedTurn → Run Call FundingOutcome
  unfolding establish_from
  establish_funding resume required asked turns =
      establish_from resume.funding resume required asked turns
