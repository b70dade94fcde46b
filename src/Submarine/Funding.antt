-- ===== src/Submarine/Funding.antt =====
-- Up to the payment of a submarine swap (swap-provider/src/submarine.rs): the funding outpoint,
-- and the guard that it is still buried.
use pubky_swap.Prelude.{
  ℕ, Bool, true, false, Option, none, some, List, [], ◌∷◌, leb, if◌then◌else◌, is_some,
}
use pubky_swap.Chain.{
  OutPoint, FundingUtxo, FundingSelection, nothing, exact, overpaid, underpaid, excessive_overpay,
  multiple, select_funding, default_max_overpay_sat,
}
use pubky_swap.Chain.Recorded.{is_claimed_by}
use pubky_swap.Onchain.Preimages.{Bytes, PaymentHash}
use pubky_swap.Swap.{claimed, expired, failed, invoice_pending}
use pubky_swap.Driver.{Run, done, unfinished, ask, tell, ◌>>=◌, ◌>>◌}
use pubky_swap.Submarine.{
  SubmarineSwap, PaymentStatus, succeeded, in_flight, failed_with, unknown, not_found, Call,
  tip_height, funded, outpoint_status, htlc_spent, payment_status, Stage, proceed, stop,
  FundingTurn, Answers,
}

module _ (sha256 : Bytes → PaymentHash) (swap : SubmarineSwap) (required : ℕ) where
  -- The end of a poll: the timeout, or `rest`, the polls after it.
  unfoldable pub poll_again : FundingTurn → Run Call (Stage OutPoint) → Run Call (Stage OutPoint)
  poll_again turn rest = do
    tip ← ask turn.tip
    tell (tip_height tip)
    if leb swap.timeout_height tip then done (stop expired) else rest

  unfoldable pub if_deep :
      FundingTurn → Run Call (Stage OutPoint) → FundingUtxo → Run Call (Stage OutPoint)
  unfolding poll_again
  if_deep turn rest utxo =
      if leb required utxo.confirmations
      then (do tell (funded utxo.outpoint); done (proceed utxo.outpoint))
      else poll_again turn rest

  -- The reasons are the source's without the amounts that it prints in them.
  unfoldable pub on_selection :
      FundingTurn → Run Call (Stage OutPoint) → FundingSelection → Run Call (Stage OutPoint)
  unfolding if_deep poll_again
  on_selection turn rest (exact utxo) = if_deep turn rest utxo
  on_selection turn rest (overpaid utxo excess) = if_deep turn rest utxo
  on_selection turn rest (underpaid got) = done (stop (failed "funding is short"))
  on_selection turn rest (excessive_overpay got) = done (stop (failed "funding is implausible"))
  on_selection turn rest (multiple utxos) =
      done (stop (failed "several outputs pay the HTLC address"))
  on_selection turn rest nothing = poll_again turn rest

  unfoldable pub seek_funding : List FundingTurn → Run Call (Stage OutPoint)
  unfolding on_selection
  seek_funding [] = unfinished
  seek_funding (turn ∷ turns) = do
    let rest = seek_funding turns
    outputs ← ask turn.outputs
    on_selection turn rest (select_funding outputs swap.onchain_amount_sat default_max_overpay_sat)

  -- Step 1: the outpoint on the record, or the funding that the client makes.
  unfoldable pub locate_funding : Option OutPoint → Answers → Run Call (Stage OutPoint)
  unfolding seek_funding
  locate_funding (some outpoint) answers = do
    spend ← ask answers.resumed_spend
    if is_claimed_by sha256 spend outpoint swap.payment_hash
        then (do tell htlc_spent; done (stop claimed))
        else done (proceed outpoint)
  locate_funding none answers = seek_funding answers.funding_turns

  unfoldable pub on_lost_payment : PaymentStatus → Run Call (Stage ℕ)
  on_lost_payment (failed_with reason) = done (stop (failed "invoice payment failed"))
  on_lost_payment (succeeded preimage) = done (stop invoice_pending)
  on_lost_payment in_flight = done (stop invoice_pending)
  on_lost_payment unknown = done (stop invoice_pending)
  on_lost_payment not_found = done (stop invoice_pending)

  -- The funding is not there, or not deep enough.
  unfoldable pub on_missing : Bool → Answers → Run Call (Stage ℕ)
  unfolding on_lost_payment
  on_missing true answers = do
    status ← ask answers.lost_payment
    tell (payment_status status)
    on_lost_payment status
  on_missing false answers =
      done (stop (failed "funding reorged below required confirmations before payment"))

  unfoldable pub on_unconfirmed : Bool → Answers → Run Call (Stage ℕ)
  unfolding on_missing
  on_unconfirmed already_attempted answers = do
    spend ← ask answers.spend
    if is_some spend
        then (do tell htlc_spent; done (stop claimed))
        else on_missing already_attempted answers

  unfoldable pub on_status : Bool → Answers → Option FundingUtxo → Run Call (Stage ℕ)
  unfolding on_unconfirmed
  on_status already_attempted answers none = do
    tell (outpoint_status none)
    on_unconfirmed already_attempted answers
  on_status true answers (some utxo) = do
    tell (outpoint_status (some utxo.confirmations))
    done (proceed utxo.value_sat)
  on_status false answers (some utxo) = do
    tell (outpoint_status (some utxo.confirmations))
    if leb required utxo.confirmations
        then done (proceed utxo.value_sat)
        else on_unconfirmed false answers

  -- The reorganisation guard, which reads the value that the claim is signed over. Once a payment
  -- may be out, any depth will do.
  unfoldable pub guard_funding : Bool → Answers → Run Call (Stage ℕ)
  unfolding on_status
  guard_funding already_attempted answers = do
    status ← ask answers.status
    on_status already_attempted answers status
