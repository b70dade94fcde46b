-- ===== src/Reverse/Watch.antt =====
-- The watch over a funded reverse swap, and the whole driver (swap-provider/src/reverse.rs).
use pubky_swap.Prelude.{
  ℕ, max, Bool, true, false, ◌&&◌, String, Option, none, some, List, [], ◌∷◌, Result, ok, err, leb,
  if◌then◌else◌, not,
}
use pubky_swap.Chain.{Txid, OutPoint}
use pubky_swap.Onchain.{fee_rate_cap}
use pubky_swap.Onchain.Preimages.{Bytes, PaymentHash, Transaction, extract_preimage, outpoint_eq}
use pubky_swap.FeeBump.{
  SpendOutcome, confirmed, conflicting_spend, deadline_exceeded, Spend, SpendWatchConfig,
  refund_config, with_known_ours, confirm_or_bump,
}
use pubky_swap.Reorg.{finality_depth}
use pubky_swap.Swap.{SwapState, claimed, refunded}
use pubky_swap.Driver.{Run, done, unfinished, ask, tell, tell_all, ◌>>=◌, ◌>>◌}
use pubky_swap.Reverse.{
  FundingOutcome, funded_at, refused, InvoiceTurn, Resume, ReverseSwap, Call, tip_height, claimable,
  claim_observed, settle_hold_invoice, claim_depth, spend_broadcast, refund_confirmed,
  cancel_hold_invoice, refund_fee_target_blocks, default_max_fee_bps, absolute_max_fee_rate_sat_vb,
  funded_at, refused, WatchTurn, Answers,
}
use pubky_swap.Reverse.Establish.{await_invoice, establish_funding, may_have_funded}

module _ (sha256 : Bytes → PaymentHash) (swap : ReverseSwap) where
  -- The claimable hint: given once, when the funding is at depth and unspent. A lookup that fails
  -- only delays it. The result is whether it is still due.
  unfoldable pub hint : OutPoint → ℕ → WatchTurn → Bool → Option Transaction → Run Call Bool
  hint outpoint required turn due (some tx) = done false
  hint outpoint required turn false none = done false
  hint outpoint required turn true none = elim turn.funding_confirmations [
    | ok (some depth) ↦
        if leb (max required 1) depth then (do tell (claimable outpoint); done false) else done true
    | _ ↦ done true
  ]

  -- Whether the claim that we settled on is final.
  unfoldable pub bury : WatchTurn → Run Call Bool
  bury turn = do
    confirmations ← ask turn.claim_confirmations
    elim confirmations [
      | none ↦ done false
      | some depth ↦ do tell (claim_depth depth); done (leb finality_depth depth)
    ]

  -- Whether the invoice is settled now, and whether the claim is final.
  unfoldable pub settle_on : WatchTurn → Bool → Transaction → Bytes → Run Call (Bool × Bool)
  settle_on turn true tx preimage = do final ← bury turn; done (true, final)
  settle_on turn false tx preimage = do
    tell (claim_observed tx.txid)
    elim turn.settle [
      | err e ↦ do tell (settle_hold_invoice preimage false); done (false, false)
      | ok answered ↦ do
        tell (settle_hold_invoice preimage true)
        final ← bury turn
        done (true, final)
    ]

  unfoldable pub on_preimage :
      WatchTurn → Bool → Transaction → Option Bytes → Run Call (Bool × Bool)
  unfolding settle_on
  on_preimage turn has_settled tx none = done (has_settled, false)
  on_preimage turn has_settled tx (some preimage) = settle_on turn has_settled tx preimage

  unfoldable pub read_spend :
      OutPoint → WatchTurn → Bool → Option Transaction → Run Call (Bool × Bool)
  unfolding on_preimage
  read_spend outpoint turn has_settled none = done (has_settled, false)
  read_spend outpoint turn has_settled (some tx) =
      on_preimage turn has_settled tx (extract_preimage sha256 tx outpoint swap.payment_hash)

  unfoldable pub refund_watch : Resume → ℕ → SpendWatchConfig
  refund_watch resume vsize =
      let cap =
        fee_rate_cap swap.onchain_amount_sat vsize default_max_fee_bps absolute_max_fee_rate_sat_vb
          swap.fee_rate_sat_vb in
      with_known_ours
        (refund_config refund_fee_target_blocks swap.fee_rate_sat_vb cap finality_depth)
        resume.our_spends

  -- The refund's end: `none` where the outer loop goes on.
  unfoldable pub close_refund : SpendOutcome → Run Call (Option SwapState)
  close_refund (confirmed txid) = do
    tell (refund_confirmed txid)
    tell cancel_hold_invoice
    done (some refunded)
  close_refund (conflicting_spend txid) = done none
  close_refund (deadline_exceeded txid tip) = done none

  -- What `on_spend` was told, oldest first.
  unfoldable pub broadcasts : List Txid → List Call → List Call
  broadcasts [] later = later
  broadcasts (txid ∷ older) later = broadcasts older (spend_broadcast txid ∷ later)

  unfoldable pub told : Option Spend → List Call
  told none = []
  told (some spend) = broadcasts spend.told []

  unfoldable pub refund :
      Option (Result String SpendOutcome × Option Spend) → Run Call (Option SwapState)
  refund none = unfinished
  refund (some (result, spend)) = do
    tell_all (told spend)
    outcome ← ask result
    close_refund outcome

  -- The rest of a turn, once the spend has been read: the end, the refund at the timeout, or
  -- `rest`, the turns after it.
  unfoldable pub finish_turn :
      WatchTurn
      → Option (Result String SpendOutcome × Option Spend)
      → Bool
      → Bool
      → Run Call SwapState
      → Run Call SwapState
  unfolding refund
  finish_turn turn bumped paid true rest = done claimed
  finish_turn turn bumped paid false rest = do
    tip ← ask turn.tip
    tell (tip_height tip)
    if leb swap.timeout_height tip && not paid
        then (do ended ← refund bumped; elim ended [ some state ↦ done state | none ↦ rest ])
        else rest

  -- The loop for the client's claim, which refunds once the timeout has come.
  unfoldable pub watch :
      Resume → ℕ → Answers → OutPoint → List WatchTurn → Bool → Bool → Run Call SwapState
  unfolding finish_turn hint read_spend
  watch resume required answers outpoint [] due has_settled = unfinished
  watch resume required answers outpoint (turn ∷ turns) due has_settled = do
    let bumped =
        confirm_or_bump (answers.build outpoint) (refund_watch resume answers.refund_vsize)
          turn.refund_opening turn.refund_turns
    spend ← ask turn.spend
    still_due ← hint outpoint required turn due spend
    (paid, final) ← read_spend outpoint turn has_settled spend
    let rest = watch resume required answers outpoint turns still_due paid
    finish_turn turn bumped paid final rest

  unfoldable pub with_outcome : Resume → ℕ → Answers → FundingOutcome → Run Call SwapState
  unfolding watch
  with_outcome resume required answers (refused state) = done state
  with_outcome resume required answers (funded_at outpoint) =
      watch resume required answers outpoint answers.watch_turns answers.wants_claimable false

  -- From the invoice on: the state that ended the wait, or the funding and the watch.
  unfoldable pub drive_on : Resume → ℕ → Answers → Option SwapState → Run Call SwapState
  unfolding with_outcome
  drive_on resume required answers (some state) = done state
  drive_on resume required answers none = do
    outcome ←
        establish_funding sha256 swap resume required answers.establishing answers.recorded_turns
    with_outcome resume required answers outcome

  -- A driver that may have funded does not ask about the invoice.
  unfoldable pub wait : Bool → List InvoiceTurn → Run Call (Option SwapState)
  wait true turns = done none
  wait false turns = await_invoice swap turns

  unfoldable pub drive_reverse_swap : Resume → ℕ → Answers → Run Call SwapState
  unfolding drive_on wait
  drive_reverse_swap resume required answers = do
    ended ← wait (may_have_funded resume) answers.invoice_turns
    drive_on resume required answers ended
