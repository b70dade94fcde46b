-- ===== src/Submarine/Claim.antt =====
-- The claim of a submarine swap, and the whole driver (swap-provider/src/submarine.rs).
use pubky_swap.Prelude.{
  ℕ, ◌-◌, ◌&&◌, Bool, String, Option, none, some, List, [], ◌∷◌, ◌++◌, map, Result, eqb,
  if◌then◌else◌, is_some,
}
use pubky_swap.Chain.{Txid, OutPoint}
use pubky_swap.Onchain.{fee_rate_cap}
use pubky_swap.Onchain.Preimages.{Bytes, PaymentHash}
use pubky_swap.FeeBump.{
  SpendOutcome, confirmed, conflicting_spend, deadline_exceeded, Spend, SpendWatchConfig,
  claim_config, with_known_ours, confirm_or_bump,
}
use pubky_swap.Reorg.{finality_depth}
use pubky_swap.Swap.{SwapState, claimed, failed, invoice_pending}
use pubky_swap.Timelock.{claim_abort_margin}
use pubky_swap.Driver.{Run, done, unfinished, ask, tell, tell_all, ◌>>=◌, ◌>>◌}
use pubky_swap.Reverse.{Resume, default_max_fee_bps, absolute_max_fee_rate_sat_vb}
use pubky_swap.Submarine.{
  SubmarineSwap, Call, spend_broadcast, claim_confirmed, Stage, proceed, stop, ClaimTurn, Answers,
  payment_poll_iterations,
}
use pubky_swap.Submarine.Funding.{locate_funding, guard_funding}
use pubky_swap.Submarine.Payment.{settle_payment}

abbrev pub claim_fee_target_blocks : ℕ
claim_fee_target_blocks = 3

-- The ids that `on_spend` was told, oldest first.
unfoldable pub oldest_first : List Txid → List Txid → List Txid
oldest_first [] later = later
oldest_first (txid ∷ older) later = oldest_first older (txid ∷ later)

unfoldable pub told : Option Spend → List Txid
unfolding oldest_first
told none = []
told (some spend) = oldest_first spend.told []

module _ (sha256 : Bytes → PaymentHash) (swap : SubmarineSwap) where
  unfoldable pub claim_watch : ℕ → List Txid → SpendWatchConfig
  claim_watch vsize known_ours =
      let cap =
        fee_rate_cap swap.onchain_amount_sat vsize default_max_fee_bps absolute_max_fee_rate_sat_vb
          swap.fee_rate_sat_vb in
      with_known_ours
        (claim_config claim_fee_target_blocks swap.fee_rate_sat_vb cap finality_depth
          (swap.timeout_height - claim_abort_margin))
        known_ours

  -- The deadline only starts another pass, `rest`.
  unfoldable pub on_claim : Run Call SwapState → SpendOutcome → Run Call SwapState
  on_claim rest (confirmed txid) = do tell (claim_confirmed txid); done claimed
  on_claim rest (conflicting_spend txid) =
      done (failed "the client's refund won the claim race after the invoice was paid")
  on_claim rest (deadline_exceeded txid tip) = rest

  unfoldable pub claim_pass :
      Option (Result String SpendOutcome × Option Spend) → Run Call SwapState → Run Call SwapState
  unfolding on_claim
  claim_pass none rest = unfinished
  claim_pass (some (result, spend)) rest = do
    tell_all (map spend_broadcast (told spend))
    outcome ← ask result
    on_claim rest outcome

  unfoldable pub told_by : Option (Result String SpendOutcome × Option Spend) → List Txid
  told_by none = []
  told_by (some (result, spend)) = told spend

  -- `build` gives the claim at a fee rate; each pass knows the spends of those before it.
  unfoldable pub claim_htlc :
      (ℕ → Result String Txid) → ℕ → List Txid → List ClaimTurn → Run Call SwapState
  unfolding claim_pass
  claim_htlc build vsize ours [] = unfinished
  claim_htlc build vsize ours (turn ∷ turns) =
      let bumped = confirm_or_bump build (claim_watch vsize ours) turn.opening turn.turns in
      claim_pass bumped (claim_htlc build vsize (ours ++ told_by bumped) turns)

  -- With the payment's preimage, if the polls have brought one.
  unfoldable pub on_preimage :
      Resume → Answers → OutPoint → ℕ → Stage (Option Bytes) → Run Call SwapState
  unfolding claim_htlc
  on_preimage resume answers outpoint value (stop state) = done state
  on_preimage resume answers outpoint value (proceed none) = done invoice_pending
  on_preimage resume answers outpoint value (proceed (some preimage)) =
      if eqb (sha256 preimage) swap.payment_hash
      then claim_htlc (answers.build outpoint value preimage) answers.claim_vsize resume.our_spends
          answers.claim_turns
      else done (failed "paid invoice preimage does not match HTLC hashlock")

  unfoldable pub on_value : Resume → Bool → Answers → OutPoint → Stage ℕ → Run Call SwapState
  unfolding on_preimage
  on_value resume already_attempted answers outpoint (stop state) = done state
  on_value resume already_attempted answers outpoint (proceed value) = do
    let marked = is_some resume.funding && already_attempted
    payment ← settle_payment swap marked payment_poll_iterations answers.payment_turns
    on_preimage resume answers outpoint value payment

  unfoldable pub on_outpoint : Resume → ℕ → Bool → Answers → Stage OutPoint → Run Call SwapState
  unfolding on_value
  on_outpoint resume required already_attempted answers (stop state) = done state
  on_outpoint resume required already_attempted answers (proceed outpoint) = do
    value ← guard_funding sha256 swap required already_attempted answers
    on_value resume already_attempted answers outpoint value

  unfoldable pub drive_submarine_swap : Resume → ℕ → Bool → Answers → Run Call SwapState
  unfolding on_outpoint
  drive_submarine_swap resume required already_attempted answers = do
    outpoint ← locate_funding sha256 swap required resume.funding answers
    on_outpoint resume required already_attempted answers outpoint
