-- ===== src/Client/Reverse/Final.antt =====
-- The claim that the client of a reverse swap reports is final (swap-client/src/reverse.rs).
use pubky_swap.Prelude.{
  ℕ, ◌≡◌, refl, ap, inl, inr, Bool, true, false, String, Option, none, some, Result, ok, Any,
  Bool-cases,
}
use pubky_swap.Chain.{Txid, FundingUtxo}
use pubky_swap.FeeBump.{
  SpendOutcome, confirmed, conflicting_spend, deadline_exceeded, Spend, claim_config,
  with_known_ours,
}
use pubky_swap.FeeBump.Final.{IsDeep, confirmed-IsDeep}
use pubky_swap.Reorg.{finality_depth}
use pubky_swap.Timelock.{claim_start_is_safe}
use pubky_swap.Driver.{returns, unfinished}
use pubky_swap.Driver.Results.{bind_returns, then_returns, ask_returns, done_returns}
use pubky_swap.Reverse.{Resume}
use pubky_swap.Client.Reverse.{
  ReverseClaim, Call, Answers, on_outcome, push_claim, claim_watch, claim_funding, settle,
  execute_reverse_swap,
}

on_outcome_returns :
    (outcome : SpendOutcome) (txid : Txid)
    → (on_outcome outcome).ends ≡ returns txid
    → outcome ≡ confirmed txid
unfolding on_outcome
on_outcome_returns (confirmed id) txid h =
    ap confirmed (done_returns Call id txid (then_returns _ _ txid h))
on_outcome_returns (conflicting_spend id) txid h = cc (ask_returns Call _ txid h)
on_outcome_returns (deadline_exceeded id tip) txid h = cc (ask_returns Call _ txid h)

push_claim_returns :
    (end : Option (Result String SpendOutcome × Option Spend)) (txid : Txid)
    → (push_claim end).ends ≡ returns txid
    → (spend : Option Spend) × (end ≡ some (ok (confirmed txid), spend))
unfolding push_claim unfinished
push_claim_returns none txid h = cc
push_claim_returns (some (result, spend)) txid h =
    let (outcome, rest, answered) = bind_returns _ _ txid (then_returns _ _ txid h) in
    (
      spend,
      rw (ask_returns Call result outcome answered, on_outcome_returns outcome txid rest) refl,
    )

settle_returns :
    (answers : Answers) (own : Bool) (txid id : Txid)
    → (settle answers own txid).ends ≡ returns id
    → txid ≡ id
unfolding settle
settle_returns answers false txid id h = done_returns Call txid id h
settle_returns answers true txid id h =
    let (joined, paid, first) = bind_returns _ _ id h in
    let (fee, told, second) = bind_returns _ _ id paid in
    done_returns Call txid id (then_returns _ _ id told)

module _ (claim : ReverseClaim) (resume : Resume) (max_fee required : ℕ) (answers : Answers) where
  claim_funding-IsDeep :
      (u : FundingUtxo) (txid : Txid)
      → (claim_funding claim resume answers u).ends ≡ returns txid
      → Any (IsDeep finality_depth txid) answers.claim_turns
  unfolding claim_funding claim_watch with_known_ours claim_config
  claim_funding-IsDeep u txid h =
      let (tip, rest, answered) = bind_returns _ _ txid h in
      let pushed = then_returns _ _ txid rest in
      elim (Bool-cases (claim_start_is_safe tip claim.timeout_height)) [
        | inr late ↦ cc (ask_returns Call _ txid (rw late at pushed))
        | inl early ↦
            let (spend, ended) = push_claim_returns _ txid (rw early at pushed) in
            confirmed-IsDeep (answers.build u.outpoint u.value_sat)
              (claim_watch claim resume answers.claim_vsize) txid answers.claim_opening
              answers.claim_turns spend ended
      ]

  pub execute-IsDeep :
      (txid : Txid)
      → (execute_reverse_swap claim resume max_fee required answers).ends ≡ returns txid
      → Any (IsDeep finality_depth txid) answers.claim_turns
  unfolding execute_reverse_swap
  execute-IsDeep txid h =
      let paid = then_returns _ _ txid (then_returns _ _ txid h) in
      let (u, from_u, funded) = bind_returns _ _ txid paid in
      let (id, from_id, claimed) = bind_returns _ _ txid from_u in
      rw (settle_returns answers _ id txid from_id) at (claim_funding-IsDeep u id claimed)
