-- ===== src/Client/Reverse/Refines.antt =====
-- The driver of swap-client/src/reverse.rs keeps to the protocol, whatever it is answered.
use pubky_swap.Prelude.{
  ℕ, ◌-◌, ◌≡◌, ◌⊎◌, refl, inl, inr, Bool, true, false, not, ◌&&◌, Option, none, some, List, [], ◌∷◌,
  map, arith, Result, ok, err, String, eqb, eqb_refl, leb, ltb, if◌then◌else◌, Bool-cases, All,
}
use pubky_swap.Chain.{
  Txid, FundingUtxo, exact, overpaid, underpaid, excessive_overpay, classify, select_funding,
  default_max_overpay_sat,
}
use pubky_swap.FeeBump.{SpendOutcome, confirmed, conflicting_spend, deadline_exceeded, Spend}
use pubky_swap.Timelock.{claim_start_is_safe}
use pubky_swap.Driver.{Run, ◌>>◌}
use pubky_swap.Driver.Traces.{
  Follows, Follows-done, Follows-unfinished, Follows-ask, Follows-fail, Follows-tell,
  Follows-tell_all, Follows-bind,
}
use pubky_swap.Reverse.{Resume}
use pubky_swap.Submarine.{PaymentStatus, succeeded, in_flight, failed_with, unknown, not_found}
use pubky_swap.Submarine.Claim.{told}
use pubky_swap.Client.Reverse.{
  ReverseClaim, Call, payment_status, payment_started, pay_invoice, find_outputs, tip_height,
  spend_broadcast, claim_confirmed, invoice_paid, FundingTurn, Answers, is_fresh, already_paying,
  start_payment, settle, on_outcome, push_claim, poll_again, if_deep, on_selection, await_funding,
  claim_funding, execute_reverse_swap,
}
use pubky_swap.Client.Reverse.Protocol.{
  Phase, asking, clear, marked, waiting, funded, open_to_claim, claimed, complete, may_start,
  is_worth_it, is_early, advance, Reports,
}

pub may_start_lem :
    (resume : Resume) (status : Result String PaymentStatus)
    → already_paying resume status ≡ not (may_start (is_fresh resume) status)
unfolding already_paying may_start
may_start_lem resume (ok (succeeded p)) = refl
may_start_lem resume (ok in_flight) = refl
may_start_lem resume (ok not_found) = refl
may_start_lem resume (ok (failed_with r)) = refl
may_start_lem resume (ok unknown) = refl
may_start_lem resume (err e) = refl

is_early_lem :
    (claim : ReverseClaim) (required tip : ℕ)
    → claim_start_is_safe tip claim.timeout_height ≡ is_early claim required tip
unfolding claim_start_is_safe is_early
is_early_lem claim required tip = ground arith

module _ (claim : ReverseClaim) (required : ℕ) (fresh : Bool) (max_fee : ℕ) where
  abbrev adv : Phase → Call → Option Phase
  adv = advance claim required fresh max_fee

  Follows-start :
      (answers : Answers) (paying : Bool)
      → Follows adv
          (if paying then waiting false else clear)
          (start_payment max_fee answers paying)
          (λ _ p. p ≡ waiting (not paying))
  unfolding start_payment advance
  Follows-start answers true = Follows-done tt refl
  Follows-start answers false = Follows-ask answers.payment_started λ recorded is.
      Follows-tell payment_started marked refl (
        Follows-tell (pay_invoice max_fee) (waiting true) (rw (eqb_refl max_fee) refl)
          (Follows-done tt refl))

  abbrev Funded : Bool → FundingUtxo → Phase → Type 0
  Funded own u p = p ≡ funded own

  Follows-poll_again :
      (own : Bool) (turn : FundingTurn) (rest : Run Call FundingUtxo)
      → Follows adv (waiting own) rest (Funded own)
      → Follows adv (waiting own) (poll_again claim own turn rest) (Funded own)
  unfolding poll_again advance
  Follows-poll_again own turn rest go = Follows-ask turn.tip λ tip now.
      Follows-tell (tip_height tip) (waiting own) refl
        (elim (Bool-cases (not (claim_start_is_safe tip claim.timeout_height))) [
          | inl late ↦ rw late (Follows-fail _)
          | inr early ↦ rw early (elim (Bool-cases (own && turn.is_finished)) [
            | inl over ↦ rw over (Follows-ask turn.pay_task λ joined was. Follows-fail _)
            | inr still ↦ rw still go
          ])
        ])

  -- What `select_funding` makes of the only output.
  classify_cases :
      (u : FundingUtxo)
      → ((classify u claim.onchain_amount_sat default_max_overpay_sat ≡ exact u)
          × (is_worth_it claim required (u ∷ []) ≡ leb required u.confirmations))
        ⊎ ((x : ℕ) × (classify u claim.onchain_amount_sat default_max_overpay_sat ≡ overpaid u x)
            × (is_worth_it claim required (u ∷ []) ≡ leb required u.confirmations))
        ⊎ ((x : ℕ) × (classify u claim.onchain_amount_sat default_max_overpay_sat ≡ underpaid x)
            × (is_worth_it claim required (u ∷ []) ≡ false))
        ⊎ ((x : ℕ) × (classify u claim.onchain_amount_sat default_max_overpay_sat
              ≡ excessive_overpay x)
            × (is_worth_it claim required (u ∷ []) ≡ false))
  unfolding classify is_worth_it
  classify_cases u = elim (Bool-cases (eqb u.value_sat claim.onchain_amount_sat)) [
    | inl same ↦ inl (ground arith, ground arith)
    | inr other ↦ elim (Bool-cases (ltb u.value_sat claim.onchain_amount_sat)) [
      | inl short ↦ inr (inr (inl (u.value_sat, ground arith, ground arith)))
      | inr over ↦
          elim (Bool-cases (leb (u.value_sat - claim.onchain_amount_sat) default_max_overpay_sat)) [
            | inl little ↦
                inr (inl (u.value_sat - claim.onchain_amount_sat, ground arith, ground arith))
            | inr much ↦ inr (inr (inr (u.value_sat, ground arith, ground arith)))
          ]
    ]
  ]

  abbrev found : Bool → List FundingUtxo → Phase
  found own outputs = if is_worth_it claim required outputs then funded own else waiting own

  Follows-if_deep :
      (own : Bool) (turn : FundingTurn) (rest : Run Call FundingUtxo) (u : FundingUtxo)
      → is_worth_it claim required (u ∷ []) ≡ leb required u.confirmations
      → Follows adv (waiting own) rest (Funded own)
      → Follows adv (found own (u ∷ [])) (if_deep claim required own turn rest u) (Funded own)
  unfolding if_deep
  Follows-if_deep own turn rest u same go =
      rw same (elim (Bool-cases (leb required u.confirmations)) [
        | inl deep ↦ rw deep (Follows-done u refl)
        | inr shallow ↦ rw shallow (Follows-poll_again own turn rest go)
      ])

  Follows-on_selection :
      (own : Bool) (turn : FundingTurn) (rest : Run Call FundingUtxo) (outputs : List FundingUtxo)
      → Follows adv (waiting own) rest (Funded own)
      → Follows adv
          (found own outputs)
          (on_selection claim required own turn rest
            (select_funding outputs claim.onchain_amount_sat default_max_overpay_sat))
          (Funded own)
  unfolding on_selection select_funding is_worth_it
  Follows-on_selection own turn rest [] go = Follows-poll_again own turn rest go
  Follows-on_selection own turn rest (u ∷ v ∷ more) go = Follows-fail _
  Follows-on_selection own turn rest (u ∷ []) go = elim (classify_cases u) [
    | inl (is, worth) ↦ rw (is, on_selection) (Follows-if_deep own turn rest u worth go)
    | inr (inl (x, is, worth)) ↦ rw (is, on_selection) (Follows-if_deep own turn rest u worth go)
    | inr (inr (inl (x, is, worth))) ↦ rw (is, on_selection) (Follows-fail _)
    | inr (inr (inr (x, is, worth))) ↦ rw (is, on_selection) (Follows-fail _)
  ]

  Follows-await_funding :
      (own : Bool) (turns : List FundingTurn)
      → Follows adv (waiting own) (await_funding claim required own turns) (Funded own)
  unfolding await_funding advance
  Follows-await_funding own [] = Follows-unfinished
  Follows-await_funding own (turn ∷ turns) = Follows-ask turn.outputs λ outputs seen.
      Follows-tell (find_outputs outputs) (found own outputs) refl
        (Follows-on_selection own turn _ outputs (Follows-await_funding own turns))

  abbrev Claimed : Bool → Txid → Phase → Type 0
  Claimed own txid p = p ≡ claimed own txid

  broadcasts_stay :
      (own : Bool) (txids : List Txid)
      → All (λ c. adv (open_to_claim own) c ≡ some (open_to_claim own)) (map spend_broadcast txids)
  unfolding advance
  broadcasts_stay own [] = tt
  broadcasts_stay own (txid ∷ rest) = (refl, broadcasts_stay own rest)

  Follows-on_outcome :
      (own : Bool) (outcome : SpendOutcome)
      → Follows adv (open_to_claim own) (on_outcome outcome) (Claimed own)
  unfolding on_outcome advance
  Follows-on_outcome own (confirmed txid) =
      Follows-tell (claim_confirmed txid) (claimed own txid) refl (Follows-done txid refl)
  Follows-on_outcome own (conflicting_spend txid) = Follows-fail _
  Follows-on_outcome own (deadline_exceeded txid tip) = Follows-fail _

  Follows-push_claim :
      (own : Bool) (bumped : Option (Result String SpendOutcome × Option Spend))
      → Follows adv (open_to_claim own) (push_claim bumped) (Claimed own)
  unfolding push_claim
  Follows-push_claim own none = Follows-unfinished
  Follows-push_claim own (some (result, spend)) =
      Follows-tell_all (map spend_broadcast (told spend)) (broadcasts_stay own (told spend))
        (Follows-ask result λ outcome ended. Follows-on_outcome own outcome)

  Follows-claim_funding :
      (resume : Resume) (answers : Answers) (own : Bool) (u : FundingUtxo)
      → Follows adv (funded own) (claim_funding claim resume answers u) (Claimed own)
  unfolding claim_funding advance
  Follows-claim_funding resume answers own u = Follows-ask answers.tip λ tip now.
      Follows-tell (tip_height tip)
        (if is_early claim required tip then open_to_claim own else waiting own) refl
        (elim (Bool-cases (claim_start_is_safe tip claim.timeout_height)) [
          | inr late ↦ rw late (Follows-fail _)
          | inl early ↦
              let is : is_early claim required tip ≡ true =
                rw (← is_early_lem claim required tip) early in
              rw (early, is) (Follows-push_claim own _)
        ])

  Follows-settle :
      (answers : Answers) (own : Bool) (txid : Txid)
      → Follows adv (claimed own txid) (settle answers own txid) Reports
  unfolding settle advance Reports
  Follows-settle answers false txid = Follows-done txid (inl refl)
  Follows-settle answers true txid = Follows-ask answers.pay_task λ joined is.
      Follows-ask joined λ fee paid.
        Follows-tell (invoice_paid fee) (complete txid) refl (Follows-done txid (inr refl))

pub Follows-execute :
    (claim : ReverseClaim) (resume : Resume) (max_fee required : ℕ) (answers : Answers)
    → Follows
        (advance claim required (is_fresh resume) max_fee)
        asking
        (execute_reverse_swap claim resume max_fee required answers)
        Reports
unfolding execute_reverse_swap advance ◌>>◌
Follows-execute claim resume max_fee required answers =
    let fresh = is_fresh resume in
    let paying = already_paying resume answers.payment_status in
    Follows-tell (payment_status answers.payment_status) (if paying then waiting false else clear)
      (elim (Bool-cases (may_start fresh answers.payment_status)) [
        | inl may ↦ rw (may_start_lem resume answers.payment_status, may) refl
        | inr not_now ↦ rw (may_start_lem resume answers.payment_status, not_now) refl
      ])
      (Follows-bind (Follows-start claim required fresh max_fee answers paying) λ _ p at. rw at (
        Follows-bind
          (Follows-await_funding claim required fresh max_fee (not paying) answers.funding_turns)
          λ u q reached. rw reached (
            Follows-bind
              (Follows-claim_funding claim required fresh max_fee resume answers (not paying) u)
              λ txid r over.
                rw over (Follows-settle claim required fresh max_fee answers (not paying) txid))))
