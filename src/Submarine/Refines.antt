-- ===== src/Submarine/Refines.antt =====
-- The driver of swap-provider/src/submarine.rs keeps to the protocol, whatever it is answered.
use pubky_swap.Prelude.{
  ℕ, ◌≡◌, refl, inl, inr, Bool, true, false, Option, none, some, List, [], ◌∷◌, leb, if◌then◌else◌,
  is_some, Bool-cases,
}
use pubky_swap.Chain.{
  OutPoint, FundingUtxo, FundingSelection, nothing, exact, overpaid, underpaid, excessive_overpay,
  multiple,
}
use pubky_swap.Chain.Recorded.{is_claimed_by}
use pubky_swap.Onchain.Preimages.{Bytes, PaymentHash}
use pubky_swap.Swap.{claimed, expired}
use pubky_swap.Driver.{Run}
use pubky_swap.Driver.Traces.{Follows, Follows-done, Follows-unfinished, Follows-ask, Follows-tell}
use pubky_swap.Submarine.{
  SubmarineSwap, PaymentStatus, succeeded, in_flight, failed_with, unknown, not_found, Call,
  tip_height, funded, outpoint_status, htlc_spent, payment_status, Stage, proceed, stop,
  FundingTurn, Answers,
}
use pubky_swap.Submarine.Funding.{
  poll_again, if_deep, on_selection, seek_funding, locate_funding, on_lost_payment, on_missing,
  on_unconfirmed, on_status, guard_funding,
}
use pubky_swap.Submarine.Protocol.{
  Phase, seeking, found, deep, owed, spent, after_lost, advance, reports,
}

-- Where a driver starts, by the outpoint on the record.
abbrev pub first_phase : Option OutPoint → Phase
first_phase funding = if is_some funding then found else seeking

module _ (sha256 : Bytes → PaymentHash) (swap : SubmarineSwap) (required : ℕ)
    (attempted : Bool) where
  abbrev pub Located : Stage OutPoint → Phase → Type 0
  Located (proceed outpoint) p = p ≡ found
  Located (stop state) p = reports attempted state p ≡ true

  Follows-poll_again :
      (turn : FundingTurn) (rest : Run Call (Stage OutPoint))
      → Follows (advance sha256 swap required attempted) seeking rest Located
      → Follows
          (advance sha256 swap required attempted)
          seeking
          (poll_again sha256 swap required turn rest)
          Located
  unfolding poll_again advance reports
  Follows-poll_again turn rest h = Follows-ask turn.tip λ tip now.
      Follows-tell (tip_height tip) seeking refl (elim (Bool-cases (leb swap.timeout_height tip)) [
        | inl past ↦ rw past (Follows-done (stop expired) refl)
        | inr early ↦ rw early h
      ])

  Follows-if_deep :
      (turn : FundingTurn) (rest : Run Call (Stage OutPoint)) (utxo : FundingUtxo)
      → Follows (advance sha256 swap required attempted) seeking rest Located
      → Follows
          (advance sha256 swap required attempted)
          seeking
          (if_deep sha256 swap required turn rest utxo)
          Located
  unfolding if_deep advance
  Follows-if_deep turn rest utxo h = elim (Bool-cases (leb required utxo.confirmations)) [
    | inl buried ↦
        rw buried (
          Follows-tell (funded utxo.outpoint) found refl
            (Follows-done (proceed utxo.outpoint) refl))
    | inr shallow ↦ rw shallow (Follows-poll_again turn rest h)
  ]

  Follows-on_selection :
      (turn : FundingTurn) (rest : Run Call (Stage OutPoint)) (selection : FundingSelection)
      → Follows (advance sha256 swap required attempted) seeking rest Located
      → Follows
          (advance sha256 swap required attempted)
          seeking
          (on_selection sha256 swap required turn rest selection)
          Located
  unfolding on_selection reports
  Follows-on_selection turn rest (exact utxo) h = Follows-if_deep turn rest utxo h
  Follows-on_selection turn rest (overpaid utxo excess) h = Follows-if_deep turn rest utxo h
  Follows-on_selection turn rest (underpaid got) h = Follows-done (stop _) refl
  Follows-on_selection turn rest (excessive_overpay got) h = Follows-done (stop _) refl
  Follows-on_selection turn rest (multiple utxos) h = Follows-done (stop _) refl
  Follows-on_selection turn rest nothing h = Follows-poll_again turn rest h

  Follows-seek_funding :
      (turns : List FundingTurn)
      → Follows
          (advance sha256 swap required attempted)
          seeking
          (seek_funding sha256 swap required turns)
          Located
  unfolding seek_funding
  Follows-seek_funding [] = Follows-unfinished
  Follows-seek_funding (turn ∷ turns) =
      Follows-ask turn.outputs
        λ outputs answered. Follows-on_selection turn _ _ (Follows-seek_funding turns)

  pub Follows-locate_funding :
      (funding : Option OutPoint) (answers : Answers)
      → Follows
          (advance sha256 swap required attempted)
          (first_phase funding)
          (locate_funding sha256 swap required funding answers)
          Located
  unfolding locate_funding advance reports
  Follows-locate_funding none answers = Follows-seek_funding answers.funding_turns
  Follows-locate_funding (some outpoint) answers =
      Follows-ask answers.resumed_spend λ spend answered.
        elim (Bool-cases (is_claimed_by sha256 spend outpoint swap.payment_hash)) [
          | inl taken ↦
              rw taken (Follows-tell htlc_spent spent refl (Follows-done (stop claimed) refl))
          | inr untaken ↦ rw untaken (Follows-done (proceed outpoint) refl)
        ]

  -- The guard lets a driver pass with the funding buried, or with a payment that may be out.
  abbrev pub Guarded : Stage ℕ → Phase → Type 0
  Guarded (proceed value) p = p ≡ (if attempted then owed else deep)
  Guarded (stop state) p = reports attempted state p ≡ true

module _ (sha256 : Bytes → PaymentHash) (swap : SubmarineSwap) (required : ℕ) where
  Follows-on_lost_payment :
      (status : PaymentStatus)
      → Follows
          (advance sha256 swap required true)
          (after_lost status)
          (on_lost_payment sha256 swap required status)
          (Guarded sha256 swap required true)
  unfolding on_lost_payment after_lost reports
  Follows-on_lost_payment (failed_with reason) = Follows-done (stop _) refl
  Follows-on_lost_payment (succeeded preimage) = Follows-done (stop _) refl
  Follows-on_lost_payment in_flight = Follows-done (stop _) refl
  Follows-on_lost_payment unknown = Follows-done (stop _) refl
  Follows-on_lost_payment not_found = Follows-done (stop _) refl

  Follows-on_missing :
      (attempted : Bool) (answers : Answers)
      → Follows
          (advance sha256 swap required attempted)
          found
          (on_missing sha256 swap required attempted answers)
          (Guarded sha256 swap required attempted)
  unfolding on_missing advance reports
  Follows-on_missing true answers = Follows-ask answers.lost_payment λ status answered.
      Follows-tell (payment_status status) (after_lost status) refl (Follows-on_lost_payment status)
  Follows-on_missing false answers = Follows-done (stop _) refl

  Follows-on_unconfirmed :
      (attempted : Bool) (answers : Answers)
      → Follows
          (advance sha256 swap required attempted)
          found
          (on_unconfirmed sha256 swap required attempted answers)
          (Guarded sha256 swap required attempted)
  unfolding on_unconfirmed advance reports
  Follows-on_unconfirmed attempted answers = Follows-ask answers.spend λ spend answered.
      elim (Bool-cases (is_some spend)) [
        | inl taken ↦
            rw taken (Follows-tell htlc_spent spent refl (Follows-done (stop claimed) refl))
        | inr untaken ↦ rw untaken (Follows-on_missing attempted answers)
      ]

  Follows-on_status :
      (attempted : Bool) (answers : Answers) (status : Option FundingUtxo)
      → Follows
          (advance sha256 swap required attempted)
          found
          (on_status sha256 swap required attempted answers status)
          (Guarded sha256 swap required attempted)
  unfolding on_status advance
  Follows-on_status attempted answers none =
      Follows-tell (outpoint_status none) found refl (Follows-on_unconfirmed attempted answers)
  Follows-on_status true answers (some utxo) =
      Follows-tell (outpoint_status (some utxo.confirmations)) owed refl
        (Follows-done (proceed utxo.value_sat) refl)
  Follows-on_status false answers (some utxo) =
      elim (Bool-cases (leb required utxo.confirmations)) [
        | inl buried ↦ rw buried (
            Follows-tell (outpoint_status (some utxo.confirmations)) deep (rw buried refl)
              (Follows-done (proceed utxo.value_sat) refl))
        | inr shallow ↦ rw shallow (
            Follows-tell (outpoint_status (some utxo.confirmations)) found (rw shallow refl)
              (Follows-on_unconfirmed false answers))
      ]

  pub Follows-guard_funding :
      (attempted : Bool) (answers : Answers)
      → Follows
          (advance sha256 swap required attempted)
          found
          (guard_funding sha256 swap required attempted answers)
          (Guarded sha256 swap required attempted)
  unfolding guard_funding
  Follows-guard_funding attempted answers =
      Follows-ask answers.status λ status answered. Follows-on_status attempted answers status
