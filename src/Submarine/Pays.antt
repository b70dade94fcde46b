-- ===== src/Submarine/Pays.antt =====
-- The payment and the claim keep to the protocol, and so does the whole driver
-- (swap-provider/src/submarine.rs).
use pubky_swap.Prelude.{
  ℕ, zero, suc, ◌≡◌, refl, inl, inr, Bool, true, false, ◌&&◌, String, Option, none, some, List, [],
  ◌∷◌, map, Result, ok, err, eqb, eqb_refl, if◌then◌else◌, is_some, All, Bool-cases, Option-cases,
  Result-cases,
}
use pubky_swap.Chain.{Txid, OutPoint}
use pubky_swap.Onchain.Preimages.{Bytes, PaymentHash}
use pubky_swap.FeeBump.{SpendOutcome, confirmed, conflicting_spend, deadline_exceeded, Spend}
use pubky_swap.Swap.{SwapState, claimed, failed, invoice_pending}
use pubky_swap.Timelock.{check_submarine_before_pay, submarine_cltv_budget}
use pubky_swap.Driver.{Run}
use pubky_swap.Driver.Traces.{
  Follows, Follows-done, Follows-unfinished, Follows-bind, Follows-ask, Follows-tell,
  Follows-tell_all,
}
use pubky_swap.Reverse.{Resume}
use pubky_swap.Submarine.{
  SubmarineSwap, PaymentStatus, succeeded, in_flight, failed_with, unknown, not_found,
  LightningError, payment_failed, not_implemented, backend, invoice_not_found, Call, tip_height,
  payment_status, invoice_pay_started, pay_invoice, payment_refused, invoice_paid, spend_broadcast,
  claim_confirmed, Stage, proceed, stop, PaymentTurn, ClaimTurn, Answers,
}
use pubky_swap.Submarine.Payment.{on_paid, pay, attempt, on_no_record, on_payment, settle_payment}
use pubky_swap.Submarine.Protocol.{
  Phase, deep, denied, ready, intended, sent, owed, rejected, bought, complete, pay_limit,
  after_status, advance, reports,
}
use pubky_swap.Submarine.Refines.{
  Located, Guarded, first_phase, Follows-locate_funding, Follows-guard_funding,
}
use pubky_swap.Submarine.Claim.{
  told, on_claim, claim_pass, claim_htlc, on_preimage, on_value, on_outpoint, drive_submarine_swap,
}

-- The payment ends with the preimage, or with the polls used up, or with a state that fits.
abbrev pub Settled : Bool → Stage (Option Bytes) → Phase → Type 0
Settled attempted (proceed (some preimage)) p = p ≡ bought preimage
Settled attempted (proceed none) p = reports attempted invoice_pending p ≡ true
Settled attempted (stop state) p = reports attempted state p ≡ true

abbrev pub waiting : Bool → Phase
waiting attempted = if attempted then owed else deep

-- What a run reports fits the phase that it reaches.
abbrev pub Reports : Bool → SwapState → Phase → Type 0
Reports attempted state p = reports attempted state p ≡ true

-- An attempt stands on the record only beside the funding that it was made for.
abbrev pub IsRecorded : Option OutPoint → Bool → Type 0
IsRecorded funding attempted = (is_some funding && attempted) ≡ attempted

module _ (sha256 : Bytes → PaymentHash) (swap : SubmarineSwap) (required : ℕ) where
  Follows-on_paid :
      (attempted : Bool) (answer : Result LightningError Bytes)
      → Follows
          (advance sha256 swap required attempted)
          sent
          (on_paid swap answer)
          (Settled attempted)
  unfolding on_paid advance reports
  Follows-on_paid attempted (ok preimage) =
      Follows-tell (invoice_paid preimage) (bought preimage) refl
        (Follows-done (proceed (some preimage)) refl)
  Follows-on_paid attempted (err (payment_failed e)) =
      Follows-tell payment_refused rejected refl (Follows-done (stop _) refl)
  Follows-on_paid attempted (err (not_implemented e)) =
      Follows-tell payment_refused rejected refl (Follows-done (stop _) refl)
  Follows-on_paid attempted (err (backend e)) = Follows-done (stop _) refl
  Follows-on_paid attempted (err invoice_not_found) = Follows-done (stop _) refl

  Follows-pay :
      (attempted : Bool) (turn : PaymentTurn) (limit : ℕ)
      → Follows
          (advance sha256 swap required attempted)
          (ready (some limit))
          (pay swap turn limit)
          (Settled attempted)
  unfolding pay advance
  Follows-pay attempted turn limit = Follows-ask turn.invoice_pay_started λ written answered.
      Follows-tell invoice_pay_started (intended limit) refl (
        Follows-tell (pay_invoice swap.max_routing_fee_msat limit) sent
          (rw (eqb_refl swap.max_routing_fee_msat, eqb_refl limit) refl)
          (Follows-on_paid attempted turn.pay_invoice))

  Follows-attempt :
      (attempted : Bool) (turn : PaymentTurn)
      → Follows
          (advance sha256 swap required attempted)
          denied
          (attempt swap turn)
          (Settled attempted)
  unfolding attempt advance reports pay_limit
  Follows-attempt attempted turn = Follows-ask turn.tip λ tip now.
      Follows-tell (tip_height tip) (ready (pay_limit swap tip)) refl
        (elim (Result-cases (check_submarine_before_pay tip swap.timeout_height swap.timelock)) [
          | inr (violation, bad) ↦ rw bad (Follows-done (stop _) refl)
          | inl (passed, good) ↦
              elim (Option-cases (submarine_cltv_budget tip swap.timeout_height swap.timelock)) [
                | inl spent_up ↦ rw (good, spent_up) (Follows-done (stop _) refl)
                | inr (limit, room) ↦ rw (good, room) (Follows-pay attempted turn limit)
              ]
        ])

  Follows-on_payment :
      (attempted : Bool) (turn : PaymentTurn) (rest : Run Call (Stage (Option Bytes)))
      (status : PaymentStatus)
      → Follows
          (advance sha256 swap required attempted)
          (waiting attempted)
          rest
          (Settled attempted)
      → Follows
          (advance sha256 swap required attempted)
          (after_status (waiting attempted) (if attempted then owed else denied) status)
          (on_payment swap attempted turn rest status)
          (Settled attempted)
  unfolding on_payment on_no_record advance reports after_status
  Follows-on_payment attempted turn rest (succeeded preimage) h =
      Follows-tell (invoice_paid preimage) (bought preimage) refl
        (Follows-done (proceed (some preimage)) refl)
  Follows-on_payment attempted turn rest in_flight h = h
  Follows-on_payment attempted turn rest (failed_with reason) h = Follows-done (stop _) refl
  Follows-on_payment true turn rest unknown h = h
  Follows-on_payment true turn rest not_found h = h
  Follows-on_payment false turn rest unknown h = Follows-attempt false turn
  Follows-on_payment false turn rest not_found h = Follows-attempt false turn

  waiting-next :
      (attempted : Bool) (status : PaymentStatus)
      → advance sha256 swap required attempted (waiting attempted) (payment_status status)
        ≡ some (after_status (waiting attempted) (if attempted then owed else denied) status)
  unfolding advance
  waiting-next true status = refl
  waiting-next false status = refl

  waiting-reports :
      (attempted : Bool) → reports attempted invoice_pending (waiting attempted) ≡ true
  unfolding reports
  waiting-reports true = refl
  waiting-reports false = refl

  pub Follows-settle_payment :
      (attempted : Bool) (polls : ℕ) (turns : List PaymentTurn)
      → Follows
          (advance sha256 swap required attempted)
          (waiting attempted)
          (settle_payment swap attempted polls turns)
          (Settled attempted)
  unfolding settle_payment
  Follows-settle_payment attempted zero turns =
      Follows-done (proceed none) (waiting-reports attempted)
  Follows-settle_payment attempted (suc polls) [] = Follows-unfinished
  Follows-settle_payment attempted (suc polls) (turn ∷ turns) =
      Follows-ask turn.status λ status answered.
        Follows-tell (payment_status status) _ (waiting-next attempted status) (
          Follows-on_payment attempted turn _ status (Follows-settle_payment attempted polls turns))

  Follows-on_claim :
      (attempted : Bool) (preimage : Bytes) (rest : Run Call SwapState) (outcome : SpendOutcome)
      → eqb (sha256 preimage) swap.payment_hash ≡ true
      → Follows (advance sha256 swap required attempted) (bought preimage) rest (Reports attempted)
      → Follows
          (advance sha256 swap required attempted)
          (bought preimage)
          (on_claim sha256 swap rest outcome)
          (Reports attempted)
  unfolding on_claim advance reports
  Follows-on_claim attempted preimage rest (confirmed txid) fits h =
      Follows-tell (claim_confirmed txid) complete (rw fits refl) (Follows-done claimed refl)
  Follows-on_claim attempted preimage rest (conflicting_spend txid) fits h =
      Follows-done (failed _) refl
  Follows-on_claim attempted preimage rest (deadline_exceeded txid tip) fits h = h

  broadcasts_stay :
      (attempted : Bool) (preimage : Bytes) (txids : List Txid)
      → eqb (sha256 preimage) swap.payment_hash ≡ true
      → All
          (λ c. advance sha256 swap required attempted (bought preimage) c ≡ some (bought preimage))
          (map spend_broadcast txids)
  unfolding advance
  broadcasts_stay attempted preimage [] fits = tt
  broadcasts_stay attempted preimage (txid ∷ txids) fits =
      (rw fits refl, broadcasts_stay attempted preimage txids fits)

  Follows-claim_pass :
      (attempted : Bool) (preimage : Bytes)
      (bumped : Option (Result String SpendOutcome × Option Spend)) (rest : Run Call SwapState)
      → eqb (sha256 preimage) swap.payment_hash ≡ true
      → Follows (advance sha256 swap required attempted) (bought preimage) rest (Reports attempted)
      → Follows
          (advance sha256 swap required attempted)
          (bought preimage)
          (claim_pass sha256 swap bumped rest)
          (Reports attempted)
  unfolding claim_pass
  Follows-claim_pass attempted preimage none rest fits h = Follows-unfinished
  Follows-claim_pass attempted preimage (some (result, spend)) rest fits h =
      Follows-tell_all (map spend_broadcast (told spend))
        (broadcasts_stay attempted preimage (told spend) fits)
        (Follows-ask result
          λ outcome ended. Follows-on_claim attempted preimage rest outcome fits h)

  Follows-claim_htlc :
      (attempted : Bool) (preimage : Bytes) (build : ℕ → Result String Txid) (vsize : ℕ)
      (turns : List ClaimTurn) (ours : List Txid)
      → eqb (sha256 preimage) swap.payment_hash ≡ true
      → Follows
          (advance sha256 swap required attempted)
          (bought preimage)
          (claim_htlc sha256 swap build vsize ours turns)
          (Reports attempted)
  unfolding claim_htlc
  Follows-claim_htlc attempted preimage build vsize [] ours fits = Follows-unfinished
  Follows-claim_htlc attempted preimage build vsize (turn ∷ turns) ours fits =
      Follows-claim_pass attempted preimage _ _ fits
        (Follows-claim_htlc attempted preimage build vsize turns _ fits)

  bought_fails :
      (attempted : Bool) (preimage : Bytes) (reason : String)
      → reports attempted (failed reason) (bought preimage) ≡ true
  unfolding reports
  bought_fails attempted preimage reason = refl

  Follows-on_preimage :
      (resume : Resume) (attempted : Bool) (answers : Answers) (outpoint : OutPoint) (value : ℕ)
      (payment : Stage (Option Bytes)) (p : Phase)
      → Settled attempted payment p
      → Follows
          (advance sha256 swap required attempted)
          p
          (on_preimage sha256 swap resume answers outpoint value payment)
          (Reports attempted)
  unfolding on_preimage
  Follows-on_preimage resume attempted answers outpoint value (stop state) p fits =
      Follows-done state fits
  Follows-on_preimage resume attempted answers outpoint value (proceed none) p fits =
      Follows-done invoice_pending fits
  Follows-on_preimage resume attempted answers outpoint value (proceed (some preimage)) p at =
      rw at (elim (Bool-cases (eqb (sha256 preimage) swap.payment_hash)) [
        | inl fits ↦ rw fits (Follows-claim_htlc attempted preimage _ _ answers.claim_turns _ fits)
        | inr other ↦ rw other (Follows-done (failed _) (bought_fails attempted preimage _))
      ])

  Follows-on_value :
      (resume : Resume) (attempted : Bool) (answers : Answers) (outpoint : OutPoint)
      (value : Stage ℕ) (p : Phase)
      → IsRecorded resume.funding attempted
      → Guarded sha256 swap required attempted value p
      → Follows
          (advance sha256 swap required attempted)
          p
          (on_value sha256 swap resume attempted answers outpoint value)
          (Reports attempted)
  unfolding on_value
  Follows-on_value resume attempted answers outpoint (stop state) p recorded fits =
      Follows-done state fits
  Follows-on_value resume attempted answers outpoint (proceed value) p recorded at =
      rw (at, recorded)
        (Follows-bind (Follows-settle_payment attempted _ answers.payment_turns)
          λ payment q settled.
            Follows-on_preimage resume attempted answers outpoint value payment q settled)

  Follows-on_outpoint :
      (resume : Resume) (attempted : Bool) (answers : Answers) (located : Stage OutPoint)
      (p : Phase)
      → IsRecorded resume.funding attempted
      → Located sha256 swap required attempted located p
      → Follows
          (advance sha256 swap required attempted)
          p
          (on_outpoint sha256 swap resume required attempted answers located)
          (Reports attempted)
  unfolding on_outpoint
  Follows-on_outpoint resume attempted answers (stop state) p recorded fits =
      Follows-done state fits
  Follows-on_outpoint resume attempted answers (proceed outpoint) p recorded at = rw at (
      Follows-bind (Follows-guard_funding sha256 swap required attempted answers) λ value q guarded.
        Follows-on_value resume attempted answers outpoint value q recorded guarded)

  pub Follows-drive :
      (resume : Resume) (attempted : Bool) (answers : Answers)
      → IsRecorded resume.funding attempted
      → Follows
          (advance sha256 swap required attempted)
          (first_phase resume.funding)
          (drive_submarine_swap sha256 swap resume required attempted answers)
          (Reports attempted)
  unfolding drive_submarine_swap
  Follows-drive resume attempted answers recorded =
      Follows-bind (Follows-locate_funding sha256 swap required attempted resume.funding answers)
        λ located p at. Follows-on_outpoint resume attempted answers located p recorded at
