-- ===== src/Client/Submarine/Refines.antt =====
-- The driver of swap-client/src/submarine.rs keeps to the protocol, whatever it is answered.
use pubky_swap.Prelude.{
  ℕ, ◌≡◌, refl, inl, inr, Bool, true, false, ◌||◌, Option, none, some, List, [], ◌∷◌, map, arith,
  Result, String, eqb_refl, leb, if◌then◌else◌, Bool-cases, Option-cases, Result-cases, All,
  is_some,
}
use pubky_swap.Chain.{Txid, OutPoint}
use pubky_swap.Onchain.Preimages.{Bytes, PaymentHash}
use pubky_swap.FeeBump.{SpendOutcome, confirmed, conflicting_spend, deadline_exceeded, Spend}
use pubky_swap.Swap.{SwapState, claimed, refunded, expired}
use pubky_swap.Timelock.{claim_start_is_safe}
use pubky_swap.Driver.{Run}
use pubky_swap.Driver.Traces.{
  Follows, Follows-done, Follows-unfinished, Follows-ask, Follows-fail, Follows-tell,
  Follows-tell_all, Follows-bind,
}
use pubky_swap.Reverse.{Resume, RecordedTurn, InvoiceState, settled}
use pubky_swap.Submarine.Claim.{told}
use pubky_swap.Client.Submarine.{
  SubmarineFunding, Call, tip_height, funding_intent, fund_htlc, funded, relied_on, invoice_state,
  find_spend, spend_broadcast, refund_confirmed, conflicted, Establishing, SettleTurn, Answers,
  adopt, rely_on, await_recorded_funding, fund, commit, establish_fresh, establish_from,
  establish_funding, is_claim, is_claimed, close_refund, refund, at_timeout, on_state,
  await_settlement, with_funding, execute_submarine_swap,
}
use pubky_swap.Client.Submarine.Protocol.{
  Phase, unfunded, hopeless, timely, intended, unsure, locked, overdue, refunding, taken, paid,
  recovered, after_state, reports, is_early, advance, first_phase,
}

abbrev pub Reports : SwapState → Phase → Type 0
Reports state p = reports state p ≡ true

-- How the funding ends: an outpoint with the coins locked in it, or nothing at the timeout.
abbrev pub Established : Option OutPoint → Phase → Type 0
Established none p = p ≡ unsure true
Established (some outpoint) p = p ≡ locked outpoint

-- An earlier run may have funded.
abbrev pub funded_before : Option OutPoint → Option ℕ → Bool
funded_before recorded intent = is_some recorded || is_some intent

module _ (sha256 : Bytes → PaymentHash) (funding : SubmarineFunding) where
  abbrev adv : Phase → Call → Option Phase
  adv = advance sha256 funding

  is_early_lem :
      (tip : ℕ) → claim_start_is_safe tip funding.timeout_height ≡ is_early sha256 funding tip
  unfolding claim_start_is_safe is_early
  is_early_lem tip = ground arith

  Follows-adopt :
      (late : Bool) (outpoint : OutPoint) → Follows adv (unsure late) (adopt outpoint) Established
  unfolding adopt advance
  Follows-adopt late outpoint =
      Follows-tell (funded outpoint) (locked outpoint) refl (Follows-done (some outpoint) refl)

  Follows-await_recorded :
      (late : Bool) (turns : List RecordedTurn)
      → Follows adv (unsure late) (await_recorded_funding sha256 funding turns) Established
  unfolding await_recorded_funding advance
  Follows-await_recorded late [] = Follows-unfinished
  Follows-await_recorded late (turn ∷ turns) = Follows-ask turn.find_funding λ visible seen.
      elim (Option-cases visible) [
        | inr (u, is) ↦ rw is (Follows-adopt late u.outpoint)
        | inl hidden ↦ rw hidden (
            Follows-ask turn.history λ history asked. Follows-ask _ λ recorded chosen.
              elim (Option-cases recorded) [
                | inr (outpoint, was) ↦ rw was (Follows-adopt late outpoint)
                | inl never ↦ rw never (
                    Follows-ask turn.tip λ tip now.
                      Follows-tell (tip_height tip) (unsure (leb funding.timeout_height tip)) refl
                        (elim (Bool-cases (leb funding.timeout_height tip)) [
                          | inl past ↦ rw past (Follows-done none refl)
                          | inr early ↦ rw early (Follows-await_recorded false turns)
                        ]))
              ])
      ]

  Follows-fund :
      (asked : Establishing) (turns : List RecordedTurn)
      → Follows adv intended (fund sha256 funding asked turns) Established
  unfolding fund advance
  Follows-fund asked turns =
      Follows-tell (fund_htlc funding.onchain_amount_sat) (unsure false)
        (rw (eqb_refl funding.onchain_amount_sat) refl)
        (elim (Result-cases asked.fund_htlc) [
          | inl (outpoint, sent) ↦ rw sent (Follows-adopt false outpoint)
          | inr (e, lost) ↦ rw lost (Follows-await_recorded false turns)
        ])

  Follows-commit :
      (asked : Establishing) (turns : List RecordedTurn)
      → Follows adv unfunded (commit sha256 funding asked turns) Established
  unfolding commit advance
  Follows-commit asked turns = Follows-ask asked.tip λ tip now.
      Follows-tell (tip_height tip) (if is_early sha256 funding tip then timely tip else hopeless)
        refl
        (elim (Bool-cases (claim_start_is_safe tip funding.timeout_height)) [
          | inr late ↦ rw late (Follows-fail _)
          | inl early ↦
              let is : is_early sha256 funding tip ≡ true = rw (← is_early_lem tip) early in
              rw (early, is)
                (Follows-ask asked.funding_intent λ recorded marked.
                  Follows-tell (funding_intent tip) intended (rw (eqb_refl tip) refl)
                    (Follows-fund asked turns))
        ])

  Follows-adopt_fresh : (outpoint : OutPoint) → Follows adv unfunded (adopt outpoint) Established
  unfolding adopt advance
  Follows-adopt_fresh outpoint =
      Follows-tell (funded outpoint) (locked outpoint) refl (Follows-done (some outpoint) refl)

  Follows-establish :
      (recorded : Option OutPoint) (intent : Option ℕ) (asked : Establishing)
      (turns : List RecordedTurn)
      → Follows adv
          (first_phase (funded_before recorded intent))
          (establish_from sha256 funding recorded intent asked turns)
          Established
  unfolding establish_from establish_fresh rely_on advance
  Follows-establish (some outpoint) intent asked turns =
      Follows-tell (relied_on outpoint) (locked outpoint) refl (Follows-done (some outpoint) refl)
  Follows-establish none none asked turns = Follows-ask asked.find_funding λ visible seen.
      elim (Option-cases visible) [
        | inr (u, is) ↦ rw is (Follows-adopt_fresh u.outpoint)
        | inl hidden ↦ rw hidden (Follows-commit asked turns)
      ]
  Follows-establish none (some at) asked turns = Follows-ask asked.find_funding λ visible seen.
      elim (Option-cases visible) [
        | inr (u, is) ↦ rw is (Follows-adopt false u.outpoint)
        | inl hidden ↦ rw hidden (Follows-await_recorded false turns)
      ]

  broadcasts_stay :
      (outpoint : OutPoint) (txids : List Txid)
      → All
          (λ c. adv (refunding outpoint) c ≡ some (refunding outpoint))
          (map spend_broadcast txids)
  unfolding advance
  broadcasts_stay outpoint [] = tt
  broadcasts_stay outpoint (txid ∷ rest) = (refl, broadcasts_stay outpoint rest)

  Follows-close_refund :
      (answers : Answers) (outpoint : OutPoint) (rest : Run Call SwapState) (outcome : SpendOutcome)
      → Follows adv (refunding outpoint) rest Reports
      → Follows adv
          (refunding outpoint)
          (close_refund sha256 funding answers outpoint rest outcome)
          Reports
  unfolding close_refund advance reports
  Follows-close_refund answers outpoint rest (confirmed txid) go =
      Follows-tell (refund_confirmed txid) recovered refl (Follows-done refunded refl)
  Follows-close_refund answers outpoint rest (deadline_exceeded txid tip) go = go
  Follows-close_refund answers outpoint rest (conflicting_spend txid) go =
      let tx = answers.transaction txid in
      Follows-tell (conflicted tx)
        (if is_claim sha256 funding outpoint tx then paid else taken outpoint) refl
        (elim (Bool-cases (is_claim sha256 funding outpoint tx)) [
          | inl theirs ↦ rw theirs (Follows-done claimed refl)
          | inr ours ↦
              rw ours
                (Follows-tell (spend_broadcast txid) recovered refl (Follows-done refunded refl))
        ])

  Follows-refund :
      (answers : Answers) (outpoint : OutPoint)
      (bumped : Option (Result String SpendOutcome × Option Spend)) (rest : Run Call SwapState)
      → Follows adv (refunding outpoint) rest Reports
      → Follows adv
          (refunding outpoint)
          (refund sha256 funding answers outpoint bumped rest)
          Reports
  unfolding refund
  Follows-refund answers outpoint none rest go = Follows-unfinished
  Follows-refund answers outpoint (some (result, spend)) rest go =
      Follows-tell_all (map spend_broadcast (told spend)) (broadcasts_stay outpoint (told spend))
        (Follows-ask result λ outcome ended. Follows-close_refund answers outpoint rest outcome go)

  -- A turn of the wait may begin here.
  abbrev Waits : OutPoint → Phase → Type 0
  Waits outpoint p =
      (state : InvoiceState) → adv p (invoice_state state) ≡ some (after_state outpoint state)

  locked_Waits : (outpoint : OutPoint) → Waits outpoint (locked outpoint)
  unfolding advance
  locked_Waits outpoint state = refl

  refunding-Waits : (outpoint : OutPoint) → Waits outpoint (refunding outpoint)
  unfolding advance
  refunding-Waits outpoint state = refl

  Follows-at_timeout :
      (resume : Resume) (answers : Answers) (outpoint : OutPoint) (turn : SettleTurn)
      (rest : Run Call SwapState)
      → Follows adv (refunding outpoint) rest Reports
      → Follows adv
          (overdue outpoint)
          (at_timeout sha256 funding resume answers outpoint turn rest)
          Reports
  unfolding at_timeout advance reports
  Follows-at_timeout resume answers outpoint turn rest go = Follows-ask turn.spend λ spend seen.
      Follows-tell (find_spend spend)
        (if is_claimed sha256 funding outpoint spend then paid else refunding outpoint) refl
        (elim (Bool-cases (is_claimed sha256 funding outpoint spend)) [
          | inl theirs ↦ rw theirs (Follows-done claimed refl)
          | inr none_yet ↦ rw none_yet (Follows-refund answers outpoint _ rest go)
        ])

  Follows-at_tip :
      (resume : Resume) (answers : Answers) (outpoint : OutPoint) (turn : SettleTurn)
      (rest : Run Call SwapState)
      → ((p : Phase) → Waits outpoint p → Follows adv p rest Reports)
      → (state : InvoiceState)
      → Follows adv
          (after_state outpoint state)
          (on_state sha256 funding resume answers outpoint turn rest state)
          Reports
  unfolding on_state after_state advance reports
  Follows-at_tip resume answers outpoint turn rest go settled = Follows-done claimed refl
  Follows-at_tip resume answers outpoint turn rest go _ = Follows-ask turn.tip λ tip now.
      Follows-tell (tip_height tip)
        (if leb funding.timeout_height tip then overdue outpoint else locked outpoint) refl
        (elim (Bool-cases (leb funding.timeout_height tip)) [
          | inl past ↦ rw past (
              Follows-at_timeout resume answers outpoint turn rest
                (go (refunding outpoint) (refunding-Waits outpoint)))
          | inr early ↦ rw early (go (locked outpoint) (locked_Waits outpoint))
        ])

  Follows-await_settlement :
      (resume : Resume) (answers : Answers) (outpoint : OutPoint) (turns : List SettleTurn)
      (p : Phase)
      → Waits outpoint p
      → Follows adv p (await_settlement sha256 funding resume answers outpoint turns) Reports
  unfolding await_settlement
  Follows-await_settlement resume answers outpoint [] p waits = Follows-unfinished
  Follows-await_settlement resume answers outpoint (turn ∷ turns) p waits =
      Follows-ask turn.state λ state answered.
        Follows-tell (invoice_state state) (after_state outpoint state) (waits state) (
          Follows-at_tip resume answers outpoint turn _
            (Follows-await_settlement resume answers outpoint turns) state)

  Follows-with_funding :
      (resume : Resume) (answers : Answers) (ended : Option OutPoint) (p : Phase)
      → Established ended p
      → Follows adv p (with_funding sha256 funding resume answers ended) Reports
  unfolding with_funding reports
  Follows-with_funding resume answers none p at = rw at (Follows-done expired refl)
  Follows-with_funding resume answers (some outpoint) p at = rw at (
      Follows-await_settlement resume answers outpoint answers.settle_turns (locked outpoint)
        (locked_Waits outpoint))

  pub Follows-execute :
      (resume : Resume) (answers : Answers)
      → Follows adv
          (first_phase (funded_before resume.funding resume.funding_intent_at_height))
          (execute_submarine_swap sha256 funding resume answers)
          Reports
  unfolding execute_submarine_swap establish_funding
  Follows-execute resume answers =
      Follows-bind
        (Follows-establish resume.funding resume.funding_intent_at_height answers.establishing
          answers.recorded_turns)
        λ ended p reached. Follows-with_funding resume answers ended p reached
