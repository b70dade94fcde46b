-- ===== src/Reverse/Refines.antt =====
-- The driver of swap-provider/src/reverse.rs keeps to the protocol, whatever it is answered.
use pubky_swap.Prelude.{
  ℕ, ◌≡◌, refl, inl, inr, Bool, true, false, ◌||◌, Option, none, some, List, [], ◌∷◌, arith,
  is_some, leb, eqb_refl, if◌then◌else◌, Bool-cases, Option-cases, Result-cases,
}
use pubky_swap.Chain.{OutPoint}
use pubky_swap.Onchain.Preimages.{Bytes, PaymentHash}
use pubky_swap.Swap.{SwapState, claimed, expired, failed}
use pubky_swap.Timelock.{check_reverse_before_fund}
use pubky_swap.Driver.{Run}
use pubky_swap.Driver.Traces.{Follows, Follows-done, Follows-unfinished, Follows-ask, Follows-tell}
use pubky_swap.Reverse.{
  earliest_expiry, Resume, ReverseSwap, InvoiceState, «open», accepted, settled, cancelled, Call,
  invoice_state, tip_height, earliest_htlc_expiry, funding_intent, fund_htlc, funded, relied_on,
  cancel_hold_invoice, FundingOutcome, funded_at, refused, InvoiceTurn, RecordedTurn, Establishing,
}
use pubky_swap.Reverse.Establish.{
  on_state, await_invoice, refuse, adopt, await_recorded_funding, fund, commit, establish_fresh,
  rely_on, establish_recorded, establish_funding, is_at_depth, establish_from,
}
use pubky_swap.Reverse.Protocol.{
  Phase, unpaid, held, expiring, intended, unsure, locked, complete, returned, advance, reports,
}

-- The wait for the invoice ends with the payment held, or with a state that fits.
abbrev pub Waited : Option SwapState → Phase → Type 0
Waited none p = p ≡ held
Waited (some state) p = reports state p ≡ true

-- Where a driver starts to establish the funding, by the outpoint and the marker on the record.
abbrev pub entry : Option OutPoint → Option ℕ → Phase
entry funding intent = if is_some funding || is_some intent then unsure false else held

module _ (sha256 : Bytes → PaymentHash) (swap : ReverseSwap) where
  after_state : InvoiceState → Phase
  after_state accepted = held
  after_state settled = complete
  after_state cancelled = returned
  after_state «open» = unpaid

  Follows-on_state :
      (turn : InvoiceTurn) (rest : Run Call (Option SwapState)) (state : InvoiceState)
      → Follows (advance sha256 swap) unpaid rest Waited
      → Follows (advance sha256 swap) (after_state state) (on_state swap turn rest state) Waited
  unfolding on_state advance reports after_state
  Follows-on_state turn rest accepted h = Follows-done none refl
  Follows-on_state turn rest settled h = Follows-done (some claimed) refl
  Follows-on_state turn rest cancelled h =
      Follows-done (some (failed "hold invoice cancelled")) refl
  Follows-on_state turn rest «open» h = Follows-ask turn.tip λ tip seen.
      Follows-tell (tip_height tip) unpaid refl (elim (Bool-cases (leb swap.timeout_height tip)) [
        | inl late ↦
            rw late
              (Follows-tell cancel_hold_invoice returned refl (Follows-done (some expired) refl))
        | inr early ↦ rw early h
      ])

  unpaid_next :
      (state : InvoiceState)
      → advance sha256 swap unpaid (invoice_state state) ≡ some (after_state state)
  unfolding advance after_state
  unpaid_next state = ground arith

  pub Follows-await_invoice :
      (turns : List InvoiceTurn)
      → Follows (advance sha256 swap) unpaid (await_invoice swap turns) Waited
  unfolding await_invoice
  Follows-await_invoice [] = Follows-unfinished
  Follows-await_invoice (turn ∷ turns) = Follows-ask turn.state λ state answered.
      Follows-tell (invoice_state state) (after_state state) (unpaid_next state)
        (Follows-on_state turn (await_invoice swap turns) state (Follows-await_invoice turns))

  -- How the funding ends: an outpoint with the coins locked in it, or a refusal after the payment
  -- went back.
  abbrev pub Established : FundingOutcome → Phase → Type 0
  Established (funded_at outpoint) p = p ≡ locked outpoint false
  Established (refused state) p = (p ≡ returned) × (reports state p ≡ true)

  Follows-adopt :
      (late : Bool) (outpoint : OutPoint)
      → Follows (advance sha256 swap) (unsure late) (adopt outpoint) Established
  unfolding adopt advance
  Follows-adopt late outpoint =
      Follows-tell (funded outpoint) (locked outpoint false) refl
        (Follows-done (funded_at outpoint) refl)

  Follows-await_recorded :
      (late : Bool) (turns : List RecordedTurn)
      → Follows
          (advance sha256 swap)
          (unsure late)
          (await_recorded_funding sha256 swap turns)
          Established
  unfolding await_recorded_funding refuse advance reports
  Follows-await_recorded late [] = Follows-unfinished
  Follows-await_recorded late (turn ∷ turns) = Follows-ask turn.find_funding λ visible seen.
      elim (Option-cases visible) [
        | inr (u, is) ↦ rw is (Follows-adopt late u.outpoint)
        | inl hidden ↦ rw hidden (
            Follows-ask turn.history λ history asked. Follows-ask _ λ recorded chosen.
              elim (Option-cases recorded) [
                | inr (outpoint, was) ↦ rw was (Follows-adopt late outpoint)
                | inl never ↦ rw never (
                    Follows-ask turn.tip λ tip now.
                      Follows-tell (tip_height tip) (unsure (leb swap.timeout_height tip)) refl
                        (elim (Bool-cases (leb swap.timeout_height tip)) [
                          | inl past ↦ rw past (
                              Follows-tell cancel_hold_invoice returned refl
                                (Follows-done (refused expired) (refl, refl)))
                          | inr early ↦ rw early (Follows-await_recorded false turns)
                        ]))
              ])
      ]

  Follows-refuse :
      (state : SwapState) (p : Phase)
      → advance sha256 swap p cancel_hold_invoice ≡ some returned
      → reports state returned ≡ true
      → Follows (advance sha256 swap) p (refuse state) Established
  unfolding refuse
  Follows-refuse state p allowed fits =
      Follows-tell cancel_hold_invoice returned allowed (Follows-done (refused state) (refl, fits))

  Follows-fund :
      (asked : Establishing) (turns : List RecordedTurn)
      → Follows (advance sha256 swap) intended (fund sha256 swap asked turns) Established
  unfolding fund advance
  Follows-fund asked turns =
      Follows-tell (fund_htlc swap.onchain_amount_sat) (unsure false)
        (rw (eqb_refl swap.onchain_amount_sat) refl)
        (elim (Result-cases asked.fund_htlc) [
          | inl (outpoint, sent) ↦ rw sent (Follows-adopt false outpoint)
          | inr (e, lost) ↦ rw lost (Follows-await_recorded false turns)
        ])

  Follows-commit :
      (asked : Establishing) (turns : List RecordedTurn)
      → Follows (advance sha256 swap) held (commit sha256 swap asked turns) Established
  unfolding commit advance reports
  Follows-commit asked turns = Follows-ask asked.invoice_status λ htlcs answered.
      elim (Option-cases (earliest_expiry htlcs)) [
        | inl unheld ↦ rw unheld (Follows-refuse _ held refl refl)
        | inr (h, is) ↦ rw is (
            Follows-tell (earliest_htlc_expiry h) (expiring h) refl (
              Follows-ask asked.tip λ tip now.
                elim (Result-cases
                  (check_reverse_before_fund tip swap.timeout_height h swap.timelock)) [
                    | inr (violation, bad) ↦ rw bad (Follows-refuse _ (expiring h) refl refl)
                    | inl (passed, good) ↦ rw good (elim (Result-cases asked.funding_intent) [
                      | inr (e, unwritten) ↦ rw unwritten (Follows-refuse _ (expiring h) refl refl)
                      | inl (w, written) ↦ rw written (
                          Follows-tell (funding_intent tip) intended (ground (arith, good))
                            (Follows-fund asked turns))
                    ])
                  ]))
      ]

  Follows-adopt_held :
      (outpoint : OutPoint) → Follows (advance sha256 swap) held (adopt outpoint) Established
  unfolding adopt advance
  Follows-adopt_held outpoint =
      Follows-tell (funded outpoint) (locked outpoint false) refl
        (Follows-done (funded_at outpoint) refl)

  Follows-rely_on :
      (outpoint : OutPoint)
      → Follows (advance sha256 swap) (unsure false) (rely_on outpoint) Established
  unfolding rely_on advance
  Follows-rely_on outpoint =
      Follows-tell (relied_on outpoint) (locked outpoint false) refl
        (Follows-done (funded_at outpoint) refl)

  Follows-establish_fresh :
      (intent : Option ℕ) (asked : Establishing) (turns : List RecordedTurn)
      → Follows
          (advance sha256 swap)
          (entry none intent)
          (establish_fresh sha256 swap intent asked turns)
          Established
  unfolding establish_fresh
  Follows-establish_fresh none asked turns = Follows-ask asked.find_funding λ visible seen.
      elim (Option-cases visible) [
        | inr (u, is) ↦ rw is (Follows-adopt_held u.outpoint)
        | inl hidden ↦ rw hidden (Follows-commit asked turns)
      ]
  Follows-establish_fresh (some height) asked turns = Follows-ask asked.find_funding λ visible seen.
      elim (Option-cases visible) [
        | inr (u, is) ↦ rw is (Follows-adopt false u.outpoint)
        | inl hidden ↦ rw hidden (Follows-await_recorded false turns)
      ]

  Follows-establish_recorded :
      (outpoint : OutPoint) (fork : Option ℕ) (required : ℕ) (asked : Establishing)
      (turns : List RecordedTurn)
      → Follows
          (advance sha256 swap)
          (unsure false)
          (establish_recorded sha256 swap outpoint fork required asked turns)
          Established
  unfolding establish_recorded
  Follows-establish_recorded outpoint none required asked turns = Follows-rely_on outpoint
  Follows-establish_recorded outpoint (some fork) required asked turns =
      Follows-ask asked.outputs λ outputs answered.
        elim (Bool-cases (is_at_depth outpoint required outputs)) [
          | inl deep ↦ rw deep (Follows-rely_on outpoint)
          | inr gone ↦ rw gone (Follows-await_recorded false turns)
        ]

  Follows-establish_from :
      (funding : Option OutPoint) (resume : Resume) (required : ℕ) (asked : Establishing)
      (turns : List RecordedTurn)
      → Follows
          (advance sha256 swap)
          (entry funding resume.funding_intent_at_height)
          (establish_from sha256 swap funding resume required asked turns)
          Established
  unfolding establish_from
  Follows-establish_from none resume required asked turns =
      Follows-establish_fresh resume.funding_intent_at_height asked turns
  Follows-establish_from (some outpoint) resume required asked turns =
      Follows-establish_recorded outpoint resume.reorg_seen_at_height required asked turns

  pub Follows-establish_funding :
      (resume : Resume) (required : ℕ) (asked : Establishing) (turns : List RecordedTurn)
      → Follows
          (advance sha256 swap)
          (entry resume.funding resume.funding_intent_at_height)
          (establish_funding sha256 swap resume required asked turns)
          Established
  unfolding establish_funding
  Follows-establish_funding resume required asked turns =
      Follows-establish_from resume.funding resume required asked turns
