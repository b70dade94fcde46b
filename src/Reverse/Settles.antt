-- ===== src/Reverse/Settles.antt =====
-- The watch over a funded swap keeps to the protocol, and so does the whole driver
-- (swap-provider/src/reverse.rs).
use pubky_swap.Prelude.{
  ℕ, max, ◌≡◌, refl, inl, inr, Bool, true, false, String, Option, none, some, List, [], ◌∷◌, Result,
  leb, if◌then◌else◌, All, Bool-cases, Option-cases, Result-cases,
}
use pubky_swap.Chain.{Txid, OutPoint}
use pubky_swap.Onchain.Preimages.{
  Bytes, PaymentHash, Transaction, is_preimage, extract_preimage, extract_preimage-is_preimage,
  outpoint_eq, outpoint_beq_iff,
}
use pubky_swap.FeeBump.{SpendOutcome, confirmed, conflicting_spend, deadline_exceeded, Spend}
use pubky_swap.Reorg.{finality_depth}
use pubky_swap.Swap.{SwapState, claimed, refunded}
use pubky_swap.Driver.{Run}
use pubky_swap.Driver.Traces.{
  Follows, Follows-done, Follows-unfinished, Follows-bind, Follows-ask, Follows-tell,
  Follows-tell_all, Follows-weaken,
}
use pubky_swap.Reverse.{
  Resume, ReverseSwap, Call, tip_height, claimable, claim_observed, settle_hold_invoice,
  claim_depth, spend_broadcast, refund_confirmed, cancel_hold_invoice, FundingOutcome, funded_at,
  refused, WatchTurn, InvoiceTurn, Answers,
}
use pubky_swap.Reverse.Establish.{may_have_funded}
use pubky_swap.Reverse.Watch.{
  hint, bury, settle_on, read_spend, close_refund, broadcasts, told, refund, watch, finish_turn,
  drive_on, drive_reverse_swap, wait, with_outcome, finish_turn, on_preimage,
}
use pubky_swap.Reverse.Protocol.{
  Phase, unpaid, held, unsure, locked, revealed, paid, complete, recovered, undone, advance,
  reports,
}
use pubky_swap.Reverse.Refines.{
  Waited, Established, Follows-await_invoice, Follows-establish_funding,
}

-- The phase of the watch between two calls, by whether the invoice is settled.
abbrev pub Watching : OutPoint → Bool → Phase → Type 0
Watching outpoint false p = (late : Bool) × (p ≡ locked outpoint late)
Watching outpoint true p = p ≡ paid

-- After the spend has been read: the claim is final, or the watch goes on.
abbrev pub Read : OutPoint → Bool × Bool → Phase → Type 0
Read outpoint (settled, true) p = p ≡ complete
Read outpoint (settled, false) p = Watching outpoint settled p

-- What a run reports fits the phase that it reaches.
abbrev pub Reports : SwapState → Phase → Type 0
Reports state p = reports state p ≡ true

-- The phase in which a driver starts, by whether an earlier run may have funded.
abbrev pub opening : Bool → Phase
opening funded_before = if funded_before then unsure false else unpaid

module _ (sha256 : Bytes → PaymentHash) (swap : ReverseSwap) where
  Follows-hint_locked :
      (outpoint : OutPoint) (late : Bool) (required : ℕ) (turn : WatchTurn) (due : Bool)
      (spend : Option Transaction)
      → Follows
          (advance sha256 swap)
          (locked outpoint late)
          (hint sha256 swap outpoint required turn due spend)
          (λ _. Watching outpoint false)
  unfolding hint advance
  Follows-hint_locked outpoint late required turn due (some tx) = Follows-done false (late, refl)
  Follows-hint_locked outpoint late required turn false none = Follows-done false (late, refl)
  Follows-hint_locked outpoint late required turn true none =
      elim (Result-cases turn.funding_confirmations) [
        | inr (e, lost) ↦ rw lost (Follows-done true (late, refl))
        | inl (none, unseen) ↦ rw unseen (Follows-done true (late, refl))
        | inl (some depth, seen) ↦ rw seen (elim (Bool-cases (leb (max required 1) depth)) [
          | inr shallow ↦ rw shallow (Follows-done true (late, refl))
          | inl deep ↦ rw deep (
              Follows-tell (claimable outpoint) (locked outpoint late)
                (rw ((outpoint_beq_iff outpoint outpoint).1 refl) refl)
                (Follows-done false (late, refl)))
        ])
      ]

  Follows-hint_paid :
      (outpoint : OutPoint) (required : ℕ) (turn : WatchTurn) (due : Bool)
      (spend : Option Transaction)
      → Follows
          (advance sha256 swap)
          paid
          (hint sha256 swap outpoint required turn due spend)
          (λ _. Watching outpoint true)
  unfolding hint advance
  Follows-hint_paid outpoint required turn due (some tx) = Follows-done false refl
  Follows-hint_paid outpoint required turn false none = Follows-done false refl
  Follows-hint_paid outpoint required turn true none =
      elim (Result-cases turn.funding_confirmations) [
        | inr (e, lost) ↦ rw lost (Follows-done true refl)
        | inl (none, unseen) ↦ rw unseen (Follows-done true refl)
        | inl (some depth, seen) ↦ rw seen (elim (Bool-cases (leb (max required 1) depth)) [
          | inr shallow ↦ rw shallow (Follows-done true refl)
          | inl deep ↦
              rw deep (Follows-tell (claimable outpoint) paid refl (Follows-done false refl))
        ])
      ]

  Follows-hint :
      (outpoint : OutPoint) (required : ℕ) (turn : WatchTurn) (due settled : Bool)
      (spend : Option Transaction) (p : Phase)
      → Watching outpoint settled p
      → Follows
          (advance sha256 swap)
          p
          (hint sha256 swap outpoint required turn due spend)
          (λ _. Watching outpoint settled)
  Follows-hint outpoint required turn due false spend p (late, at) =
      rw at (Follows-hint_locked outpoint late required turn due spend)
  Follows-hint outpoint required turn due true spend p at =
      rw at (Follows-hint_paid outpoint required turn due spend)

  Follows-bury :
      (turn : WatchTurn)
      → Follows
          (advance sha256 swap)
          paid
          (bury sha256 swap turn)
          (λ final p. p ≡ (if final then complete else paid))
  unfolding bury advance
  Follows-bury turn = Follows-ask turn.claim_confirmations λ depth answered.
      elim (Option-cases depth) [
        | inl unseen ↦ rw unseen (Follows-done false refl)
        | inr (d, is) ↦ rw is (
            Follows-tell (claim_depth d) (if leb finality_depth d then complete else paid) refl
              (Follows-done (leb finality_depth d) refl))
      ]

  buried :
      (outpoint : OutPoint) (final : Bool) (p : Phase)
      → p ≡ (if final then complete else paid)
      → Read outpoint (true, final) p
  buried outpoint true p at = at
  buried outpoint false p at = at

  Follows-settle_on :
      (outpoint : OutPoint) (turn : WatchTurn) (settled : Bool) (tx : Transaction)
      (preimage : Bytes) (p : Phase)
      → is_preimage sha256 swap.payment_hash preimage ≡ true
      → Watching outpoint settled p
      → Follows
          (advance sha256 swap)
          p
          (settle_on sha256 swap turn settled tx preimage)
          (Read outpoint)
  unfolding settle_on advance
  Follows-settle_on outpoint turn true tx preimage p fits at = rw at (
      Follows-bind (Follows-bury turn)
        λ final q reached. Follows-done (true, final) (buried outpoint final q reached))
  Follows-settle_on outpoint turn false tx preimage p fits (late, at) = rw at (
      Follows-tell (claim_observed tx.txid) (revealed outpoint late) refl
        (elim (Result-cases turn.settle) [
          | inr (e, lost) ↦ rw lost (
              Follows-tell (settle_hold_invoice preimage false) (locked outpoint late)
                (rw fits refl) (Follows-done (false, false) (late, refl)))
          | inl (done_so, taken) ↦ rw taken (
              Follows-tell (settle_hold_invoice preimage true) paid (rw fits refl) (
                Follows-bind (Follows-bury turn)
                  λ final q reached. Follows-done (true, final) (buried outpoint final q reached)))
        ]))

  Follows-on_preimage :
      (outpoint : OutPoint) (turn : WatchTurn) (settled : Bool) (tx : Transaction)
      (found : Option Bytes) (p : Phase)
      → extract_preimage sha256 tx outpoint swap.payment_hash ≡ found
      → Watching outpoint settled p
      → Follows
          (advance sha256 swap)
          p
          (on_preimage sha256 swap turn settled tx found)
          (Read outpoint)
  unfolding on_preimage
  Follows-on_preimage outpoint turn settled tx none p e at = Follows-done (settled, false) at
  Follows-on_preimage outpoint turn settled tx (some preimage) p e at =
      Follows-settle_on outpoint turn settled tx preimage p
        (extract_preimage-is_preimage sha256 tx outpoint swap.payment_hash preimage e) at

  Follows-read_spend :
      (outpoint : OutPoint) (turn : WatchTurn) (settled : Bool) (spend : Option Transaction)
      (p : Phase)
      → Watching outpoint settled p
      → Follows
          (advance sha256 swap)
          p
          (read_spend sha256 swap outpoint turn settled spend)
          (Read outpoint)
  unfolding read_spend
  Follows-read_spend outpoint turn settled none p at = Follows-done (settled, false) at
  Follows-read_spend outpoint turn settled (some tx) p at =
      Follows-on_preimage outpoint turn settled tx _ p refl at

  -- After a refund attempt: the swap has ended, or the coins are still locked.
  abbrev pub Closed : OutPoint → Option SwapState → Phase → Type 0
  Closed outpoint none p = Watching outpoint false p
  Closed outpoint (some state) p = reports state p ≡ true

  broadcasts_stay :
      (outpoint : OutPoint) (txids : List Txid) (later : List Call)
      → All (λ c. advance sha256 swap (locked outpoint true) c ≡ some (locked outpoint true)) later
      → All
          (λ c. advance sha256 swap (locked outpoint true) c ≡ some (locked outpoint true))
          (broadcasts sha256 swap txids later)
  unfolding broadcasts advance
  broadcasts_stay outpoint [] later h = h
  broadcasts_stay outpoint (txid ∷ older) later h =
      broadcasts_stay outpoint older (spend_broadcast txid ∷ later) (refl, h)

  told_stays :
      (outpoint : OutPoint) (spend : Option Spend)
      → All
          (λ c. advance sha256 swap (locked outpoint true) c ≡ some (locked outpoint true))
          (told sha256 swap spend)
  unfolding told
  told_stays outpoint none = tt
  told_stays outpoint (some spend) = broadcasts_stay outpoint spend.told [] tt

  Follows-close_refund :
      (outpoint : OutPoint) (outcome : SpendOutcome)
      → Follows
          (advance sha256 swap)
          (locked outpoint true)
          (close_refund sha256 swap outcome)
          (Closed outpoint)
  unfolding close_refund advance reports
  Follows-close_refund outpoint (confirmed txid) =
      Follows-tell (refund_confirmed txid) recovered refl
        (Follows-tell cancel_hold_invoice undone refl (Follows-done (some refunded) refl))
  Follows-close_refund outpoint (conflicting_spend txid) = Follows-done none (true, refl)
  Follows-close_refund outpoint (deadline_exceeded txid tip) = Follows-done none (true, refl)

  Follows-refund :
      (outpoint : OutPoint) (bumped : Option (Result String SpendOutcome × Option Spend))
      → Follows
          (advance sha256 swap)
          (locked outpoint true)
          (refund sha256 swap bumped)
          (Closed outpoint)
  unfolding refund
  Follows-refund outpoint none = Follows-unfinished
  Follows-refund outpoint (some (result, spend)) =
      Follows-tell_all (told sha256 swap spend) (told_stays outpoint spend)
        (Follows-ask result λ outcome ended. Follows-close_refund outpoint outcome)

  tick : Bool → OutPoint → ℕ → Phase
  tick true outpoint tip = paid
  tick false outpoint tip = locked outpoint (leb swap.timeout_height tip)

  tick-next :
      (outpoint : OutPoint) (settled : Bool) (tip : ℕ) (p : Phase)
      → Watching outpoint settled p
      → (advance sha256 swap p (tip_height tip) ≡ some (tick settled outpoint tip))
        × Watching outpoint settled (tick settled outpoint tip)
  unfolding advance tick
  tick-next outpoint true tip p at = (rw at refl, refl)
  tick-next outpoint false tip p (late, at) = (rw at refl, (leb swap.timeout_height tip, refl))

  Follows-finish_turn :
      (outpoint : OutPoint) (turn : WatchTurn)
      (bumped : Option (Result String SpendOutcome × Option Spend)) (settled final : Bool)
      (rest : Run Call SwapState) (p : Phase)
      → Read outpoint (settled, final) p
      → ((q : Phase) → Watching outpoint settled q → Follows (advance sha256 swap) q rest Reports)
      → Follows
          (advance sha256 swap)
          p
          (finish_turn sha256 swap turn bumped settled final rest)
          Reports
  unfolding finish_turn reports tick
  Follows-finish_turn outpoint turn bumped settled true rest p at go =
      Follows-done claimed (rw at refl)
  Follows-finish_turn outpoint turn bumped true false rest p at go = Follows-ask turn.tip λ tip now.
      let (next, still) = tick-next outpoint true tip p at in
      Follows-tell (tip_height tip) paid next (elim (Bool-cases (leb swap.timeout_height tip)) [
        | inl past ↦ rw past (go paid refl)
        | inr early ↦ rw early (go paid refl)
      ])
  Follows-finish_turn outpoint turn bumped false false rest p at go =
      Follows-ask turn.tip λ tip now.
        let (next, still) = tick-next outpoint false tip p at in
        Follows-tell (tip_height tip) (tick false outpoint tip) next
          (elim (Bool-cases (leb swap.timeout_height tip)) [
            | inr early ↦ rw early (go _ (false, refl))
            | inl past ↦ rw past (
                Follows-bind (Follows-refund outpoint bumped) λ ended q closed.
                  elim (Option-cases ended) [
                    | inl open_still ↦ rw open_still (go q (rw open_still at closed))
                    | inr (state, over) ↦ rw over (Follows-done state (rw over at closed))
                  ])
          ])

  Follows-watch :
      (resume : Resume) (required : ℕ) (answers : Answers) (outpoint : OutPoint)
      (turns : List WatchTurn) (due settled : Bool) (p : Phase)
      → Watching outpoint settled p
      → Follows
          (advance sha256 swap)
          p
          (watch sha256 swap resume required answers outpoint turns due settled)
          Reports
  unfolding watch
  Follows-watch resume required answers outpoint [] due settled p at = Follows-unfinished
  Follows-watch resume required answers outpoint (turn ∷ turns) due settled p at =
      Follows-ask turn.spend λ spend seen.
        Follows-bind (Follows-hint outpoint required turn due settled spend p at)
          λ still_due q at_q.
            Follows-bind (Follows-read_spend outpoint turn settled spend q at_q) λ state r at_r.
              Follows-finish_turn outpoint turn _ state.0 state.1 _ r at_r
                (Follows-watch resume required answers outpoint turns still_due state.0)

  Follows-with_outcome :
      (resume : Resume) (required : ℕ) (answers : Answers) (outcome : FundingOutcome) (p : Phase)
      → Established sha256 swap outcome p
      → Follows
          (advance sha256 swap)
          p
          (with_outcome sha256 swap resume required answers outcome)
          Reports
  unfolding with_outcome
  Follows-with_outcome resume required answers (refused state) p (at, fits) =
      Follows-done state fits
  Follows-with_outcome resume required answers (funded_at outpoint) p at =
      Follows-watch resume required answers outpoint answers.watch_turns answers.wants_claimable
        false p (false, at)

  -- After the wait, by whether an earlier run may have funded.
  abbrev Ready : Bool → Option SwapState → Phase → Type 0
  Ready funded_before none p = p ≡ (if funded_before then unsure false else held)
  Ready funded_before (some state) p = reports state p ≡ true

  Waited-Ready : (ended : Option SwapState) (p : Phase) → Waited ended p → Ready false ended p
  Waited-Ready none p at = at
  Waited-Ready (some state) p fits = fits

  Follows-drive_on :
      (resume : Resume) (required : ℕ) (answers : Answers) (ended : Option SwapState) (p : Phase)
      → Ready (may_have_funded resume) ended p
      → Follows (advance sha256 swap) p (drive_on sha256 swap resume required answers ended) Reports
  unfolding drive_on may_have_funded
  Follows-drive_on resume required answers (some state) p fits = Follows-done state fits
  Follows-drive_on resume required answers none p at = rw at (
      Follows-bind
        (Follows-establish_funding sha256 swap resume required answers.establishing
          answers.recorded_turns)
        λ outcome q reached. Follows-with_outcome resume required answers outcome q reached)

  Follows-wait :
      (funded_before : Bool) (turns : List InvoiceTurn)
      → Follows
          (advance sha256 swap)
          (opening funded_before)
          (wait sha256 swap funded_before turns)
          (Ready funded_before)
  unfolding wait
  Follows-wait true turns = Follows-done none refl
  Follows-wait false turns =
      Follows-weaken (Follows-await_invoice sha256 swap turns) λ ended p. Waited-Ready ended p

  pub Follows-drive :
      (resume : Resume) (required : ℕ) (answers : Answers)
      → Follows
          (advance sha256 swap)
          (opening (may_have_funded resume))
          (drive_reverse_swap sha256 swap resume required answers)
          Reports
  unfolding drive_reverse_swap
  Follows-drive resume required answers =
      Follows-bind (Follows-wait (may_have_funded resume) answers.invoice_turns)
        λ ended p ready. Follows-drive_on resume required answers ended p ready
