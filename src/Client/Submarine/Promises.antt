-- ===== src/Client/Submarine/Promises.antt =====
-- What the client of a submarine swap is promised (swap-client/src/submarine.rs), by way of the
-- protocol that its driver keeps to.
use pubky_swap.Prelude.{
  ℕ, ◌+◌, ◌<◌, ◌≡◌, ◌⊎◌, refl, inl, inr, Bool, true, false, some, List, [], ◌∷◌, arith, Any,
  Bool-cases, Option-cases, eqb, eqb_iff,
}
use pubky_swap.Chain.{OutPoint}
use pubky_swap.Onchain.Preimages.{Bytes, PaymentHash, Transaction, extract_preimage}
use pubky_swap.Swap.{SwapState, claimed}
use pubky_swap.Timelock.{claim_abort_margin}
use pubky_swap.Driver.{Run, returns}
use pubky_swap.Driver.Traces.{follow, Post}
use pubky_swap.Driver.Counts.{count}
use pubky_swap.Reverse.{Resume, settled}
use pubky_swap.Client.Submarine.{
  SubmarineFunding, Call, tip_height, funding_intent, fund_htlc, funded, invoice_state, find_spend,
  conflicted, is_claim, is_claimed, Answers, execute_submarine_swap,
}
use pubky_swap.Client.Submarine.Protocol.{
  Phase, unfunded, hopeless, timely, intended, unsure, locked, overdue, refunding, paid,
  after_state, is_early, advance, funds, funds_once, first_phase, reports,
}
use pubky_swap.Client.Submarine.Refines.{Reports, funded_before, Follows-execute}

module _ (sha256 : Bytes → PaymentHash) (funding : SubmarineFunding) where
  -- At a tip that leaves more than the margin the intent was recorded, at that height, and the
  -- wallet asked for the swap's amount; and not again after that.
  abbrev pub IsTimely : List Call → Type 0
  IsTimely log =
      (tip : ℕ) × (rest : List Call) × (log
        ≡ tip_height tip ∷ funding_intent tip ∷ fund_htlc funding.onchain_amount_sat ∷ rest)
      × (tip + claim_abort_margin < funding.timeout_height)
      × (count funds rest ≡ 0)

  intended_first :
      (q : Phase) (log : List Call)
      → follow (advance sha256 funding) intended log ≡ some q
      → 0 < count funds log
      → (rest : List Call) × (log ≡ fund_htlc funding.onchain_amount_sat ∷ rest)
        × (count funds rest ≡ 0)
  unfolding follow advance count
  intended_first q [] e k = absurd (omega (arith, k))
  intended_first q (fund_htlc amount ∷ cs) e k =
      elim (Bool-cases (eqb amount funding.onchain_amount_sat)) [
        | inl same ↦
            let sent = rw (same, follow) at e in
            (
              cs,
              rw ((eqb_iff amount funding.onchain_amount_sat).0 same) refl,
              omega (arith, funds_once sha256 funding (unsure false) q cs sent),
            )
        | inr other ↦ cc (rw (other, follow) at e)
      ]
  intended_first q (c ∷ cs) e k = cc

  timely_first :
      (tip : ℕ) (q : Phase) (log : List Call)
      → follow (advance sha256 funding) (timely tip) log ≡ some q
      → 0 < count funds log
      → (rest : List Call) × (log
          ≡ funding_intent tip ∷ fund_htlc funding.onchain_amount_sat ∷ rest)
        × (count funds rest ≡ 0)
  unfolding follow advance count
  timely_first tip q [] e k = absurd (omega (arith, k))
  timely_first tip q (funding_intent at ∷ cs) e k = elim (Bool-cases (eqb at tip)) [
    | inl same ↦
        let marked = rw (same, follow) at e in
        let (rest, is, none_left) = intended_first q cs marked (omega (arith, k)) in
        (rest, rw ((eqb_iff at tip).0 same, is) refl, none_left)
    | inr other ↦ cc (rw (other, follow) at e)
  ]
  timely_first tip q (c ∷ cs) e k = cc

  unfunded_first :
      (q : Phase) (log : List Call)
      → follow (advance sha256 funding) unfunded log ≡ some q
      → 0 < count funds log
      → IsTimely log
  unfolding follow advance count is_early
  unfunded_first q [] e k = absurd (omega (arith, k))
  unfunded_first q (funded outpoint ∷ cs) e k =
      absurd (omega (arith, k, funds_once sha256 funding (locked outpoint) q cs e))
  unfunded_first q (tip_height tip ∷ cs) e k = elim (Bool-cases (is_early sha256 funding tip)) [
    | inl early ↦
        let (rest, is, none_left) =
          timely_first tip q cs (rw (early, follow) at e) (omega (arith, k)) in
        (tip, rest, rw is refl, ground (arith, early), none_left)
    | inr late ↦
        let over = rw (late, follow) at e in
        absurd (omega (arith, k, funds_once sha256 funding hopeless q cs over))
  ]
  unfunded_first q (c ∷ cs) e k = cc

  first_funding :
      (before : Bool) (q : Phase) (log : List Call)
      → follow (advance sha256 funding) (first_phase before) log ≡ some q
      → 0 < count funds log
      → (before ≡ false) × IsTimely log
  first_funding true q log e k =
      absurd (omega (arith, k, funds_once sha256 funding (unsure false) q log e))
  first_funding false q log e k = (refl, unfunded_first q log e k)

  -- The node calls the invoice settled, or a spend of the HTLC shows the preimage.
  pub data IsPaid : Call → Type 0 where
    by_invoice : {c : Call} → c ≡ invoice_state settled → IsPaid c
    by_claim :
        {c : Call} (outpoint : OutPoint) (tx : Transaction) (preimage : Bytes)
        → (c ≡ find_spend (some tx)) ⊎ (c ≡ conflicted tx)
        → extract_preimage sha256 tx outpoint funding.payment_hash ≡ some preimage
        → IsPaid c

  by_spend :
      {c : Call} (outpoint : OutPoint) (tx : Transaction)
      → (c ≡ find_spend (some tx)) ⊎ (c ≡ conflicted tx)
      → is_claim sha256 funding outpoint tx ≡ true
      → IsPaid c
  unfolding is_claim
  by_spend outpoint tx where_seen theirs =
      elim (Option-cases (extract_preimage sha256 tx outpoint funding.payment_hash)) [
        | inl none_shown ↦ ground (arith, none_shown, theirs)
        | inr (preimage, shown) ↦ by_claim outpoint tx preimage where_seen shown
      ]

  paid_step : (p : Phase) (c : Call) → advance sha256 funding p c ≡ some paid → IsPaid c
  unfolding advance after_state is_claimed
  paid_step (locked outpoint) (invoice_state settled) e = by_invoice refl
  paid_step (refunding outpoint) (invoice_state settled) e = by_invoice refl
  paid_step (overdue outpoint) (find_spend (some tx)) e =
      elim (Bool-cases (is_claim sha256 funding outpoint tx)) [
        | inl theirs ↦ by_spend outpoint tx (inl refl) theirs
        | inr ours ↦ cc (rw ours at e)
      ]
  paid_step (refunding outpoint) (conflicted tx) e =
      elim (Bool-cases (is_claim sha256 funding outpoint tx)) [
        | inl theirs ↦ by_spend outpoint tx (inr refl) theirs
        | inr ours ↦ cc (rw ours at e)
      ]
  paid_step p c e = absurd (ground (arith, e))

  paid_log :
      (p q : Phase) (log : List Call)
      → follow (advance sha256 funding) p log ≡ some q
      → q ≡ paid
      → (p ≡ paid) ⊎ Any IsPaid log
  unfolding follow
  paid_log p q [] e over = let same : p ≡ q = cc in inl (rw same over)
  paid_log p q (c ∷ cs) e over = elim (Option-cases (advance sha256 funding p c)) [
    | inl refused ↦ cc (rw (refused, follow) at e)
    | inr (r, allowed) ↦ elim (paid_log r q cs (rw (allowed, follow) at e) over) [
      | inl here ↦ inr (inl (paid_step p c (rw here at allowed)))
      | inr later ↦ inr (inr later)
    ]
  ]

  paid_first : (before : Bool) → first_phase before ≡ paid → ⊥
  paid_first true h = cc
  paid_first false h = cc

  reports-claimed : (q : Phase) → reports claimed q ≡ true → q ≡ paid
  unfolding reports
  reports-claimed q h = ground (arith, h)

abbrev pub may_have_funded : Resume → Bool
may_have_funded resume = funded_before resume.funding resume.funding_intent_at_height

module _ (sha256 : Bytes → PaymentHash) (funding : SubmarineFunding) (resume : Resume)
    (answers : Answers) where
  abbrev pub run_of : Run Call SwapState
  run_of = execute_submarine_swap sha256 funding resume answers

  -- Whatever the node, the chain and the wallet answer, a run of the client makes only the calls
  -- that the protocol allows, in an order that it allows; and where it returns, the state that it
  -- reports is one that the swap may report in the phase then reached.
  pub execute_submarine_swap_refines :
      (q : Phase) × (follow
          (advance sha256 funding)
          (first_phase (may_have_funded resume))
          run_of.log
        ≡ some q)
      × Post Reports run_of.ends q
  execute_submarine_swap_refines =
      let f = Follows-execute sha256 funding resume answers in (f.phase, f.path, f.post)

  -- A run that asks the wallet to fund has no outpoint and no funding intent on its record; it first
  -- reads a tip that leaves more than the abort margin before the timeout and records the intent at
  -- that tip; it asks for the swap's amount, and never again.
  pub execute_submarine_swap_funds_once :
      0 < count funds run_of.log
      → (may_have_funded resume ≡ false) × IsTimely sha256 funding run_of.log
  execute_submarine_swap_funds_once k =
      let f = Follows-execute sha256 funding resume answers in
      first_funding sha256 funding (may_have_funded resume) f.phase run_of.log f.path k

  -- A run reports the swap claimed only where the node has called the invoice settled, or where a
  -- spend that the chain has shown reveals a preimage of the payment hash.
  pub execute_submarine_swap_claimed :
      run_of.ends ≡ returns claimed → Any (IsPaid sha256 funding) run_of.log
  execute_submarine_swap_claimed h =
      let f = Follows-execute sha256 funding resume answers in
      let fits : reports claimed f.phase ≡ true = rw h at f.post in
      elim (paid_log sha256 funding (first_phase (may_have_funded resume)) f.phase run_of.log f.path
        (reports-claimed sha256 funding f.phase fits)) [
          | inl never ↦ absurd (paid_first sha256 funding (may_have_funded resume) never)
          | inr evidence ↦ evidence
        ]
