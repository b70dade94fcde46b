-- ===== src/Client/Submarine/Refunds.antt =====
-- What a log that follows the protocol of the client of a submarine swap has before a funding, before
-- a refund, and where the swap ends as claimed (swap-client/src/submarine.rs).
use pubky_swap.Prelude.{
  ℕ, ◌≤◌, ◌<◌, ◌≡◌, ◌≢◌, ◌⊎◌, refl, inl, inr, Bool, true, false, Option, none, some, List, [], ◌∷◌,
  ◌++◌, arith, Any, Bool-cases, if◌then◌else◌, eqb, leb,
}
use pubky_swap.Chain.{OutPoint}
use pubky_swap.Onchain.Preimages.{Bytes, PaymentHash, Transaction, extract_preimage}
use pubky_swap.Driver.Traces.{follow}
use pubky_swap.Driver.Counts.{count}
use pubky_swap.Reverse.{InvoiceState, «open», accepted, settled, cancelled}
use pubky_swap.Client.Submarine.{
  SubmarineFunding, Call, tip_height, funding_intent, fund_htlc, funded, relied_on, invoice_state,
  find_spend, is_claim, is_claimed,
}
use pubky_swap.Client.Submarine.Protocol.{
  Phase, unfunded, hopeless, timely, intended, unsure, locked, unsettled, overdue, refunding, taken,
  paid, recovered, after_state, is_early, advance, refunds,
}

-- The run has relied on this outpoint for its coins.
abbrev pub IsAt : OutPoint → Call → Type 0
IsAt outpoint c = (c ≡ funded outpoint) ⊎ (c ≡ relied_on outpoint)

module _ (sha256 : Bytes → PaymentHash) (funding : SubmarineFunding) where
  abbrev pub NoClaim : OutPoint → Option Transaction → Type 0
  NoClaim outpoint none = Unit
  NoClaim outpoint (some tx) = extract_preimage sha256 tx outpoint funding.payment_hash ≡ none

  -- In one turn the invoice was not settled, the timeout had come, and no spend of the outpoint
  -- showed a preimage; no call before was a refund.
  pub record IsDue (outpoint : OutPoint) (log : List Call) : Type 0 where
    pub state : InvoiceState
    pub tip : ℕ
    pub spend : Option Transaction
    pub before : List Call
    pub after : List Call
    pub split : log ≡ before ++ invoice_state state ∷ tip_height tip ∷ find_spend spend ∷ after
    pub first : count refunds before ≡ 0
    pub unpaid : state ≢ settled
    pub late : funding.timeout_height ≤ tip
    pub unclaimed : NoClaim outpoint spend

  IsDue-cons :
      {outpoint : OutPoint} {log : List Call} (c : Call)
      → refunds c ≡ 0
      → IsDue outpoint log
      → IsDue outpoint (c ∷ log)
  unfolding count
  IsDue-cons c quiet s = record {
    state = s.state;
    tip = s.tip;
    spend = s.spend;
    before = c ∷ s.before;
    after = s.after;
    split = rw s.split refl;
    first = omega (arith, s.first, quiet);
    unpaid = s.unpaid;
    late = s.late;
    unclaimed = s.unclaimed;
  }

  unclaimed_spend :
      (outpoint : OutPoint) (spend : Option Transaction)
      → is_claimed sha256 funding outpoint spend ≡ false
      → NoClaim outpoint spend
  unfolding is_claimed is_claim
  unclaimed_spend outpoint none h = tt
  unclaimed_spend outpoint (some tx) h = ground (arith, h)

  -- The rest of a turn whose invoice was not settled, from the tip on and from the lookup on.
  abbrev FromTip : OutPoint → List Call → Type 0
  FromTip outpoint log =
      (tip : ℕ) × (spend : Option Transaction) × (rest : List Call) × (log
        ≡ tip_height tip ∷ find_spend spend ∷ rest)
      × (funding.timeout_height ≤ tip)
      × NoClaim outpoint spend

  abbrev FromSpend : OutPoint → List Call → Type 0
  FromSpend outpoint log =
      (spend : Option Transaction) × (rest : List Call) × (log ≡ find_spend spend ∷ rest)
      × NoClaim outpoint spend

  abbrev pub IsDueAt : List Call → Type 0
  IsDueAt log = (outpoint : OutPoint) × Any (IsAt outpoint) log × IsDue outpoint log

  -- Where a log with a refund begins in a phase.
  abbrev Due : Phase → List Call → Type 0
  Due (locked outpoint) log = IsDue outpoint log
  Due (unsettled outpoint) log = FromTip outpoint log ⊎ IsDue outpoint log
  Due (overdue outpoint) log = FromSpend outpoint log
  Due (refunding outpoint) log = Unit
  Due (taken outpoint) log = Unit
  Due paid log = Unit
  Due recovered log = Unit
  Due _ log = IsDueAt log

  IsDueAt-cons : {log : List Call} (c : Call) → refunds c ≡ 0 → IsDueAt log → IsDueAt (c ∷ log)
  IsDueAt-cons c quiet (outpoint, at, due) = (outpoint, inr at, IsDue-cons c quiet due)

  after_unsettled :
      (outpoint : OutPoint) (state : InvoiceState) (cs : List Call)
      → state ≢ settled
      → Due (unsettled outpoint) cs
      → IsDue outpoint (invoice_state state ∷ cs)
  unfolding count
  after_unsettled outpoint state cs unpaid (inr due) = IsDue-cons _ refl due
  after_unsettled outpoint state cs unpaid (inl (tip, spend, rest, is, late, unclaimed)) = record {
    state = state;
    tip = tip;
    spend = spend;
    before = [];
    after = rest;
    split = rw is refl;
    first = refl;
    unpaid = unpaid;
    late = late;
    unclaimed = unclaimed;
  }

  after_paid :
      (q : Phase) (log : List Call)
      → follow (advance sha256 funding) paid log ≡ some q
      → count refunds log ≡ 0
  unfolding follow advance count
  after_paid q [] e = refl
  after_paid q (c ∷ cs) e = cc

  due :
      (p q : Phase) (log : List Call)
      → follow (advance sha256 funding) p log ≡ some q
      → 0 < count refunds log
      → Due p log
  unfolding follow advance after_state count
  due (refunding outpoint) q log e k = tt
  due (taken outpoint) q log e k = tt
  due paid q log e k = tt
  due recovered q log e k = tt
  due p q [] e k = absurd (omega (arith, k))
  due unfunded q (funded outpoint ∷ cs) e k = (
    outpoint,
    inl (inl refl),
    IsDue-cons _ refl (due (locked outpoint) q cs e (omega (arith, k))),
  )
  due unfunded q (tip_height tip ∷ cs) e k = elim (Bool-cases (is_early sha256 funding tip)) [
    | inl early ↦
        IsDueAt-cons _ refl (due (timely tip) q cs (rw (early, follow) at e) (omega (arith, k)))
    | inr late ↦ IsDueAt-cons _ refl (due hopeless q cs (rw (late, follow) at e) (omega (arith, k)))
  ]
  due (timely tip) q (funding_intent at ∷ cs) e k = elim (Bool-cases (eqb at tip)) [
    | inl same ↦ IsDueAt-cons _ refl (due intended q cs (rw (same, follow) at e) (omega (arith, k)))
    | inr other ↦ cc (rw (other, follow) at e)
  ]
  due intended q (fund_htlc amount ∷ cs) e k =
      elim (Bool-cases (eqb amount funding.onchain_amount_sat)) [
        | inl same ↦
            IsDueAt-cons _ refl
              (due (unsure false) q cs (rw (same, follow) at e) (omega (arith, k)))
        | inr other ↦ cc (rw (other, follow) at e)
      ]
  due (unsure late) q (funded outpoint ∷ cs) e k = (
    outpoint,
    inl (inl refl),
    IsDue-cons _ refl (due (locked outpoint) q cs e (omega (arith, k))),
  )
  due (unsure late) q (relied_on outpoint ∷ cs) e k = (
    outpoint,
    inl (inr refl),
    IsDue-cons _ refl (due (locked outpoint) q cs e (omega (arith, k))),
  )
  due (unsure late) q (tip_height tip ∷ cs) e k =
      IsDueAt-cons _ refl (due (unsure (leb funding.timeout_height tip)) q cs e (omega (arith, k)))
  due (locked outpoint) q (invoice_state settled ∷ cs) e k =
      absurd (omega (arith, k, after_paid q cs e))
  due (locked outpoint) q (invoice_state «open» ∷ cs) e k =
      after_unsettled outpoint «open» cs (λ h. cc)
        (due (unsettled outpoint) q cs e (omega (arith, k)))
  due (locked outpoint) q (invoice_state accepted ∷ cs) e k =
      after_unsettled outpoint accepted cs (λ h. cc)
        (due (unsettled outpoint) q cs e (omega (arith, k)))
  due (locked outpoint) q (invoice_state cancelled ∷ cs) e k =
      after_unsettled outpoint cancelled cs (λ h. cc)
        (due (unsettled outpoint) q cs e (omega (arith, k)))
  due (unsettled outpoint) q (tip_height tip ∷ cs) e k =
      elim (Bool-cases (leb funding.timeout_height tip)) [
        | inl past ↦
            let (spend, rest, is, unclaimed) =
              due (overdue outpoint) q cs (rw (past, follow) at e) (omega (arith, k)) in
            inl (tip, spend, rest, rw is refl, ground (arith, past), unclaimed)
        | inr early ↦ inr (
            IsDue-cons _ refl
              (due (locked outpoint) q cs (rw (early, follow) at e) (omega (arith, k))))
      ]
  due (overdue outpoint) q (find_spend spend ∷ cs) e k =
      elim (Bool-cases (is_claimed sha256 funding outpoint spend)) [
        | inl theirs ↦ absurd (omega (arith, k, after_paid q cs (rw (theirs, follow) at e)))
        | inr none_yet ↦ (spend, cs, refl, unclaimed_spend outpoint spend none_yet)
      ]
  due p q (c ∷ cs) e k = cc

  pub due_first :
      (funded_before : Bool) (q : Phase) (log : List Call)
      → follow (advance sha256 funding) (if funded_before then unsure false else unfunded) log
        ≡ some q
      → 0 < count refunds log
      → IsDueAt log
  due_first true q log e k = due (unsure false) q log e k
  due_first false q log e k = due unfunded q log e k
