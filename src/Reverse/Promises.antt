-- ===== src/Reverse/Promises.antt =====
-- What the driver of a reverse swap promises (swap-provider/src/reverse.rs), by way of the
-- protocol that it keeps to.
use pubky_swap.Prelude.{
  ℕ, ◌≤◌, ◌<◌, ◌≡◌, refl, inl, inr, Bool, true, false, some, List, [], ◌∷◌, ◌++◌, arith, ok,
  Bool-cases, eqb, eqb_iff, Result-cases, if◌then◌else◌,
}
use pubky_swap.Onchain.Preimages.{Bytes, PaymentHash}
use pubky_swap.Timelock.{check_reverse_before_fund}
use pubky_swap.Driver.Traces.{follow, Post}
use pubky_swap.Driver.Counts.{count}
use pubky_swap.Reverse.{
  Resume, ReverseSwap, «open», accepted, settled, cancelled, Call, invoice_state,
  earliest_htlc_expiry, tip_height, funding_intent, fund_htlc, funded, cancel_hold_invoice, Answers,
}
use pubky_swap.Reverse.Establish.{may_have_funded}
use pubky_swap.Reverse.Watch.{drive_reverse_swap}
use pubky_swap.Reverse.Protocol.{
  Phase, unpaid, held, expiring, intended, unsure, returned, complete, advance, funds, pays,
  may_fund, may_pay, funds_once, pays_once,
}
use pubky_swap.Reverse.Settles.{opening, Reports, Follows-drive}

pub may_opening :
    (b : Bool) → (may_fund (opening b) ≡ (if b then 0 else 1)) × (may_pay (opening b) ≡ 1)
may_opening true = (refl, refl)
may_opening false = (refl, refl)

module _ (sha256 : Bytes → PaymentHash) (swap : ReverseSwap) where
  -- The one funding of a log: right before it the node called the invoice accepted, the expiry that
  -- the held payment has was read, and the intent was recorded at a tip from which the timelocks
  -- hold with that expiry.
  pub record IsGuarded (log : List Call) : Type 0 where
    pub expiry : ℕ
    pub tip : ℕ
    pub before : List Call
    pub after : List Call
    pub split :
        log
        ≡ before
          ++ invoice_state accepted
            ∷ earliest_htlc_expiry expiry
            ∷ funding_intent tip
            ∷ fund_htlc swap.onchain_amount_sat
            ∷ after
    pub first : count funds before ≡ 0
    pub last : count funds after ≡ 0
    pub passed : check_reverse_before_fund tip swap.timeout_height expiry swap.timelock ≡ ok tt

  IsGuarded-cons : {log : List Call} (c : Call) → funds c ≡ 0 → IsGuarded log → IsGuarded (c ∷ log)
  unfolding count
  IsGuarded-cons c quiet g = record {
    expiry = g.expiry;
    tip = g.tip;
    before = c ∷ g.before;
    after = g.after;
    split = rw g.split refl;
    first = omega (arith, g.first, quiet);
    last = g.last;
    passed = g.passed;
  }

  intended_first :
      (q : Phase) (log : List Call)
      → follow (advance sha256 swap) intended log ≡ some q
      → 0 < count funds log
      → (after : List Call) × (log ≡ fund_htlc swap.onchain_amount_sat ∷ after)
        × (count funds after ≡ 0)
  unfolding follow advance count
  intended_first q [] e k = absurd (omega (arith, k))
  intended_first q (fund_htlc amount ∷ cs) e k =
      elim (Bool-cases (eqb amount swap.onchain_amount_sat)) [
        | inl same ↦
            let sent = rw (same, follow) at e in
            (
              cs,
              rw ((eqb_iff amount swap.onchain_amount_sat).0 same) refl,
              omega (arith, funds_once sha256 swap (unsure false) q cs sent),
            )
        | inr other ↦ cc (rw (other, follow) at e)
      ]
  intended_first q (c ∷ cs) e k = cc

  timely :
      (h : ℕ) (q : Phase) (log : List Call)
      → follow (advance sha256 swap) (expiring h) log ≡ some q
      → 0 < count funds log
      → (tip : ℕ) × (after : List Call) × (log
          ≡ funding_intent tip ∷ fund_htlc swap.onchain_amount_sat ∷ after)
        × (count funds after ≡ 0)
        × (check_reverse_before_fund tip swap.timeout_height h swap.timelock ≡ ok tt)
  unfolding follow advance count
  timely h q [] e k = absurd (omega (arith, k))
  timely h q (cancel_hold_invoice ∷ cs) e k =
      absurd (omega (arith, k, funds_once sha256 swap returned q cs e))
  timely h q (funding_intent tip ∷ cs) e k =
      elim (Result-cases (check_reverse_before_fund tip swap.timeout_height h swap.timelock)) [
        | inl (passed, good) ↦
            let marked = rw (good, follow) at e in
            let (after, is, none_left) = intended_first q cs marked (omega (arith, k)) in
            (tip, after, rw is refl, none_left, good)
        | inr (violation, bad) ↦ ground (arith, bad)
      ]
  timely h q (c ∷ cs) e k = cc

  held_first :
      (q : Phase) (log : List Call)
      → follow (advance sha256 swap) held log ≡ some q
      → 0 < count funds log
      → IsGuarded (invoice_state accepted ∷ log)
  unfolding follow advance count
  held_first q [] e k = absurd (omega (arith, k))
  held_first q (earliest_htlc_expiry h ∷ cs) e k =
      let (tip, after, is, none_left, good) = timely h q cs e (omega (arith, k)) in
      record {
        expiry = h;
        tip = tip;
        before = [];
        after = after;
        split = rw is refl;
        first = refl;
        last = none_left;
        passed = good;
      }
  held_first q (funded outpoint ∷ cs) e k =
      absurd (omega (arith, k, funds_once sha256 swap _ q cs e))
  held_first q (cancel_hold_invoice ∷ cs) e k =
      absurd (omega (arith, k, funds_once sha256 swap returned q cs e))
  held_first q (c ∷ cs) e k = cc

  accepted_first :
      (q : Phase) (log : List Call)
      → follow (advance sha256 swap) unpaid log ≡ some q
      → 0 < count funds log
      → IsGuarded log
  unfolding follow advance count
  accepted_first q [] e k = absurd (omega (arith, k))
  accepted_first q (invoice_state accepted ∷ cs) e k = held_first q cs e (omega (arith, k))
  accepted_first q (invoice_state settled ∷ cs) e k =
      absurd (omega (arith, k, funds_once sha256 swap complete q cs e))
  accepted_first q (invoice_state cancelled ∷ cs) e k =
      absurd (omega (arith, k, funds_once sha256 swap returned q cs e))
  accepted_first q (invoice_state «open» ∷ cs) e k =
      IsGuarded-cons _ refl (accepted_first q cs e (omega (arith, k)))
  accepted_first q (tip_height t ∷ cs) e k =
      IsGuarded-cons _ refl (accepted_first q cs e (omega (arith, k)))
  accepted_first q (cancel_hold_invoice ∷ cs) e k =
      absurd (omega (arith, k, funds_once sha256 swap returned q cs e))
  accepted_first q (c ∷ cs) e k = cc

  -- Whatever the node, the chain and the wallet answer, a run makes only the calls that the
  -- protocol allows, in an order that it allows; and where the run returns, the state that it
  -- reports is one that the swap may report in the phase then reached.
  pub drive_reverse_swap_refines :
      (resume : Resume) (required : ℕ) (answers : Answers)
      → let run = drive_reverse_swap sha256 swap resume required answers in
        (q : Phase) × (follow (advance sha256 swap) (opening (may_have_funded resume)) run.log
          ≡ some q)
        × Post Reports run.ends q
  drive_reverse_swap_refines resume required answers =
      let f = Follows-drive sha256 swap resume required answers in (f.phase, f.path, f.post)

  -- The wallet is asked to fund once at most in a run, and not at all in a run that resumes with
  -- an outpoint or a funding intent on the record; and the payment is settled or given back, but
  -- never both, and neither of them twice.
  pub drive_reverse_swap_once :
      (resume : Resume) (required : ℕ) (answers : Answers)
      → let run = drive_reverse_swap sha256 swap resume required answers in
        (count funds run.log ≤ (if may_have_funded resume then 0 else 1)) × (count pays run.log ≤ 1)
  drive_reverse_swap_once resume required answers =
      let f = Follows-drive sha256 swap resume required answers in
      let start = opening (may_have_funded resume) in
      let once = funds_once sha256 swap start f.phase _ f.path in
      let either = pays_once sha256 swap start f.phase _ f.path in
      let (funding, paying) = may_opening (may_have_funded resume) in
      (omega (arith, once, funding), omega (arith, either, paying))

  pub from_opening :
      (funded_before : Bool) (q : Phase) (log : List Call)
      → follow (advance sha256 swap) (opening funded_before) log ≡ some q
      → 0 < count funds log
      → IsGuarded log
  from_opening true q log e k = absurd (omega (arith, k, funds_once sha256 swap _ q log e))
  from_opening false q log e k = accepted_first q log e k

  -- A run that asks the wallet to fund does so once, for the swap's amount, and right after three
  -- calls in this order: the node calls the invoice accepted, the earliest expiry of the held
  -- payment is read, and the funding intent is recorded at a tip from which the timelocks hold
  -- with that expiry.
  pub drive_reverse_swap-IsGuarded :
      (resume : Resume) (required : ℕ) (answers : Answers)
      → let run = drive_reverse_swap sha256 swap resume required answers in
        0 < count funds run.log → IsGuarded run.log
  drive_reverse_swap-IsGuarded resume required answers k =
      let f = Follows-drive sha256 swap resume required answers in
      from_opening (may_have_funded resume) f.phase _ f.path k
