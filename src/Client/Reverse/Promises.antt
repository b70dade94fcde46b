-- ===== src/Client/Reverse/Promises.antt =====
-- What the client of a reverse swap is promised (swap-client/src/reverse.rs), by way of the protocol
-- that its driver keeps to.
use pubky_swap.Prelude.{
  ℕ, ◌+◌, ◌≤◌, ◌<◌, ◌≡◌, ◌⊎◌, refl, inl, inr, Bool, true, false, some, List, [], ◌∷◌, ◌++◌, arith,
  Any, Result, String, Bool-cases, eqb, eqb_iff,
}
use pubky_swap.Chain.{Txid, FundingUtxo, default_max_overpay_sat}
use pubky_swap.Timelock.{claim_abort_margin}
use pubky_swap.Driver.{Run, returns}
use pubky_swap.Driver.Traces.{follow, Post}
use pubky_swap.Driver.Counts.{count, count-follow}
use pubky_swap.Reverse.{Resume}
use pubky_swap.Submarine.{PaymentStatus}
use pubky_swap.Client.Reverse.{
  ReverseClaim, Call, payment_status, payment_started, pay_invoice, find_outputs, tip_height,
  Answers, is_fresh, execute_reverse_swap,
}
use pubky_swap.Client.Reverse.Protocol.{
  Phase, asking, clear, marked, waiting, funded, open_to_claim, claimed, complete, may_start,
  is_worth_it, is_early, advance, Reports, pays, reveals, may_pay,
}
use pubky_swap.FeeBump.Final.{IsDeep}
use pubky_swap.Client.Reverse.Final.{execute-IsDeep}
use pubky_swap.Client.Reverse.Refines.{Follows-execute}

module _ (claim : ReverseClaim) (required : ℕ) where
  -- The chain has shown one output, which holds what the swap is priced at and is buried, and then
  -- a tip that leaves the margin before the provider's refund; no call before has shown the
  -- preimage.
  pub record IsSecured (log : List Call) : Type 0 where
    pub u : FundingUtxo
    pub tip : ℕ
    pub before : List Call
    pub after : List Call
    pub split : log ≡ before ++ find_outputs (u ∷ []) ∷ tip_height tip ∷ after
    pub secret : count reveals before ≡ 0
    pub enough : claim.onchain_amount_sat ≤ u.value_sat
    pub not_much_more : u.value_sat ≤ claim.onchain_amount_sat + default_max_overpay_sat
    pub buried : required ≤ u.confirmations
    pub early : tip + claim_abort_margin < claim.timeout_height

  IsSecured-cons :
      {log : List Call} (c : Call) → reveals c ≡ 0 → IsSecured log → IsSecured (c ∷ log)
  unfolding count
  IsSecured-cons c quiet s = record {
    u = s.u;
    tip = s.tip;
    before = c ∷ s.before;
    after = s.after;
    split = rw s.split refl;
    secret = omega (arith, s.secret, quiet);
    enough = s.enough;
    not_much_more = s.not_much_more;
    buried = s.buried;
    early = s.early;
  }

  module _ (fresh : Bool) (max_fee : ℕ) where
    pays_step :
        (p q : Phase) (c : Call)
        → advance claim required fresh max_fee p c ≡ some q
        → pays c + may_pay q ≤ may_pay p
    unfolding advance
    pays_step p q c h = ground arith

    -- Where a log that shows the preimage begins in a phase.
    abbrev Secured : Phase → List Call → Type 0
    Secured (funded own) log =
        ((tip : ℕ) × (rest : List Call) × (log ≡ tip_height tip ∷ rest)
          × (is_early claim required tip ≡ true))
        ⊎ IsSecured log
    Secured (open_to_claim own) log = Unit
    Secured (claimed own txid) log = Unit
    Secured (complete txid) log = Unit
    Secured _ log = IsSecured log

    after_outputs :
        (own : Bool) (outputs : List FundingUtxo) (cs : List Call)
        → is_worth_it claim required outputs ≡ true
        → Secured (funded own) cs
        → IsSecured (find_outputs outputs ∷ cs)
    unfolding is_worth_it is_early count
    after_outputs own [] cs worth h = cc
    after_outputs own (u ∷ v ∷ more) cs worth h = cc
    after_outputs own (u ∷ []) cs worth (inr later) = IsSecured-cons _ refl later
    after_outputs own (u ∷ []) cs worth (inl (tip, rest, is, early)) = record {
      u = u;
      tip = tip;
      before = [];
      after = rest;
      split = rw is refl;
      secret = refl;
      enough = ground (arith, worth);
      not_much_more = ground (arith, worth);
      buried = ground (arith, worth);
      early = ground (arith, early);
    }

    secured :
        (p q : Phase) (log : List Call)
        → follow (advance claim required fresh max_fee) p log ≡ some q
        → 0 < count reveals log
        → Secured p log
    unfolding follow advance count
    secured (open_to_claim own) q log e k = tt
    secured (claimed own txid) q log e k = tt
    secured (complete txid) q log e k = tt
    secured p q [] e k = absurd (omega (arith, k))
    secured asking q (payment_status s ∷ cs) e k = elim (Bool-cases (may_start fresh s)) [
      | inl may ↦
          IsSecured-cons _ refl (secured clear q cs (rw (may, follow) at e) (omega (arith, k)))
      | inr not_now ↦
          IsSecured-cons _ refl
            (secured (waiting false) q cs (rw (not_now, follow) at e) (omega (arith, k)))
    ]
    secured clear q (payment_started ∷ cs) e k =
        IsSecured-cons _ refl (secured marked q cs e (omega (arith, k)))
    secured marked q (pay_invoice fee ∷ cs) e k = elim (Bool-cases (eqb fee max_fee)) [
      | inl same ↦
          IsSecured-cons _ refl
            (secured (waiting true) q cs (rw (same, follow) at e) (omega (arith, k)))
      | inr other ↦ cc (rw (other, follow) at e)
    ]
    secured (waiting own) q (find_outputs outputs ∷ cs) e k =
        elim (Bool-cases (is_worth_it claim required outputs)) [
          | inl worth ↦
              after_outputs own outputs cs worth
                (secured (funded own) q cs (rw (worth, follow) at e) (omega (arith, k)))
          | inr poor ↦
              IsSecured-cons _ refl
                (secured (waiting own) q cs (rw (poor, follow) at e) (omega (arith, k)))
        ]
    secured (waiting own) q (tip_height tip ∷ cs) e k =
        IsSecured-cons _ refl (secured (waiting own) q cs e (omega (arith, k)))
    secured (funded own) q (tip_height tip ∷ cs) e k =
        elim (Bool-cases (is_early claim required tip)) [
          | inl early ↦ inl (tip, cs, refl, early)
          | inr late ↦ inr (
              IsSecured-cons _ refl
                (secured (waiting own) q cs (rw (late, follow) at e) (omega (arith, k))))
        ]
    secured p q (c ∷ cs) e k = cc

    no_payment :
        (own : Bool) (q : Phase) (log : List Call)
        → follow (advance claim required fresh max_fee) (waiting own) log ≡ some q
        → count pays log ≡ 0
    no_payment own q log e = omega (
      arith,
      count-follow (advance claim required fresh max_fee) pays may_pay pays_step (waiting own) q log
          e,
    )

    -- The node's answer allows a payment, and the marker is on the record before it is made.
    abbrev pub IsAllowed : List Call → Type 0
    IsAllowed log =
        (status : Result String PaymentStatus) × (rest : List Call) × (log
          ≡ payment_status status ∷ payment_started ∷ pay_invoice max_fee ∷ rest)
        × (may_start fresh status ≡ true)
        × (count pays rest ≡ 0)

    marked_first :
        (q : Phase) (log : List Call)
        → follow (advance claim required fresh max_fee) marked log ≡ some q
        → 0 < count pays log
        → (rest : List Call) × (log ≡ pay_invoice max_fee ∷ rest) × (count pays rest ≡ 0)
    unfolding follow advance count
    marked_first q [] e k = absurd (omega (arith, k))
    marked_first q (pay_invoice fee ∷ cs) e k = elim (Bool-cases (eqb fee max_fee)) [
      | inl same ↦ (
        cs,
        rw ((eqb_iff fee max_fee).0 same) refl,
        no_payment true q cs (rw (same, follow) at e),
      )
      | inr other ↦ cc (rw (other, follow) at e)
    ]
    marked_first q (c ∷ cs) e k = cc

    clear_first :
        (q : Phase) (log : List Call)
        → follow (advance claim required fresh max_fee) clear log ≡ some q
        → 0 < count pays log
        → (rest : List Call) × (log ≡ payment_started ∷ pay_invoice max_fee ∷ rest)
          × (count pays rest ≡ 0)
    unfolding follow advance count
    clear_first q [] e k = absurd (omega (arith, k))
    clear_first q (payment_started ∷ cs) e k =
        let (rest, is, none_left) = marked_first q cs e (omega (arith, k)) in
        (rest, rw is refl, none_left)
    clear_first q (c ∷ cs) e k = cc

    IsAllowed-first :
        (q : Phase) (log : List Call)
        → follow (advance claim required fresh max_fee) asking log ≡ some q
        → 0 < count pays log
        → IsAllowed log
    unfolding follow advance count
    IsAllowed-first q [] e k = absurd (omega (arith, k))
    IsAllowed-first q (payment_status s ∷ cs) e k = elim (Bool-cases (may_start fresh s)) [
      | inl may ↦
          let (rest, is, none_left) = clear_first q cs (rw (may, follow) at e) (omega (arith, k)) in
          (s, rest, rw is refl, may, none_left)
      | inr not_now ↦
          let nothing_paid = no_payment false q cs (rw (not_now, follow) at e) in
          absurd (omega (arith, k, nothing_paid))
    ]
    IsAllowed-first q (c ∷ cs) e k = cc

module _ (claim : ReverseClaim) (resume : Resume) (max_fee required : ℕ) (answers : Answers) where
  abbrev pub run_of : Run Call Txid
  run_of = execute_reverse_swap claim resume max_fee required answers

  -- Whatever the node and the chain answer, a run of the client makes only the calls that the
  -- protocol allows, in an order that it allows; and where it returns an id, the protocol has seen
  -- that claim confirmed, and a payment that the run has started return; and in one turn of the
  -- claim the chain gave that transaction two confirmations at least.
  pub execute_reverse_swap_refines :
      (q : Phase) × (follow (advance claim required (is_fresh resume) max_fee) asking run_of.log
        ≡ some q)
      × Post Reports run_of.ends q
      × ((txid : Txid) → run_of.ends ≡ returns txid → Any (IsDeep 2 txid) answers.claim_turns)
  execute_reverse_swap_refines =
      let f = Follows-execute claim resume max_fee required answers in
      (f.phase, f.path, f.post, execute-IsDeep claim resume max_fee required answers)

  -- A run that broadcasts a claim, which shows the preimage, has first seen a single output at the
  -- HTLC, which holds what the swap is priced at, not much more, and is buried; and then a tip
  -- that leaves more than the abort margin before the provider's refund.
  pub execute_reverse_swap-IsSecured :
      0 < count reveals run_of.log → IsSecured claim required run_of.log
  execute_reverse_swap-IsSecured k =
      let f = Follows-execute claim resume max_fee required answers in
      secured claim required (is_fresh resume) max_fee asking f.phase run_of.log f.path k

  -- A run that pays does so once, with the caller's cap on the fee, right after the marker is on
  -- the record, and only where the node's answer allows it: it knows of no payment, or of one that
  -- failed; or it cannot tell, and the run has no past.
  pub execute_reverse_swap_pays_once :
      0 < count pays run_of.log → IsAllowed claim required (is_fresh resume) max_fee run_of.log
  execute_reverse_swap_pays_once k =
      let f = Follows-execute claim resume max_fee required answers in
      IsAllowed-first claim required (is_fresh resume) max_fee f.phase run_of.log f.path k
