-- ===== src/Submarine/Orders.antt =====
-- What a log that follows the protocol of a submarine swap has before and after a payment
-- (swap-provider/src/submarine.rs).
use pubky_swap.Prelude.{
  ℕ, ◌≤◌, ◌<◌, ◌≡◌, refl, ◌⊎◌, inl, inr, Bool, true, false, none, some, List, [], ◌∷◌, ◌++◌, arith,
  ok, Any, Option-cases, Result-cases, Bool-cases, eqb, eqb_iff, leb, leb→le, ◌&&◌, if◌then◌else◌,
  String,
}
use pubky_swap.Onchain.Preimages.{Bytes, PaymentHash}
use pubky_swap.Timelock.{check_submarine_before_pay, submarine_cltv_budget}
use pubky_swap.Swap.{failed}
use pubky_swap.Driver.Traces.{follow}
use pubky_swap.Driver.Counts.{count}
use pubky_swap.Submarine.{
  SubmarineSwap, succeeded, in_flight, failed_with, unknown, not_found, Call, tip_height, funded,
  outpoint_status, htlc_spent, payment_status, invoice_pay_started, pay_invoice, payment_refused,
  invoice_paid,
}
use pubky_swap.Submarine.Protocol.{
  Phase, seeking, found, deep, denied, ready, intended, sent, owed, rejected, spent, pay_limit,
  after_status, after_lost, advance, reports, pays, may_pay, pays_once,
}

abbrev pub In : Call → List Call → Type 0
In c log = Any (λ d. d ≡ c) log

module _ (sha256 : Bytes → PaymentHash) (swap : SubmarineSwap) (required : ℕ)
    (attempted : Bool) where
  -- The three calls that make the one payment: a tip from which the claim has its time, the
  -- marker, and the payment, with the swap's cap on its fee and the limit that this tip leaves.
  pub record IsLimited (log : List Call) : Type 0 where
    pub tip : ℕ
    pub limit : ℕ
    pub before : List Call
    pub after : List Call
    pub split :
        log
        ≡ before
          ++ tip_height tip
            ∷ invoice_pay_started
            ∷ pay_invoice swap.max_routing_fee_msat limit
            ∷ after
    pub first : count pays before ≡ 0
    pub last : count pays after ≡ 0
    pub passed : check_submarine_before_pay tip swap.timeout_height swap.timelock ≡ ok tt
    pub room : submarine_cltv_budget tip swap.timeout_height swap.timelock ≡ some limit

  -- The calls of the payment come after one that saw the funding at the required depth.
  pub record IsSafe (log : List Call) : Type 0 where
    pub depth : ℕ
    pub before : List Call
    pub after : List Call
    pub split : log ≡ before ++ outpoint_status (some depth) ∷ after
    pub first : count pays before ≡ 0
    pub enough : required ≤ depth
    pub limits : IsLimited after

  spent_up :
      (p q : Phase) (cs : List Call)
      → follow (advance sha256 swap required attempted) p cs ≡ some q
      → may_pay attempted p ≡ 0
      → 0 < count pays cs
      → ⊥
  spent_up p q cs e z k = omega (arith, pays_once sha256 swap required attempted p q cs e, z, k)

  asked_first :
      (limit : ℕ) (q : Phase) (log : List Call)
      → follow (advance sha256 swap required attempted) (intended limit) log ≡ some q
      → 0 < count pays log
      → (after : List Call) × (log ≡ pay_invoice swap.max_routing_fee_msat limit ∷ after)
        × (count pays after ≡ 0)
  unfolding follow advance count
  asked_first limit q [] e k = absurd (omega (arith, k))
  asked_first limit q (pay_invoice fee asked ∷ cs) e k =
      elim (Bool-cases (eqb fee swap.max_routing_fee_msat && eqb asked limit)) [
        | inl same ↦
            let fee_is : fee ≡ swap.max_routing_fee_msat =
              ground (arith, same, eqb_iff fee swap.max_routing_fee_msat) in
            let limit_is : asked ≡ limit = ground (arith, same, eqb_iff asked limit) in
            let none_left =
              pays_once sha256 swap required attempted sent q cs (rw (same, follow) at e) in
            (cs, rw (fee_is, limit_is) refl, omega (arith, none_left))
        | inr other ↦ ground (arith, other)
      ]
  asked_first limit q (c ∷ cs) e k = cc

  marked_first :
      (limit : ℕ) (q : Phase) (log : List Call)
      → follow (advance sha256 swap required attempted) (ready (some limit)) log ≡ some q
      → 0 < count pays log
      → (after : List Call) × (log
          ≡ invoice_pay_started ∷ pay_invoice swap.max_routing_fee_msat limit ∷ after)
        × (count pays after ≡ 0)
  unfolding follow advance count
  marked_first limit q [] e k = absurd (omega (arith, k))
  marked_first limit q (invoice_pay_started ∷ cs) e k =
      let (after, is, none_left) = asked_first limit q cs e (omega (arith, k)) in
      (after, rw is refl, none_left)
  marked_first limit q (c ∷ cs) e k = cc

  no_limit :
      (q : Phase) (log : List Call)
      → follow (advance sha256 swap required attempted) (ready none) log ≡ some q
      → 0 < count pays log
      → ⊥
  unfolding follow advance count
  no_limit q [] e k = omega (arith, k)
  no_limit q (c ∷ cs) e k = cc

  limited :
      (tip : ℕ) (q : Phase) (cs : List Call)
      → follow (advance sha256 swap required attempted) (ready (pay_limit swap tip)) cs ≡ some q
      → 0 < count pays cs
      → IsLimited (tip_height tip ∷ cs)
  unfolding pay_limit count
  limited tip q cs e k =
      elim (Result-cases (check_submarine_before_pay tip swap.timeout_height swap.timelock)) [
        | inr (violation, bad) ↦ absurd (no_limit q cs (rw (bad, pay_limit) at e) k)
        | inl (passed, good) ↦
            elim (Option-cases (submarine_cltv_budget tip swap.timeout_height swap.timelock)) [
              | inl none_left ↦ absurd (no_limit q cs (rw (good, none_left, pay_limit) at e) k)
              | inr (limit, room) ↦
                  let (after, is, none_left) =
                    marked_first limit q cs (rw (good, room, pay_limit) at e) k in
                  record {
                    tip = tip;
                    limit = limit;
                    before = [];
                    after = after;
                    split = rw is refl;
                    first = refl;
                    last = none_left;
                    passed = good;
                    room = room;
                  }
            ]
      ]

  later : {cs : List Call} (c : Call) → pays c ≡ 0 → IsLimited cs → IsLimited (c ∷ cs)
  unfolding count
  later c quiet g = record {
    tip = g.tip;
    limit = g.limit;
    before = c ∷ g.before;
    after = g.after;
    split = rw g.split refl;
    first = omega (arith, g.first, quiet);
    last = g.last;
    passed = g.passed;
    room = g.room;
  }

  later-IsSafe : {cs : List Call} (c : Call) → pays c ≡ 0 → IsSafe cs → IsSafe (c ∷ cs)
  unfolding count
  later-IsSafe c quiet g = record {
    depth = g.depth;
    before = c ∷ g.before;
    after = g.after;
    split = rw g.split refl;
    first = omega (arith, g.first, quiet);
    enough = g.enough;
    limits = g.limits;
  }

  denied_first :
      (q : Phase) (log : List Call)
      → follow (advance sha256 swap required attempted) denied log ≡ some q
      → 0 < count pays log
      → IsLimited log
  unfolding follow advance count
  denied_first q [] e k = absurd (omega (arith, k))
  denied_first q (tip_height tip ∷ cs) e k = limited tip q cs e (omega (arith, k))
  denied_first q (c ∷ cs) e k = cc

  deep_first :
      (q : Phase) (log : List Call)
      → follow (advance sha256 swap required attempted) deep log ≡ some q
      → 0 < count pays log
      → IsLimited log
  unfolding follow advance count after_status
  deep_first q [] e k = absurd (omega (arith, k))
  deep_first q (payment_status (succeeded p) ∷ cs) e k =
      absurd (spent_up sent q cs e refl (omega (arith, k)))
  deep_first q (payment_status (failed_with r) ∷ cs) e k =
      absurd (spent_up rejected q cs e refl (omega (arith, k)))
  deep_first q (payment_status in_flight ∷ cs) e k =
      later _ refl (deep_first q cs e (omega (arith, k)))
  deep_first q (payment_status unknown ∷ cs) e k =
      later _ refl (denied_first q cs e (omega (arith, k)))
  deep_first q (payment_status not_found ∷ cs) e k =
      later _ refl (denied_first q cs e (omega (arith, k)))
  deep_first q (c ∷ cs) e k = cc

  found_first :
      (q : Phase) (log : List Call)
      → follow (advance sha256 swap required attempted) found log ≡ some q
      → 0 < count pays log
      → IsSafe log
  unfolding follow advance count after_lost
  found_first q [] e k = absurd (omega (arith, k))
  found_first q (htlc_spent ∷ cs) e k = absurd (spent_up spent q cs e refl (omega (arith, k)))
  found_first q (outpoint_status none ∷ cs) e k =
      later-IsSafe _ refl (found_first q cs e (omega (arith, k)))
  found_first q (outpoint_status (some depth) ∷ cs) e k = elim (Bool-cases attempted) [
    | inl before ↦ absurd (spent_up owed q cs (rw before at e) refl (omega (arith, k)))
    | inr fresh ↦ elim (Bool-cases (leb required depth)) [
      | inl buried ↦ record {
        depth = depth;
        before = [];
        after = cs;
        split = refl;
        first = refl;
        enough = leb→le required depth buried;
        limits = deep_first q cs (rw (fresh, buried) at e) (omega (arith, k));
      }
      | inr shallow ↦
          later-IsSafe _ refl (found_first q cs (rw (fresh, shallow) at e) (omega (arith, k)))
    ]
  ]
  found_first q (payment_status (failed_with r) ∷ cs) e k =
      absurd (spent_up rejected q cs e refl (omega (arith, k)))
  found_first q (payment_status (succeeded p) ∷ cs) e k =
      later-IsSafe _ refl (found_first q cs e (omega (arith, k)))
  found_first q (payment_status in_flight ∷ cs) e k =
      later-IsSafe _ refl (found_first q cs e (omega (arith, k)))
  found_first q (payment_status unknown ∷ cs) e k =
      later-IsSafe _ refl (found_first q cs e (omega (arith, k)))
  found_first q (payment_status not_found ∷ cs) e k =
      later-IsSafe _ refl (found_first q cs e (omega (arith, k)))
  found_first q (c ∷ cs) e k = cc

  seeking_first :
      (q : Phase) (log : List Call)
      → follow (advance sha256 swap required attempted) seeking log ≡ some q
      → 0 < count pays log
      → IsSafe log
  unfolding follow advance count
  seeking_first q [] e k = absurd (omega (arith, k))
  seeking_first q (tip_height t ∷ cs) e k =
      later-IsSafe _ refl (seeking_first q cs e (omega (arith, k)))
  seeking_first q (funded outpoint ∷ cs) e k =
      later-IsSafe _ refl (found_first q cs e (omega (arith, k)))
  seeking_first q (c ∷ cs) e k = cc

  -- The node has said that the payment failed, or with what preimage it succeeded.
  abbrev pub IsAnswered : List Call → Type 0
  IsAnswered log = In payment_refused log ⊎ ((preimage : Bytes) × In (invoice_paid preimage) log)

  sent_fails : (reason : String) → reports attempted (failed reason) sent ≡ true → ⊥
  unfolding reports
  sent_fails reason e = cc

  sent-IsAnswered :
      (reason : String) (q : Phase) (log : List Call)
      → follow (advance sha256 swap required attempted) sent log ≡ some q
      → reports attempted (failed reason) q ≡ true
      → IsAnswered log
  unfolding follow advance reports
  sent-IsAnswered reason q [] e fits =
      let same : q ≡ sent = cc in absurd (sent_fails reason (rw same at fits))
  sent-IsAnswered reason q (payment_refused ∷ cs) e fits = inl (inl refl)
  sent-IsAnswered reason q (invoice_paid p ∷ cs) e fits = inr (p, inl refl)
  sent-IsAnswered reason q (c ∷ cs) e fits = cc

  pay_sends :
      (p q : Phase) (fee limit : ℕ)
      → advance sha256 swap required attempted p (pay_invoice fee limit) ≡ some q
      → q ≡ sent
  unfolding advance
  pay_sends seeking q fee limit e = ground arith
  pay_sends p q fee limit e = ground arith

  -- After the payment, the node's answer.
  abbrev pub IsAnsweredAfter : List Call → Type 0
  IsAnsweredAfter log =
      (fee : ℕ) × (limit : ℕ) × (before : List Call) × (after : List Call) × (log
        ≡ before ++ pay_invoice fee limit ∷ after)
      × IsAnswered after

  pub answered :
      (reason : String) (p q : Phase) (log : List Call)
      → follow (advance sha256 swap required attempted) p log ≡ some q
      → reports attempted (failed reason) q ≡ true
      → 0 < count pays log
      → IsAnsweredAfter log
  unfolding follow count
  answered reason p q [] e fits k = absurd (omega (arith, k))
  answered reason p q (pay_invoice fee limit ∷ cs) e fits k =
      elim (Option-cases (advance sha256 swap required attempted p (pay_invoice fee limit))) [
        | inl refused ↦ ground (arith, refused)
        | inr (r, allowed) ↦
            let out = pay_sends p r fee limit allowed in
            (
              fee,
              limit,
              [],
              cs,
              refl,
              sent-IsAnswered reason q cs (rw (allowed, follow, out) at e) fits,
            )
      ]
  answered reason p q (c ∷ cs) e fits k =
      elim (Option-cases (advance sha256 swap required attempted p c)) [
        | inl refused ↦ ground (arith, refused)
        | inr (r, allowed) ↦
            let (fee, limit, before, after, is, said) =
              answered reason r q cs (rw (allowed, follow) at e) fits (omega (arith, k)) in
            (fee, limit, c ∷ before, after, rw is refl, said)
      ]

  pub from_start :
      (funding : Bool) (q : Phase) (log : List Call)
      → follow (advance sha256 swap required attempted) (if funding then found else seeking) log
        ≡ some q
      → 0 < count pays log
      → IsSafe log
  from_start true q log e k = found_first q log e k
  from_start false q log e k = seeking_first q log e k
