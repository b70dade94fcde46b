-- ===== src/Submarine/Protocol.antt =====
-- What a submarine swap promises, as a protocol that knows nothing of the driver: the phases of
-- the payment, and which call may be made in which phase (swap-provider/src/submarine.rs).
use pubky_swap.Prelude.{
  ℕ, ◌+◌, ◌≤◌, ◌≡◌, Bool, true, false, not, ◌&&◌, Option, none, some, List, arith, ok, err, eqb,
  leb, if◌then◌else◌,
}
use pubky_swap.Onchain.Preimages.{Bytes, PaymentHash}
use pubky_swap.Swap.{SwapState, claimed, expired, failed, invoice_pending}
use pubky_swap.Timelock.{Check, check_submarine_before_pay, submarine_cltv_budget}
use pubky_swap.Driver.Traces.{follow}
use pubky_swap.Driver.Counts.{count, count-follow}
use pubky_swap.Submarine.{
  SubmarineSwap, PaymentStatus, succeeded, in_flight, failed_with, unknown, not_found, Call,
  tip_height, funded, outpoint_status, htlc_spent, payment_status, invoice_pay_started, pay_invoice,
  payment_refused, invoice_paid, spend_broadcast, claim_confirmed,
}

pub data Phase : Type 0 where
  -- The client has not funded.
  seeking : Phase
  -- The outpoint is known.
  found : Phase
  -- It is buried, and no payment was attempted.
  deep : Phase
  -- The node has no record of a payment.
  denied : Phase
  -- A payment may be made, with this limit on its expiry, if with any.
  ready : Option ℕ → Phase
  -- The payment is about to be made.
  intended : ℕ → Phase
  -- A payment is out, or one of an earlier run may be.
  sent owed : Phase
  -- No payment is out, or will be.
  rejected : Phase
  -- The preimage is in hand.
  bought : Bytes → Phase
  -- The claim is final, or was found made.
  complete spent : Phase

-- The limit under which a payment is safe at this tip.
abbrev pub limit_if_passed : Check → Option ℕ → Option ℕ
limit_if_passed (ok passed) budget = budget
limit_if_passed (err violation) budget = none

unfoldable pub pay_limit : SubmarineSwap → ℕ → Option ℕ
pay_limit swap tip =
    limit_if_passed (check_submarine_before_pay tip swap.timeout_height swap.timelock)
      (submarine_cltv_budget tip swap.timeout_height swap.timelock)

-- After the node's answer about the payment, by the phase where it settles nothing and the one
-- where it has no record of it.
unfoldable pub after_status : Phase → Phase → PaymentStatus → Phase
after_status waiting unrecorded (succeeded preimage) = sent
after_status waiting unrecorded (failed_with reason) = rejected
after_status waiting unrecorded in_flight = waiting
after_status waiting unrecorded unknown = unrecorded
after_status waiting unrecorded not_found = unrecorded

unfoldable pub after_lost : PaymentStatus → Phase
after_lost (failed_with reason) = rejected
after_lost _ = found

module _ (sha256 : Bytes → PaymentHash) (swap : SubmarineSwap) (required : ℕ)
    (already_attempted : Bool) where
  unfoldable pub advance : Phase → Call → Option Phase
  unfolding after_status after_lost pay_limit
  advance seeking (tip_height tip) = some seeking
  advance seeking (funded outpoint) = some found
  advance found htlc_spent = some spent
  advance found (outpoint_status none) = some found
  -- Only from here, buried and not attempted before, can a payment be made.
  advance found (outpoint_status (some depth)) =
      some (if already_attempted then owed else if leb required depth then deep else found)
  advance found (payment_status status) = some (after_lost status)
  advance deep (payment_status status) = some (after_status deep denied status)
  advance denied (tip_height tip) = some (ready (pay_limit swap tip))
  advance (ready (some limit)) invoice_pay_started = some (intended limit)
  advance (intended limit) (pay_invoice max_fee asked) =
      if eqb max_fee swap.max_routing_fee_msat && eqb asked limit then some sent else none
  advance sent payment_refused = some rejected
  advance sent (invoice_paid preimage) = some (bought preimage)
  advance owed (payment_status status) = some (after_status owed owed status)
  advance (bought preimage) (spend_broadcast txid) =
      if eqb (sha256 preimage) swap.payment_hash then some (bought preimage) else none
  advance (bought preimage) (claim_confirmed txid) =
      if eqb (sha256 preimage) swap.payment_hash then some complete else none
  advance _ _ = none

-- The state that a swap may report in a phase: a failure never while a payment may be out.
unfoldable pub reports : Bool → SwapState → Phase → Bool
reports already_attempted claimed complete = true
reports already_attempted claimed spent = true
reports already_attempted expired seeking = true
reports already_attempted invoice_pending sent = true
reports already_attempted invoice_pending owed = true
reports already_attempted invoice_pending deep = true
reports already_attempted invoice_pending found = true
reports already_attempted (failed reason) seeking = true
reports already_attempted (failed reason) rejected = true
reports already_attempted (failed reason) (ready limit) = true
reports already_attempted (failed reason) (bought preimage) = true
reports already_attempted (failed reason) found = not already_attempted
reports _ _ _ = false

abbrev pub pays : Call → ℕ
pays (pay_invoice max_fee limit) = 1
pays _ = 0

abbrev pub may_pay : Bool → Phase → ℕ
may_pay already_attempted seeking = if already_attempted then 0 else 1
may_pay already_attempted found = if already_attempted then 0 else 1
may_pay already_attempted deep = 1
may_pay already_attempted denied = 1
may_pay already_attempted (ready limit) = 1
may_pay already_attempted (intended limit) = 1
may_pay _ _ = 0

module _ (sha256 : Bytes → PaymentHash) (swap : SubmarineSwap) (required : ℕ) where
  pays_step :
      (already_attempted : Bool) (p q : Phase) (c : Call)
      → advance sha256 swap required already_attempted p c ≡ some q
      → pays c + may_pay already_attempted q ≤ may_pay already_attempted p
  unfolding advance
  pays_step true seeking q c h = ground arith
  pays_step false seeking q c h = ground arith
  pays_step true p q c h = ground arith
  pays_step false p q c h = ground arith

  pub pays_once :
      (already_attempted : Bool) (p q : Phase) (cs : List Call)
      → follow (advance sha256 swap required already_attempted) p cs ≡ some q
      → count pays cs ≤ may_pay already_attempted p
  pays_once a p q cs h =
      omega (
        arith,
        count-follow (advance sha256 swap required a) pays (may_pay a) (pays_step a) p q cs h,
      )
