-- ===== src/Submarine/Payment.antt =====
-- The payment of the invoice in a submarine swap (swap-provider/src/submarine.rs).
use pubky_swap.Prelude.{
  ℕ, zero, suc, Bool, true, false, Option, none, some, List, [], ◌∷◌, Result, ok, err,
}
use pubky_swap.Onchain.Preimages.{Bytes}
use pubky_swap.Swap.{failed, invoice_pending}
use pubky_swap.Timelock.{check_submarine_before_pay, submarine_cltv_budget}
use pubky_swap.Driver.{Run, done, unfinished, ask, tell, ◌>>=◌, ◌>>◌}
use pubky_swap.Submarine.{
  SubmarineSwap, PaymentStatus, succeeded, in_flight, failed_with, unknown, not_found,
  LightningError, payment_failed, not_implemented, backend, invoice_not_found, Call, tip_height,
  payment_status, invoice_pay_started, pay_invoice, payment_refused, invoice_paid, Stage, proceed,
  stop, PaymentTurn,
}

-- The reasons are the source's without the detail that it prints in them.
module _ (swap : SubmarineSwap) where
  unfoldable pub on_paid : Result LightningError Bytes → Run Call (Stage (Option Bytes))
  on_paid (ok preimage) = do tell (invoice_paid preimage); done (proceed (some preimage))
  on_paid (err (payment_failed e)) = do
    tell payment_refused
    done (stop (failed "invoice payment failed"))
  on_paid (err (not_implemented e)) = do
    tell payment_refused
    done (stop (failed "invoice payment failed"))
  on_paid (err (backend e)) = done (stop invoice_pending)
  on_paid (err invoice_not_found) = done (stop invoice_pending)

  -- The marker, and then the irreversible call.
  unfoldable pub pay : PaymentTurn → ℕ → Run Call (Stage (Option Bytes))
  unfolding on_paid
  pay turn cltv_limit = do
    written ← ask turn.invoice_pay_started
    tell invoice_pay_started
    tell (pay_invoice swap.max_routing_fee_msat cltv_limit)
    on_paid turn.pay_invoice

  unfoldable pub attempt : PaymentTurn → Run Call (Stage (Option Bytes))
  unfolding pay
  attempt turn = do
    tip ← ask turn.tip
    tell (tip_height tip)
    elim (check_submarine_before_pay tip swap.timeout_height swap.timelock) [
      | err violation ↦ done (stop (failed "insufficient claim window"))
      | ok passed ↦ elim (submarine_cltv_budget tip swap.timeout_height swap.timelock) [
        | none ↦ done (stop (failed "no CLTV budget left to pay the invoice safely"))
        | some cltv_limit ↦ pay turn cltv_limit
      ]
    ]

  -- The node has no record of a payment: wait where the swap's record has one, pay otherwise.
  unfoldable pub on_no_record :
      Bool → PaymentTurn → Run Call (Stage (Option Bytes)) → Run Call (Stage (Option Bytes))
  unfolding attempt
  on_no_record true turn rest = rest
  on_no_record false turn rest = attempt turn

  unfoldable pub on_payment :
      Bool
      → PaymentTurn
      → Run Call (Stage (Option Bytes))
      → PaymentStatus
      → Run Call (Stage (Option Bytes))
  unfolding on_no_record
  on_payment marked turn rest (succeeded preimage) = do
    tell (invoice_paid preimage)
    done (proceed (some preimage))
  on_payment marked turn rest in_flight = rest
  on_payment marked turn rest (failed_with reason) = done (stop (failed "invoice payment failed"))
  on_payment marked turn rest unknown = on_no_record marked turn rest
  on_payment marked turn rest not_found = on_no_record marked turn rest

  -- The bounded loop, by the polls that are left; `none` where they are used up.
  unfoldable pub settle_payment : Bool → ℕ → List PaymentTurn → Run Call (Stage (Option Bytes))
  unfolding on_payment
  settle_payment marked zero turns = done (proceed none)
  settle_payment marked (suc polls) [] = unfinished
  settle_payment marked (suc polls) (turn ∷ turns) = do
    let rest = settle_payment marked polls turns
    status ← ask turn.status
    tell (payment_status status)
    on_payment marked turn rest status
