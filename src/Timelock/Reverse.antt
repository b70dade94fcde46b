-- ===== src/Timelock/Reverse.antt =====
-- The provider's gate before it funds a reverse swap (swap-common/src/timelock.rs).
use pubky_swap.Prelude.{ℕ, ◌+◌, ◌-◌, ◌≤◌, ◌<◌, ◌≡◌, ◌↔◌, ok, err, arith, u32_max}
use pubky_swap.Timelock.{
  TimelockParams, onchain_timeout, reverse_invoice_cltv_delta, check_reverse_before_fund,
  client_claim_window, ln_expiry_too_early,
}

-- The gate passes exactly when the Lightning HTLC outlives the on-chain timeout by the refund
-- window and the node's reserve, and the blocks to that timeout cover the confirmations, the
-- client's claim window and the refund window. Heights are `u32` values.
pub check_reverse_before_fund-ok :
    (tip timeout ln_expiry : ℕ) (p : TimelockParams)
    → timeout ≤ u32_max
    → ln_expiry ≤ u32_max
    → (check_reverse_before_fund tip timeout ln_expiry p ≡ ok tt) ↔ (
        (timeout + p.refund_confirm_blocks + p.ln_hold_expiry_delta ≤ ln_expiry)
        × (p.required_confirmations + client_claim_window + p.refund_confirm_blocks
            ≤ timeout - tip))
unfolding check_reverse_before_fund
check_reverse_before_fund-ok tip timeout ln_expiry p ht hl = ground arith

-- The terms that the provider issues satisfy its own gate: for a timeout fixed at the accept
-- height `tip` and an invoice with the derived CLTV delta, a payment routed at any later height
-- `paid` passes the gate at `now`, while the confirmations, the claim window and the refund window
-- still fit before the timeout.
pub issued_terms_pass :
    (tip now paid t d : ℕ) (p : TimelockParams)
    → onchain_timeout tip p ≡ ok t
    → reverse_invoice_cltv_delta p ≡ ok d
    → tip ≤ paid
    → paid + d ≤ u32_max
    → now + p.required_confirmations + client_claim_window + p.refund_confirm_blocks ≤ t
    → check_reverse_before_fund now t (paid + d) p ≡ ok tt
unfolding onchain_timeout reverse_invoice_cltv_delta check_reverse_before_fund
issued_terms_pass tip now paid t d p ht hd late fits room = ground arith

-- A realised expiry that falls short of the refund window and the reserve is refused as the theft
-- condition, whatever the remaining blocks are.
pub check_reverse_before_fund-early :
    (tip timeout ln_expiry : ℕ) (p : TimelockParams)
    → timeout + p.refund_confirm_blocks + p.ln_hold_expiry_delta ≤ u32_max
    → ln_expiry < timeout + p.refund_confirm_blocks + p.ln_hold_expiry_delta
    → check_reverse_before_fund tip timeout ln_expiry p
      ≡ err (
          ln_expiry_too_early ln_expiry timeout
            (timeout + p.refund_confirm_blocks + p.ln_hold_expiry_delta))
unfolding check_reverse_before_fund
check_reverse_before_fund-early tip timeout ln_expiry p fits early = ground arith
