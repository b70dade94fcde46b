-- ===== src/Timelock/Submarine.antt =====
-- The provider's gates of a submarine swap (swap-common/src/timelock.rs).
use pubky_swap.Prelude.{ℕ, ◌+◌, ◌-◌, ◌≤◌, ◌<◌, ◌≡◌, ◌↔◌, some, ok, err, arith}
use pubky_swap.Timelock.{
  TimelockParams, check_submarine_before_pay, submarine_cltv_budget, check_submarine_invoice_cltv,
  claim_window_too_short, timeout_in_past,
}

-- The gate before the payment passes exactly when the timeout is ahead of the tip by the claim
-- window at least. Otherwise it names a timeout in the past, or the window that is too short.
pub check_submarine_before_pay_lem :
    (tip timeout : ℕ) (p : TimelockParams)
    → ((check_submarine_before_pay tip timeout p ≡ ok tt)
        ↔ ((tip < timeout) × (tip + p.min_claim_window_blocks ≤ timeout)))
      × ((check_submarine_before_pay tip timeout p ≡ err (timeout_in_past timeout tip))
          ↔ (timeout ≤ tip))
      × ((check_submarine_before_pay tip timeout p
            ≡ err (claim_window_too_short tip timeout p.min_claim_window_blocks))
          ↔ ((tip < timeout) × (timeout < tip + p.min_claim_window_blocks)))
unfolding check_submarine_before_pay
check_submarine_before_pay_lem tip timeout p = ground arith

-- The budget is what is left of the blocks to the timeout after the claim window, and there is
-- none when nothing is left: an outgoing HTLC that expires within it ends by the last height from
-- which a claim still has its window.
pub submarine_cltv_budget_lem :
    (tip timeout budget : ℕ) (p : TimelockParams)
    → (submarine_cltv_budget tip timeout p ≡ some budget)
      ↔ ((0 < budget) × (tip + budget + p.min_claim_window_blocks ≡ timeout))
unfolding submarine_cltv_budget
submarine_cltv_budget_lem tip timeout budget p = ground arith

-- An invoice passes exactly when its final CLTV demand ends before the claim window begins.
pub check_submarine_invoice_cltv-ok :
    (tip timeout min_final : ℕ) (p : TimelockParams)
    → (check_submarine_invoice_cltv tip timeout min_final p ≡ ok tt)
      ↔ (tip + min_final + p.min_claim_window_blocks < timeout)
unfolding check_submarine_invoice_cltv
check_submarine_invoice_cltv-ok tip timeout min_final p = ground arith

-- Where the client's invoice passed, the provider's gate before the payment passes at the same
-- tip, and there is a positive budget for the outgoing HTLC, above the invoice's own demand.
pub checked_invoice_can_be_paid :
    (tip timeout min_final : ℕ) (p : TimelockParams)
    → check_submarine_invoice_cltv tip timeout min_final p ≡ ok tt
    → (check_submarine_before_pay tip timeout p ≡ ok tt)
      × (submarine_cltv_budget tip timeout p ≡ some (timeout - tip - p.min_claim_window_blocks))
      × (min_final < timeout - tip - p.min_claim_window_blocks)
unfolding check_submarine_invoice_cltv check_submarine_before_pay submarine_cltv_budget
checked_invoice_can_be_paid tip timeout min_final p h = ground arith
