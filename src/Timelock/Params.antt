-- ===== src/Timelock/Params.antt =====
-- Startup validation of the parameters (swap-common/src/timelock.rs).
use pubky_swap.Prelude.{ℕ, ◌+◌, ◌≤◌, ◌≡◌, ◌↔◌, ok, arith, u32_max}
use pubky_swap.Timelock.{
  TimelockParams, onchain_timeout, check_submarine_before_pay, check_client_submarine_accept,
  validate_params, funding_grace, provider_min_claim_window,
}

-- Parameters are accepted exactly when the timeout covers the confirmations, the funding grace
-- and the claim window, does not exceed the ceiling, and gives a CLTV delta of 2016 blocks at most.
pub validate_params-ok :
    (p : TimelockParams)
    → p.htlc_timeout_blocks ≤ u32_max
    → (validate_params p ≡ ok tt) ↔ (
        (p.required_confirmations + funding_grace + p.min_claim_window_blocks
          ≤ p.htlc_timeout_blocks)
        × (p.htlc_timeout_blocks ≤ p.max_timeout_blocks)
        × (p.htlc_timeout_blocks + p.refund_confirm_blocks + p.ln_hold_expiry_delta
              + p.late_payment_slack
            ≤ 2016))
unfolding validate_params
validate_params-ok p h = ground arith

-- A provider with validated parameters offers submarine timeouts that a client accepts at the
-- same tip, where the client asks for no more confirmations, allows timeouts as long, and the
-- provider's own claim window is the protocol's at least.
pub validated_timeout_is_accepted :
    (tip t : ℕ) (p c : TimelockParams)
    → validate_params p ≡ ok tt
    → onchain_timeout tip p ≡ ok t
    → provider_min_claim_window ≤ p.min_claim_window_blocks
    → c.required_confirmations ≤ p.required_confirmations
    → p.htlc_timeout_blocks ≤ c.max_timeout_blocks
    → (check_client_submarine_accept tip t c ≡ ok tt) × (check_submarine_before_pay tip t p ≡ ok tt)
unfolding validate_params onchain_timeout check_client_submarine_accept check_submarine_before_pay
validated_timeout_is_accepted tip t p c hv ht hw hc hm = ground arith
