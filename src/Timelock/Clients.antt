-- ===== src/Timelock/Clients.antt =====
-- The client's gates on a proposed timeout, and its first claim (swap-common/src/timelock.rs).
use pubky_swap.Prelude.{ℕ, ◌+◌, ◌≤◌, ◌<◌, ◌≡◌, ◌↔◌, true, ok, arith, u32_max}
use pubky_swap.Timelock.{
  TimelockParams, check_client_reverse_accept, check_client_submarine_accept, claim_start_is_safe,
  client_claim_window, claim_abort_margin, funding_grace, provider_min_claim_window,
}

-- A reverse timeout is accepted exactly when it lies ahead of the tip, no further than the
-- ceiling, and leaves the confirmations, the claim window and the abort margin. The timeout is a
-- `u32` value.
pub check_client_reverse_accept-ok :
    (tip timeout : ℕ) (p : TimelockParams)
    → timeout ≤ u32_max
    → (check_client_reverse_accept tip timeout p ≡ ok tt) ↔ (
        (tip < timeout)
        × (timeout ≤ tip + p.max_timeout_blocks)
        × (tip + p.required_confirmations + client_claim_window + claim_abort_margin ≤ timeout))
unfolding check_client_reverse_accept
check_client_reverse_accept-ok tip timeout p ht = ground arith

-- The same for a submarine timeout, with the provider's claim window and the funding grace.
pub check_client_submarine_accept-ok :
    (tip timeout : ℕ) (p : TimelockParams)
    → timeout ≤ u32_max
    → (check_client_submarine_accept tip timeout p ≡ ok tt) ↔ (
        (tip < timeout)
        × (timeout ≤ tip + p.max_timeout_blocks)
        × (tip + p.required_confirmations + provider_min_claim_window + funding_grace ≤ timeout))
unfolding check_client_submarine_accept
check_client_submarine_accept-ok tip timeout p ht = ground arith

-- An accepted reverse timeout leaves a first claim safe at every height before the confirmations
-- and the claim window have passed since the tip at which it was accepted.
pub accepted_claim_is_safe :
    (tip timeout now : ℕ) (p : TimelockParams)
    → check_client_reverse_accept tip timeout p ≡ ok tt
    → now < tip + p.required_confirmations + client_claim_window
    → claim_start_is_safe now timeout ≡ true
unfolding check_client_reverse_accept claim_start_is_safe
accepted_claim_is_safe tip timeout now p h early = ground arith
