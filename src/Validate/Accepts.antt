-- ===== src/Validate/Accepts.antt =====
-- What a validated acceptance guarantees the client (swap-common/src/validate.rs).
use pubky_swap.Prelude.{ℕ, ◌+◌, ◌≤◌, ◌<◌, ◌≡◌, ◌≢◌, some, ok, arith, u32_max}
use pubky_swap.Swap.{direction_eq, direction_beq_iff}
use pubky_swap.Timelock.{check_client_reverse_accept, check_client_submarine_accept}
use pubky_swap.Messages.{Quote, SwapAccept}
use pubky_swap.Validate.{
  ClientPolicy, expected_onchain, check_accept_timeout, validate_accept,
  accept_timeout_slack_blocks,
}

-- The acceptance names the quote and a swap, in the quote's direction, with exactly the amount on
-- chain that the quote agreed.
pub record Matches (accept : SwapAccept) (quote : Quote) : Type 0 where
  pub quote_id : accept.quote_id ≡ quote.quote_id
  pub identified : accept.swap_id ≢ 0
  pub direction : accept.direction ≡ quote.direction
  pub amount : accept.onchain_amount_sat ≡ expected_onchain quote.direction quote

-- Its timeout is within six blocks of the one that the quote implied at this tip, and leaves the
-- client's own confirmations and claim window before it.
pub record IsTimely (timeout : ℕ) (quote : Quote) (tip : ℕ) (policy : ClientPolicy) : Type 0 where
  pub above : timeout ≤ tip + quote.htlc_timeout_blocks + accept_timeout_slack_blocks
  pub below : tip + quote.htlc_timeout_blocks ≤ timeout + accept_timeout_slack_blocks
  pub ahead : tip < timeout
  pub ceiling : timeout ≤ tip + policy.timelock.max_timeout_blocks
  pub window : tip + quote.required_confirmations + 24 ≤ timeout
  pub own_window : tip + policy.min_required_confirmations + 24 ≤ timeout

check_accept_timeout-ok :
    (accept : SwapAccept) (quote : Quote) (tip : ℕ) (policy : ClientPolicy)
    → accept.timeout_block_height ≤ u32_max
    → tip + quote.htlc_timeout_blocks ≤ u32_max
    → check_accept_timeout accept quote tip policy ≡ ok tt
    → IsTimely accept.timeout_block_height quote tip policy
unfolding check_accept_timeout check_client_reverse_accept check_client_submarine_accept
check_accept_timeout-ok accept quote tip policy ha hi h = ground arith

-- An acceptance that passes matches the quote, and with a tip at hand its timeout is the one that
-- the quote implied, within the slack, with the client's window before it: the addition that can
-- wrap lets no other timeout through.
pub validate_accept_sound :
    (accept : SwapAccept) (quote : Quote) (tip : ℕ) (policy : ClientPolicy)
    → accept.timeout_block_height ≤ u32_max
    → tip + quote.htlc_timeout_blocks ≤ u32_max
    → validate_accept accept quote (some tip) policy ≡ ok tt
    → Matches accept quote × IsTimely accept.timeout_block_height quote tip policy
unfolding validate_accept
validate_accept_sound accept quote tip policy ha hi h =
    ground (arith, check_accept_timeout-ok accept quote tip policy)

check_accept_timeout_of :
    (accept : SwapAccept) (quote : Quote) (tip : ℕ) (policy : ClientPolicy)
    → accept.timeout_block_height + accept_timeout_slack_blocks ≤ u32_max
    → IsTimely accept.timeout_block_height quote tip policy
    → check_accept_timeout accept quote tip policy ≡ ok tt
unfolding check_accept_timeout check_client_reverse_accept check_client_submarine_accept
check_accept_timeout_of accept quote tip policy ha t = ground arith

-- Conversely an acceptance that matches the quote passes with any tip at which its timeout is the
-- one that the quote implied, within the slack, with the client's window before it, if the timeout
-- is at least six below the largest `u32`.
pub validate_accept_complete :
    (accept : SwapAccept) (quote : Quote) (tip : ℕ) (policy : ClientPolicy)
    → accept.timeout_block_height + accept_timeout_slack_blocks ≤ u32_max
    → Matches accept quote
    → IsTimely accept.timeout_block_height quote tip policy
    → validate_accept accept quote (some tip) policy ≡ ok tt
unfolding validate_accept
validate_accept_complete accept quote tip policy ha m t = ground (
  arith,
  check_accept_timeout_of accept quote tip policy ha t,
  direction_beq_iff accept.direction quote.direction,
)
