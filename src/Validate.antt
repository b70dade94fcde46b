-- ===== src/Validate.antt =====
-- swap-common/src/validate.rs: what a client checks of a quote, of the acceptance that answers it
-- and of the hold invoice, before it moves funds. Amounts are `u64`, heights `u32`.
pub mod Quotes
pub mod Accepts
pub mod Invoices
mod Examples
use pubky_swap.Prelude.{
  ℕ, ◌+◌, ◌-◌, ◌*◌, ◌/◌, max, Bool, true, false, not, ◌&&◌, ◌||◌, String, Option, none, some, List,
  Result, ok, err, ◌>>=◌, ◌>>◌, reject_if, ok_or, map_err, if◌then◌else◌, ltb, leb, eqb, ◌==◌,
  u32_max, u64_max, as_u32, as_u64, checked_add, checked_mul, saturating_add, saturating_mul,
}
use pubky_swap.Swap.{SwapDirection, submarine, reverse, direction_eq, Network, mainnet}
use pubky_swap.Timelock.{
  TimelockParams, TimelockViolation, check_client_reverse_accept, check_client_submarine_accept,
  client_claim_window,
}
use pubky_swap.Timelock
use pubky_swap.Messages.{
  Uuid, is_nil, Quote, QuoteRequest, SwapAccept, protocol_version_supported, is_expired,
}
use pubky_swap.Messages

abbrev pub max_quote_validity_secs : ℕ
max_quote_validity_secs = 3_600

-- `MAX_FUND_WITHIN_SECS`.
abbrev pub max_fund_within_secs : ℕ
max_fund_within_secs = 3_600

abbrev pub accept_timeout_slack_blocks : ℕ
accept_timeout_slack_blocks = 6

abbrev pub min_mainnet_confirmations : ℕ
min_mainnet_confirmations = 2

pub record ClientPolicy : Type 0 where
  pub min_required_confirmations : ℕ
  pub max_required_confirmations : ℕ
  pub max_fee_bps : ℕ
  pub max_total_sat : ℕ
  pub timelock : TimelockParams

-- The floor of `for_network`'s `match`.
abbrev pub confirmation_floor : Network → ℕ
confirmation_floor mainnet = min_mainnet_confirmations
confirmation_floor _ = 1

unfoldable pub for_network : Network → TimelockParams → ClientPolicy
for_network network timelock = record {
  min_required_confirmations = confirmation_floor network;
  max_required_confirmations = Timelock.max_required_confirmations;
  max_fee_bps = 500;
  max_total_sat = u64_max;
  timelock = timelock;
}

unfoldable pub effective_confirmations : ClientPolicy → ℕ → ℕ
effective_confirmations policy quoted = max quoted policy.min_required_confirmations

-- The arguments are the variant's fields in the source's order; an id stands for its printed form.
pub data ValidationError : Type 0 where
  quote_id_missing direction_mismatch quote_never_expires : ValidationError
  swap_id_missing payment_hash_mismatch invoice_has_no_amount overflow : ValidationError
  unsupported_protocol_version amount_mismatch quote_expired : ℕ → ℕ → ValidationError
  offer_mismatch : Uuid → Uuid → ValidationError
  quote_valid_too_long fund_within_too_long fee_too_high : ℕ → ℕ → ValidationError
  total_not_amount_plus_fee fee_itemisation_mismatch : ℕ → ℕ → ℕ → ValidationError
  total_too_large confirmations_too_low confirmations_too_high : ℕ → ℕ → ValidationError
  onchain_amount_mismatch invoice_amount_mismatch : ℕ → ℕ → ValidationError
  timeout_mismatch : ℕ → ℕ → ℕ → ValidationError
  timelock_violation : TimelockViolation → ValidationError
  invoice_expires_too_soon : ℕ → ℕ → ValidationError

abbrev pub Validation : Type 0
Validation = Result ValidationError (Unit {0})

-- The first half of `validate_quote`: identity, version and binding to the request.
unfoldable pub check_quote_binding : Quote → QuoteRequest → Validation
unfolding protocol_version_supported
check_quote_binding quote request = do
  reject_if (is_nil quote.quote_id) quote_id_missing
  reject_if (not (protocol_version_supported quote.protocol_version))
      (unsupported_protocol_version quote.protocol_version Messages.protocol_version)
  reject_if (not (is_nil request.offer_id) && not (eqb quote.offer_id request.offer_id))
      (offer_mismatch quote.offer_id request.offer_id)
  reject_if (not (quote.direction == request.direction)) direction_mismatch
  reject_if (not (eqb quote.amount_sat request.amount_sat))
      (amount_mismatch quote.amount_sat request.amount_sat)

-- How long the quote is valid, and how soon it is funded.
unfoldable pub check_quote_times : Quote → ℕ → Validation
unfolding is_expired
check_quote_times quote now_unix = do
  reject_if (eqb quote.valid_until_unix 0) quote_never_expires
  reject_if (is_expired quote now_unix) (quote_expired now_unix quote.valid_until_unix)
  let valid_for = quote.valid_until_unix - now_unix
  reject_if (ltb max_quote_validity_secs valid_for)
      (quote_valid_too_long valid_for max_quote_validity_secs)
  reject_if (ltb max_fund_within_secs quote.fund_within_secs)
      (fund_within_too_long quote.fund_within_secs max_fund_within_secs)

-- The fee's two parts bind only when one of them is present.
unfoldable pub check_itemisation : Quote → Validation
check_itemisation quote =
    if not (eqb quote.service_fee_sat 0) || not (eqb quote.onchain_fee_sat 0)
    then (do
      itemised ← ok_or (checked_add u64_max quote.service_fee_sat quote.onchain_fee_sat) overflow
      reject_if (not (eqb itemised quote.fee_sat))
          (fee_itemisation_mismatch quote.service_fee_sat quote.onchain_fee_sat quote.fee_sat))
    else ok tt

-- The amounts, and the confirmations that are asked for.
unfoldable pub check_quote_amounts : Quote → ClientPolicy → Validation
unfolding check_itemisation
check_quote_amounts quote policy = do
  expected_total ← ok_or (checked_add u64_max quote.amount_sat quote.fee_sat) overflow
  reject_if (not (eqb quote.total_sat expected_total))
      (total_not_amount_plus_fee quote.total_sat quote.amount_sat quote.fee_sat)
  check_itemisation quote
  let max_fee = as_u64 (quote.amount_sat * policy.max_fee_bps / 10_000)
  reject_if (ltb max_fee quote.fee_sat) (fee_too_high quote.fee_sat max_fee)
  reject_if (ltb policy.max_total_sat quote.total_sat)
      (total_too_large quote.total_sat policy.max_total_sat)
  reject_if (ltb quote.required_confirmations policy.min_required_confirmations)
      (confirmations_too_low quote.required_confirmations policy.min_required_confirmations)
  reject_if (ltb policy.max_required_confirmations quote.required_confirmations)
      (confirmations_too_high quote.required_confirmations policy.max_required_confirmations)

unfoldable pub validate_quote : Quote → QuoteRequest → ℕ → ClientPolicy → Validation
unfolding check_quote_binding check_quote_times check_quote_amounts
validate_quote quote request now_unix policy = do
  check_quote_binding quote request
  check_quote_times quote now_unix
  check_quote_amounts quote policy

-- What the direction's on-chain leg has to hold.
abbrev pub expected_onchain : SwapDirection → Quote → ℕ
expected_onchain submarine quote = quote.total_sat
expected_onchain reverse quote = quote.amount_sat

abbrev pub check_client_accept :
    SwapDirection → ℕ → ℕ → TimelockParams → Result TimelockViolation (Unit {0})
check_client_accept reverse tip timeout p = check_client_reverse_accept tip timeout p
check_client_accept submarine tip timeout p = check_client_submarine_accept tip timeout p

-- The second test adds without a check, so in a release build the sum wraps.
unfoldable pub timeout_is_off : ℕ → ℕ → Bool
timeout_is_off timeout implied =
    ltb (saturating_add u32_max implied accept_timeout_slack_blocks) timeout
    || ltb (as_u32 (timeout + accept_timeout_slack_blocks)) implied

-- The checks that need a tip.
unfoldable pub check_accept_timeout : SwapAccept → Quote → ℕ → ClientPolicy → Validation
unfolding effective_confirmations timeout_is_off
check_accept_timeout accept quote tip policy = do
  let implied = saturating_add u32_max tip quote.htlc_timeout_blocks
  reject_if (timeout_is_off accept.timeout_block_height implied)
      (timeout_mismatch accept.timeout_block_height implied accept_timeout_slack_blocks)
  map_err timelock_violation (
      check_client_accept quote.direction tip accept.timeout_block_height
        (record (policy.timelock) {
          required_confirmations = effective_confirmations policy quote.required_confirmations;
        }))

unfoldable pub validate_accept : SwapAccept → Quote → Option ℕ → ClientPolicy → Validation
unfolding check_accept_timeout
validate_accept accept quote tip policy = do
  reject_if (not (eqb accept.quote_id quote.quote_id))
      (offer_mismatch accept.quote_id quote.quote_id)
  reject_if (is_nil accept.swap_id) swap_id_missing
  reject_if (not (accept.direction == quote.direction)) direction_mismatch
  let expected = expected_onchain quote.direction quote
  reject_if (not (eqb accept.onchain_amount_sat expected))
      (onchain_amount_mismatch accept.onchain_amount_sat expected)
  elim tip [ none ↦ ok tt | some height ↦ check_accept_timeout accept quote height policy ]

-- A payment hash is 32 bytes, read as one number.
pub record DecodedHoldInvoice : Type 0 where
  pub payment_hash : ℕ
  pub amount_msat : ℕ
  pub amount_is_explicit : Bool
  pub expires_at_unix : ℕ

unfoldable pub validate_hold_invoice :
    DecodedHoldInvoice → Quote → ℕ → ℕ → ClientPolicy → Validation
unfolding effective_confirmations
validate_hold_invoice invoice quote our_payment_hash now_unix policy = do
  reject_if (not (eqb invoice.payment_hash our_payment_hash)) payment_hash_mismatch
  reject_if (not invoice.amount_is_explicit) invoice_has_no_amount
  want_msat ← ok_or (checked_mul u64_max quote.total_sat 1000) overflow
  reject_if (not (eqb invoice.amount_msat want_msat))
      (invoice_amount_mismatch invoice.amount_msat want_msat)
  let confirmations = effective_confirmations policy quote.required_confirmations
  blocks_needed ← ok_or (checked_add u64_max confirmations client_claim_window) overflow
  let need = saturating_add u64_max now_unix (saturating_mul u64_max blocks_needed 600)
  reject_if (not (eqb invoice.expires_at_unix 0) && ltb invoice.expires_at_unix need)
      (invoice_expires_too_soon invoice.expires_at_unix need)
