-- ===== src/Timelock.antt =====
-- swap-common/src/timelock.rs: the ordering of the on-chain and the Lightning clock. Heights and
-- deltas are `u32`: additions are checked, and a subtraction stands under the test that it fits.
pub mod Reverse
pub mod Submarine
pub mod Clients
pub mod Params
mod Examples
use pubky_swap.Prelude.{
  ℕ, ◌+◌, ◌-◌, ◌*◌, ◌≤◌, ◌<◌, max, ◌≡◌, Bool, true, false, ◌&&◌, String, Option, none, some, Result,
  ok, err, ◌>>=◌, ◌>>◌, reject_if, ok_or, and_then, if◌then◌else◌, ltb, leb, u32_max, u64_max,
  checked_add, checked_sub, saturating_add, saturating_mul,
}

abbrev pub refund_confirm : ℕ
refund_confirm = 18

abbrev pub ln_hold_expiry : ℕ
ln_hold_expiry = 24

abbrev pub reverse_late_payment_slack : ℕ
reverse_late_payment_slack = 30

abbrev pub provider_min_claim_window : ℕ
provider_min_claim_window = 18

abbrev pub client_claim_window : ℕ
client_claim_window = 18

abbrev pub seconds_per_block : ℕ
seconds_per_block = 600

abbrev pub claim_abort_margin : ℕ
claim_abort_margin = 6

abbrev pub funding_grace : ℕ
funding_grace = 6

abbrev pub max_timeout : ℕ
max_timeout = 1_008

-- `validate::MAX_REQUIRED_CONFIRMATIONS`, which this module reads.
abbrev pub max_required_confirmations : ℕ
max_required_confirmations = 12

pub record TimelockParams : Type 0 where
  pub htlc_timeout_blocks : ℕ
  pub required_confirmations : ℕ
  pub min_claim_window_blocks : ℕ
  pub refund_confirm_blocks : ℕ
  pub ln_hold_expiry_delta : ℕ
  pub late_payment_slack : ℕ
  pub max_timeout_blocks : ℕ

abbrev pub default_params : TimelockParams
default_params = record {
  htlc_timeout_blocks = 144;
  required_confirmations = 1;
  min_claim_window_blocks = provider_min_claim_window;
  refund_confirm_blocks = refund_confirm;
  ln_hold_expiry_delta = ln_hold_expiry;
  late_payment_slack = reverse_late_payment_slack;
  max_timeout_blocks = max_timeout;
}

-- The arguments are the variant's fields in the source's order.
pub data TimelockViolation : Type 0 where
  ln_expiry_too_early : ℕ → ℕ → ℕ → TimelockViolation
  claim_window_too_short : ℕ → ℕ → ℕ → TimelockViolation
  ln_expiry_too_late : ℕ → ℕ → ℕ → TimelockViolation
  timeout_too_far : ℕ → ℕ → ℕ → TimelockViolation
  timeout_in_past : ℕ → ℕ → TimelockViolation
  params_unsatisfiable : String → TimelockViolation
  overflow : TimelockViolation

abbrev pub Check : Type 0
Check = Result TimelockViolation (Unit {0})

unfoldable pub reverse_invoice_min_expiry_secs : ℕ → ℕ
reverse_invoice_min_expiry_secs required =
    let confirmations = max required max_required_confirmations in
    saturating_mul u64_max (saturating_add u32_max confirmations client_claim_window)
      seconds_per_block

unfoldable pub onchain_timeout : ℕ → TimelockParams → Result TimelockViolation ℕ
onchain_timeout tip p = ok_or (checked_add u32_max tip p.htlc_timeout_blocks) overflow

unfoldable pub reverse_invoice_cltv_delta : TimelockParams → Result TimelockViolation ℕ
reverse_invoice_cltv_delta p =
    ok_or
      (and_then
        (and_then (checked_add u32_max p.htlc_timeout_blocks p.refund_confirm_blocks)
          λ v. checked_add u32_max v p.ln_hold_expiry_delta)
        λ v. checked_add u32_max v p.late_payment_slack)
      overflow

unfoldable pub required_ln_expiry : ℕ → TimelockParams → Result TimelockViolation ℕ
required_ln_expiry timeout p =
    ok_or
      (and_then (checked_add u32_max timeout p.refund_confirm_blocks)
        λ v. checked_add u32_max v p.ln_hold_expiry_delta)
      overflow

-- `checked_add` of three numbers, with the error of the source.
abbrev pub sum_of_three : ℕ → ℕ → ℕ → Result TimelockViolation ℕ
sum_of_three a b c =
    ok_or (and_then (checked_add u32_max a b) λ v. checked_add u32_max v c) overflow

unfoldable pub check_reverse_before_fund : ℕ → ℕ → ℕ → TimelockParams → Check
unfolding required_ln_expiry
check_reverse_before_fund tip timeout ln_expiry p = do
  need ← required_ln_expiry timeout p
  reject_if (ltb ln_expiry need) (ln_expiry_too_early ln_expiry timeout need)
  need_blocks ← sum_of_three p.required_confirmations client_claim_window p.refund_confirm_blocks
  reject_if (ltb (timeout - tip) need_blocks) (claim_window_too_short tip timeout need_blocks)

unfoldable pub check_submarine_before_pay : ℕ → ℕ → TimelockParams → Check
check_submarine_before_pay tip timeout p = do
  reject_if (leb timeout tip) (timeout_in_past timeout tip)
  reject_if (ltb (timeout - tip) p.min_claim_window_blocks)
      (claim_window_too_short tip timeout p.min_claim_window_blocks)

unfoldable pub submarine_cltv_budget : ℕ → ℕ → TimelockParams → Option ℕ
submarine_cltv_budget tip timeout p =
    and_then (and_then (checked_sub timeout tip) λ left. checked_sub left p.min_claim_window_blocks)
      λ budget. if ltb 0 budget then some budget else none

unfoldable pub check_submarine_invoice_cltv : ℕ → ℕ → ℕ → TimelockParams → Check
unfolding submarine_cltv_budget
check_submarine_invoice_cltv tip timeout min_final p = do
  budget ←
      ok_or (submarine_cltv_budget tip timeout p)
        (claim_window_too_short tip timeout p.min_claim_window_blocks)
  reject_if (leb budget min_final) (
      ln_expiry_too_late (saturating_add u32_max tip min_final) timeout
        (saturating_add u32_max tip budget))

unfoldable pub check_timeout_ceiling : ℕ → ℕ → TimelockParams → Check
check_timeout_ceiling tip timeout p = do
  reject_if (leb timeout tip) (timeout_in_past timeout tip)
  reject_if (ltb p.max_timeout_blocks (timeout - tip))
      (timeout_too_far timeout tip p.max_timeout_blocks)

unfoldable pub check_client_reverse_accept : ℕ → ℕ → TimelockParams → Check
unfolding check_timeout_ceiling
check_client_reverse_accept tip timeout p = do
  check_timeout_ceiling tip timeout p
  need ← sum_of_three p.required_confirmations client_claim_window claim_abort_margin
  reject_if (ltb (timeout - tip) need) (claim_window_too_short tip timeout need)

unfoldable pub check_client_submarine_accept : ℕ → ℕ → TimelockParams → Check
unfolding check_timeout_ceiling
check_client_submarine_accept tip timeout p = do
  check_timeout_ceiling tip timeout p
  need ← sum_of_three p.required_confirmations provider_min_claim_window funding_grace
  reject_if (ltb (timeout - tip) need) (claim_window_too_short tip timeout need)

unfoldable pub claim_start_is_safe : ℕ → ℕ → Bool
claim_start_is_safe tip timeout = ltb tip timeout && ltb claim_abort_margin (timeout - tip)

abbrev pub timeout_too_short : String
timeout_too_short =
    "htlc_timeout_blocks is shorter than required_confirmations + funding grace + min_claim_window_blocks"

abbrev pub timeout_over_ceiling : String
timeout_over_ceiling = "htlc_timeout_blocks exceeds max_timeout_blocks"

abbrev pub delta_over_ceiling : String
delta_over_ceiling =
    "the derived hold-invoice CLTV delta exceeds the 2016-block ceiling most Lightning nodes enforce; lower htlc_timeout_blocks"

unfoldable pub validate_params : TimelockParams → Check
unfolding reverse_invoice_cltv_delta
validate_params p = do
  need ← sum_of_three p.required_confirmations funding_grace p.min_claim_window_blocks
  reject_if (ltb p.htlc_timeout_blocks need) (params_unsatisfiable timeout_too_short)
  reject_if (ltb p.max_timeout_blocks p.htlc_timeout_blocks)
      (params_unsatisfiable timeout_over_ceiling)
  delta ← reverse_invoice_cltv_delta p
  reject_if (ltb 2016 delta) (params_unsatisfiable delta_over_ceiling)
