-- ===== src/Onchain.antt =====
-- swap-common/src/onchain.rs and swap-provider/src/pricing.rs: the size and the fee of the
-- spends of an HTLC, and what a swap is expected to cost the provider. Scripts enter by their
-- length in bytes; sizes and rates are `u64`.
pub mod Rates
pub mod Sizes
pub mod Preimages
use pubky_swap.Prelude.{
  ℕ, ◌+◌, ◌-◌, ◌*◌, ◌/◌, ◌≤◌, min, max, Bool, true, false, Option, none, some, unwrap_or,
  if◌then◌else◌, leb, u32_max, u64_max, as_u64, saturating_add, saturating_mul,
}
use pubky_swap.Swap.{SwapDirection, submarine, reverse}

unfoldable pub varint_len : ℕ → ℕ
varint_len n =
    if leb n 0xfc then 1 else if leb n 0xffff then 3 else if leb n 0xffff_ffff then 5 else 9

-- `weight.div_ceil(4)` of the one-input, one-output spend; `+` does not overflow for the lengths
-- of scripts that fit in memory.
unfoldable pub spend_vsize : ℕ → ℕ → Bool → ℕ
unfolding varint_len
spend_vsize script_len dest_len is_claim =
    let base = 4 + 1 + 36 + 1 + 4 + 1 + 8 + 1 + dest_len + 4 in
    let common = 1 + 1 + 72 + varint_len script_len + script_len in
    let witness = common + (if is_claim then 1 + 32 + 1 + 1 else 1) in
    (base * 4 + witness + 2 + 3) / 4

unfoldable pub estimate_spend_fee : ℕ → ℕ → ℕ
estimate_spend_fee fee_rate vsize = saturating_mul u64_max vsize fee_rate

unfoldable pub resolve_fee_rate : Option ℕ → ℕ → ℕ → ℕ
resolve_fee_rate estimate floor cap = min (max (unwrap_or estimate floor) floor) (max cap floor)

unfoldable pub fee_rate_cap : ℕ → ℕ → ℕ → ℕ → ℕ → ℕ
fee_rate_cap htlc_value vsize max_fee_bps absolute_cap floor =
    let max_fee = as_u64 (htlc_value * max_fee_bps / 10_000) in
    max (min (max_fee / max vsize 1) absolute_cap) floor

unfoldable pub target_for_remaining : ℕ → ℕ
target_for_remaining remaining =
    if leb remaining 3
    then 1
    else if leb remaining 9
    then 2
    else if leb remaining 19
    then 3
    else if leb remaining 49
    then 6
    else 12

-- Blocks to the deadline; none is `u32::MAX` away.
abbrev pub remaining_blocks : ℕ → Option ℕ → ℕ
remaining_blocks tip none = u32_max
remaining_blocks tip (some deadline) = deadline - tip

unfoldable pub deadline_fee_rate : ℕ → Option ℕ → ℕ → (ℕ → Option ℕ) → ℕ → ℕ → ℕ
unfolding target_for_remaining
deadline_fee_rate tip deadline previous estimate_for floor cap_rate =
    let cap' = max cap_rate floor in
    let bumped = saturating_add u64_max (saturating_add u64_max previous (previous / 4)) 1 in
    let min_bump = max bumped floor in
    let remaining = remaining_blocks tip deadline in
    if leb remaining 2
    then cap'
    else min (max (unwrap_or (estimate_for (target_for_remaining remaining)) 0) min_bump) cap'

abbrev pub funding_vsize : ℕ
funding_vsize = 154

abbrev pub refund_reserve_bps : ℕ
refund_reserve_bps = 2_500

abbrev pub fee_safety_bps : ℕ
fee_safety_bps = 15_000

-- The transactions that the provider expects to pay for in a direction.
unfoldable pub base_vsize : SwapDirection → ℕ → ℕ → ℕ
unfolding spend_vsize
base_vsize reverse script_len dest_len =
    funding_vsize
    + saturating_mul u64_max (spend_vsize script_len dest_len false) refund_reserve_bps / 10_000
base_vsize submarine script_len dest_len = spend_vsize script_len dest_len true

unfoldable pub expected_onchain_cost_sat : SwapDirection → ℕ → ℕ → ℕ → ℕ
unfolding base_vsize
expected_onchain_cost_sat direction fee_rate script_len dest_len =
    let point = saturating_mul u64_max (base_vsize direction script_len dest_len) fee_rate in
    saturating_mul u64_max point fee_safety_bps / 10_000
