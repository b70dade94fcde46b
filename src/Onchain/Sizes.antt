-- ===== src/Onchain/Sizes.antt =====
-- Sizes of the two spends, and the expected cost of a swap (swap-common/src/onchain.rs,
-- swap-provider/src/pricing.rs).
use pubky_swap.Prelude.{ℕ, ◌+◌, ◌*◌, ◌≤◌, true, false, arith}
use pubky_swap.Swap.{SwapDirection}
use pubky_swap.Onchain.{spend_vsize, base_vsize, expected_onchain_cost_sat}

-- A claim is the larger spend of one HTLC, by the preimage and the selector: eight or nine vbytes.
pub spend_vsize_claim :
    (script_len dest_len : ℕ)
    → (spend_vsize script_len dest_len false + 8 ≤ spend_vsize script_len dest_len true)
      × (spend_vsize script_len dest_len true ≤ spend_vsize script_len dest_len false + 9)
unfolding spend_vsize
spend_vsize_claim script_len dest_len = omega arith

mul_mono : (a r s : ℕ) → r ≤ s → a * r ≤ a * s
mul_mono a r s h = grind arith

-- The expected cost rises with the fee rate in both directions, saturation included.
pub expected_cost_mono :
    (d : SwapDirection) (r s script_len dest_len : ℕ)
    → r ≤ s
    → expected_onchain_cost_sat d r script_len dest_len
      ≤ expected_onchain_cost_sat d s script_len dest_len
unfolding expected_onchain_cost_sat
expected_cost_mono d r s script_len dest_len h =
    omega (arith, mul_mono (base_vsize d script_len dest_len) r s h)
