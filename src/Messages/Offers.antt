-- ===== src/Messages/Offers.antt =====
-- Fees and amounts of an offer (swap-common/src/messages.rs).
use pubky_swap.Prelude.{ℕ, ◌+◌, ◌*◌, ◌/◌, ◌≤◌, ◌≡◌, ◌↔◌, true, arith, u64_max}
use pubky_swap.Messages.{SwapOffer, quote_fee, accepts_amount, min_amount_fee_multiple}

-- Where the whole fee stays below 2^64, the quoted fee is the base fee, the proportional part
-- rounded down and the on-chain part, and its two parts add up to the total.
pub quote_fee_exact :
    (o : SwapOffer) (amount : ℕ)
    → o.base_fee_sat + amount * o.fee_ppm / 1_000_000 + o.onchain_fee_sat ≤ u64_max
    → ((quote_fee o amount).service_fee_sat ≡ o.base_fee_sat + amount * o.fee_ppm / 1_000_000)
      × ((quote_fee o amount).onchain_fee_sat ≡ o.onchain_fee_sat)
      × ((quote_fee o amount).total_fee_sat
          ≡ (quote_fee o amount).service_fee_sat + (quote_fee o amount).onchain_fee_sat)
unfolding quote_fee
quote_fee_exact o amount h = omega arith

-- An amount is accepted exactly when it is within the configured bounds and at least ten times
-- the on-chain cost (for a cost whose multiple is below 2^64).
pub accepts_amount_iff :
    (o : SwapOffer) (amount : ℕ)
    → o.onchain_fee_sat * min_amount_fee_multiple ≤ u64_max
    → (accepts_amount o amount ≡ true) ↔ (
        (o.min_amount_sat ≤ amount)
        × (o.onchain_fee_sat * min_amount_fee_multiple ≤ amount)
        × (amount ≤ o.max_amount_sat))
unfolding accepts_amount
accepts_amount_iff o amount h = ground arith
