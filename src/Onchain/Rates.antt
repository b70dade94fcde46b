-- ===== src/Onchain/Rates.antt =====
-- Bounds on the fee rates that a spend is priced and bumped at (swap-common/src/onchain.rs).
use pubky_swap.Prelude.{
  ℕ, ◌+◌, ◌*◌, ◌/◌, ◌≤◌, ◌<◌, ◌≡◌, ◌⊎◌, inl, inr, min, max, Option, none, some, arith, u64_max,
  zero, suc, refl, as_u64,
}
use native.Mathlib.Nat.{mul-zero}
use pubky_swap.Onchain.{resolve_fee_rate, fee_rate_cap, deadline_fee_rate}

-- The rate of a first broadcast is between the floor and the ceiling, and is the estimate itself
-- wherever that lies between them.
pub resolve_fee_rate_bounds :
    (estimate floor cap_rate : ℕ)
    → (floor ≤ resolve_fee_rate (some estimate) floor cap_rate)
      × (resolve_fee_rate (some estimate) floor cap_rate ≤ max cap_rate floor)
      × (resolve_fee_rate none floor cap_rate ≡ floor)
unfolding resolve_fee_rate
resolve_fee_rate_bounds estimate floor cap_rate = omega arith

pub resolve_fee_rate_range :
    (estimate : Option ℕ) (floor cap_rate : ℕ)
    → (floor ≤ resolve_fee_rate estimate floor cap_rate)
      × (resolve_fee_rate estimate floor cap_rate ≤ max cap_rate floor)
unfolding resolve_fee_rate
resolve_fee_rate_range none floor cap_rate = omega arith
resolve_fee_rate_range (some estimate) floor cap_rate = omega arith

-- A bump that starts at or under the ceiling never lowers the rate and never passes the ceiling,
-- and it raises the rate strictly until the ceiling is reached.
pub deadline_fee_rate_escalates :
    (tip : ℕ) (deadline : Option ℕ) (previous : ℕ) (estimate_for : ℕ → Option ℕ)
    (floor cap_rate : ℕ)
    → previous ≤ max cap_rate floor
    → max cap_rate floor ≤ u64_max
    → let next = deadline_fee_rate tip deadline previous estimate_for floor cap_rate in
      (floor ≤ next)
      × (next ≤ max cap_rate floor)
      × ((previous < next) ⊎ ((previous ≡ max cap_rate floor) × (next ≡ max cap_rate floor)))
unfolding deadline_fee_rate
deadline_fee_rate_escalates tip deadline previous estimate_for floor cap_rate h u = ground arith

-- Two blocks from the deadline or later the rate is the ceiling, whatever is estimated.
pub deadline_fee_rate_last :
    (tip deadline previous : ℕ) (estimate_for : ℕ → Option ℕ) (floor cap_rate : ℕ)
    → deadline ≤ tip + 2
    → deadline_fee_rate tip (some deadline) previous estimate_for floor cap_rate
      ≡ max cap_rate floor
unfolding deadline_fee_rate
deadline_fee_rate_last tip deadline previous estimate_for floor cap_rate h = ground arith

rate_fits : (rate fee vsize : ℕ) → rate ≤ fee / max vsize 1 → rate * vsize ≤ fee
rate_fits rate fee zero h = omega (arith, mul-zero rate)
rate_fits rate fee (suc n) h = grind arith

cap_split :
    (rate fee vsize absolute_cap floor : ℕ)
    → rate ≡ max (min (fee / max vsize 1) absolute_cap) floor
    → (rate ≡ floor) ⊎ (rate ≤ fee / max vsize 1)
cap_split rate fee vsize absolute_cap floor e = omega arith

share_fits : (spent part : ℕ) → spent ≤ as_u64 (part / 10_000) → spent * 10_000 ≤ part
share_fits spent part h = omega arith

-- A spend at the ceiling costs no more than the given share of the output, in basis points,
-- unless the operator's floor is what sets the ceiling.
pub fee_rate_cap_share :
    (value vsize bps absolute_cap floor : ℕ)
    → (fee_rate_cap value vsize bps absolute_cap floor ≡ floor)
      ⊎ (fee_rate_cap value vsize bps absolute_cap floor * vsize * 10_000 ≤ value * bps)
unfolding fee_rate_cap
fee_rate_cap_share value vsize bps absolute_cap floor =
    let fee = as_u64 (value * bps / 10_000) in
    elim (cap_split _ fee vsize absolute_cap floor refl) [
      | inl e ↦ inl e
      | inr h ↦ inr (share_fits _ (value * bps) (rate_fits _ fee vsize h))
    ]
