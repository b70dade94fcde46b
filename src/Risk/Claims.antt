-- ===== src/Risk/Claims.antt =====
-- The wallet funds promised to reverse swaps (swap-provider/src/risk.rs).
use pubky_swap.Prelude.{
  ℕ, ◌+◌, ◌≤◌, ◌≡◌, true, some, List, [], ◌∷◌, ok, arith, nat_eq, u64_max, saturating_add, min,
  is_some, ◌<◌,
}
use pubky_swap.Map.{lookup, insert, remove, Unique, total, total-insert}
use pubky_swap.Messages.{Uuid}
use pubky_swap.Risk.{Inner}
use pubky_swap.Risk.Funding.{sum_claims, check_balance, claim_funding, claimed_funding_sat}

abbrev pub sat_of : ℕ → ℕ
sat_of sat = sat

sum_claims-eq-total :
    (acc : ℕ) (m : List (Uuid × ℕ))
    → acc ≤ u64_max
    → sum_claims acc m ≡ min u64_max (acc + total sat_of m)
unfolding sum_claims
sum_claims-eq-total acc [] h = omega arith
sum_claims-eq-total acc ((id, sat) ∷ m) h =
    omega (arith, sum_claims-eq-total (saturating_add u64_max acc sat) m (omega arith))

-- A claim that a reported balance granted, for a reserved swap, is covered with every other
-- claim and the reserve: all promised funds and the reserve together fit in that balance.
pub claim_funding_covered :
    (inner : Inner) (swap_id : Uuid) (claim_sat available reserve_sat : ℕ)
    → Unique inner.funding_claims
    → is_some (lookup swap_id inner.reservations) ≡ true
    → available ≤ u64_max
    → claim_sat + reserve_sat ≤ u64_max
    → 0 < claim_sat
    → (claim_funding inner swap_id claim_sat (some available) reserve_sat).1 ≡ ok tt
    → claimed_funding_sat (claim_funding inner swap_id claim_sat (some available) reserve_sat).0
        + reserve_sat
      ≤ available
unfolding claim_funding claimed_funding_sat check_balance
claim_funding_covered inner swap_id claim_sat available reserve_sat u held ha hn pos granted =
    ground (
      arith,
      sum_claims-eq-total 0 (remove swap_id inner.funding_claims),
      sum_claims-eq-total 0 (insert swap_id claim_sat inner.funding_claims),
      total-insert sat_of swap_id claim_sat inner.funding_claims u,
    )
