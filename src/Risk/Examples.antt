-- ===== src/Risk/Examples.antt =====
-- The accounting theorems over one short history (swap-provider/src/risk.rs).
use pubky_swap.Prelude.{◌≡◌, refl, ◌+◌, ◌≤◌, [], ◌∷◌, some, ok, arith, string_eq, nat_eq, List}
use pubky_swap.Map.{lookup, insert, remove}
use pubky_swap.Risk.{
  Inner, RiskLimits, new_inner, reserve_inner, new, pending, check_mode, check_peer, enter_peer,
  check_total,
}
use pubky_swap.Risk.Funding.{claim_funding, claimed_funding_sat, check_balance, sum_claims}
use pubky_swap.Risk.Admission.{Within, reserve_inner-Within}
use pubky_swap.Risk.Counters.{IsBalanced}
use pubky_swap.Risk.Claims.{claim_funding_covered}
use pubky_swap.Risk.Runs.{Operation, reserves, releases, claims, settles, run, run_new-IsBalanced}

abbrev limits : RiskLimits
limits = record {
  max_concurrent_swaps = 3;
  max_concurrent_per_peer = 2;
  max_total_exposure_sat = 1_000_000;
  max_exposure_per_peer_sat = 400_000;
  min_onchain_reserve_sat = 0;
  max_new_swaps_per_peer_per_hour = 5;
}

-- One swap of alice's, with its funds promised.
abbrev one_swap : Inner
one_swap = record {
  total_committed_sat = 300_000;
  total_in_flight = 1;
  peers = ("alice", record { committed_sat = 300_000; in_flight = 1; recent_starts = 5 ∷ [] }) ∷ [];
  reservations = (1, ("alice", 300_000)) ∷ [];
  funding_claims = (1, 301_000) ∷ [];
}

abbrev history : List Operation
history =
    reserves 10 "alice" 1 300_000 new
    ∷ reserves 11 "alice" 2 200_000 new
    ∷ claims 1 301_000 (some 500_000) 10_000
    ∷ reserves 12 "bob" 3 50_000 pending
    ∷ releases 1
    ∷ releases 1
    ∷ settles 3
    ∷ []

run_new-IsBalanced_example : IsBalanced "alice" (run limits new_inner history)
run_new-IsBalanced_example = run_new-IsBalanced "alice" limits history (omega arith)

-- A second swap that fits.
second_swap_granted : (reserve_inner limits 20 one_swap "alice" 2 100_000 new).1 ≡ ok tt
unfolding reserve_inner lookup check_mode check_peer enter_peer insert check_total
second_swap_granted = refl

reserve_inner-Within_example :
    Within limits "alice" (reserve_inner limits 20 one_swap "alice" 2 100_000 new).0
reserve_inner-Within_example =
    reserve_inner-Within limits 20 one_swap "alice" 2 100_000 new second_swap_granted
      (λ same. cc same)

claim_granted : (claim_funding one_swap 1 302_000 (some 500_000) 10_000).1 ≡ ok tt
unfolding claim_funding check_balance sum_claims remove
claim_granted = refl

claim_funding_covered_example :
    claimed_funding_sat (claim_funding one_swap 1 302_000 (some 500_000) 10_000).0 + 10_000
    ≤ 500_000
unfolding lookup
claim_funding_covered_example =
    claim_funding_covered one_swap 1 302_000 500_000 10_000 (refl, tt) refl (omega arith)
      (omega arith) (omega arith) claim_granted
