-- ===== src/Risk/Funding.antt =====
-- swap-provider/src/risk.rs: the wallet funds promised to reverse swaps that have not funded yet.
use pubky_swap.Prelude.{
  ℕ, ◌-◌, Option, none, some, List, [], ◌∷◌, Result, ok, err, reject_if, is_some, if◌then◌else◌,
  ltb, u64_max, saturating_add, nat_eq, string_eq,
}
use pubky_swap.Map.{lookup, insert, remove}
use pubky_swap.Messages.{Uuid}
use pubky_swap.Risk.{Inner}

pub record FundingShortfall : Type 0 where
  pub available_sat : ℕ
  pub claimed_sat : ℕ
  pub needed_sat : ℕ

-- `fold(0, |sum, (_, sat)| sum.saturating_add(sat))`.
unfoldable pub sum_claims : ℕ → List (Uuid × ℕ) → ℕ
sum_claims acc [] = acc
sum_claims acc ((id, sat) ∷ m) = sum_claims (saturating_add u64_max acc sat) m

-- Only a reserved swap holds a claim.
unfoldable pub restore_funding_claim : Inner → Uuid → ℕ → Inner
restore_funding_claim inner swap_id claim_sat =
    if is_some (lookup swap_id inner.reservations)
    then record inner { funding_claims = insert swap_id claim_sat inner.funding_claims }
    else inner

-- Whether a reported balance covers a claim beside every other swap's.
unfoldable pub check_balance : Inner → Uuid → ℕ → Option ℕ → ℕ → Result FundingShortfall (Unit {0})
check_balance inner swap_id claim_sat none reserve_sat = ok tt
check_balance inner swap_id claim_sat (some available) reserve_sat =
    let claimed = sum_claims 0 (remove swap_id inner.funding_claims) in
    let needed = saturating_add u64_max claim_sat reserve_sat in
    reject_if (ltb (available - claimed) needed)
      (record { available_sat = available; claimed_sat = claimed; needed_sat = needed })

abbrev pub conclude_claim :
    Result FundingShortfall (Unit {0}) → Inner → Inner → Inner × Result FundingShortfall (Unit {0})
conclude_claim (ok _) claimed inner = (claimed, ok tt)
conclude_claim (err shortfall) claimed inner = (inner, err shortfall)

unfoldable pub claim_funding :
    Inner → Uuid → ℕ → Option ℕ → ℕ → Inner × Result FundingShortfall (Unit {0})
unfolding restore_funding_claim
claim_funding inner swap_id claim_sat available reserve_sat =
    conclude_claim (check_balance inner swap_id claim_sat available reserve_sat)
      (restore_funding_claim inner swap_id claim_sat) inner

unfoldable pub funding_settled : Inner → Uuid → Inner
funding_settled inner swap_id = record inner {
  funding_claims = remove swap_id inner.funding_claims;
}

unfoldable pub claimed_funding_sat : Inner → ℕ
unfolding sum_claims
claimed_funding_sat inner = sum_claims 0 inner.funding_claims
