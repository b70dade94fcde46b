-- ===== src/Risk/Restart.antt =====
-- The accounting after a restart (swap-provider/src/risk.rs).
use pubky_swap.Prelude.{
  ℕ, ◌+◌, ◌≤◌, ◌≡◌, ◌≢◌, refl, String, none, List, [], ◌∷◌, ok, arith, nat_eq, eqb_iff, All,
  unwrap_or, u64_max, ◌∙◌, ap,
}
use pubky_swap.Map.{lookup, lookup-insert}
use pubky_swap.Messages.{Uuid}
use pubky_swap.Risk.{
  RiskLimits, Inner, new_inner, ActiveSwap, funded, reserve_inner, restore, commit, enter_peer,
  check_mode,
}
use pubky_swap.Risk.Admission.{reserve_inner_fresh}

abbrev pub swap_ids : List ActiveSwap → List Uuid
swap_ids [] = []
swap_ids (swap ∷ active) = swap.swap_id ∷ swap_ids active

abbrev pub amounts : List ActiveSwap → ℕ
amounts [] = 0
amounts (swap ∷ active) = swap.onchain_amount_sat + amounts active

-- No two records are of the same swap.
abbrev pub Distinct : List ActiveSwap → Type 0
Distinct [] = Unit
Distinct (swap ∷ active) = All (λ other. other.swap_id ≢ swap.swap_id) active × Distinct active

abbrev Unreserved : Inner → ActiveSwap → Type 0
Unreserved inner swap = lookup swap.swap_id inner.reservations ≡ none

-- A funded swap is held to no limit.
funded_reserved :
    (limits : RiskLimits) (now : ℕ) (inner : Inner) (peer : String) (swap_id : Uuid) (amount : ℕ)
    → lookup swap_id inner.reservations ≡ none
    → reserve_inner limits now inner peer swap_id amount funded
      ≡ (commit now (enter_peer now inner peer) peer swap_id amount funded, ok tt)
funded_reserved limits now inner peer swap_id amount fresh =
    reserve_inner_fresh limits now inner peer swap_id amount funded fresh
    ∙ (unfold check_mode in refl)

-- What one reservation leaves for the records after it.
funded_leaves :
    (now : ℕ) (inner : Inner) (peer : String) (swap_id : Uuid) (amount : ℕ)
    (active : List ActiveSwap)
    → All (λ other. other.swap_id ≢ swap_id) active
    → All (Unreserved inner) active
    → All (Unreserved (commit now (enter_peer now inner peer) peer swap_id amount funded)) active
unfolding commit enter_peer
funded_leaves now inner peer swap_id amount [] d u = tt
funded_leaves now inner peer swap_id amount (swap ∷ active) d u = (
  ground (
    arith,
    lookup-insert swap_id swap.swap_id (peer, amount) inner.reservations,
    eqb_iff swap_id swap.swap_id,
    d.0,
    u.0,
  ),
  funded_leaves now inner peer swap_id amount active d.1 u.1,
)

restore-from :
    (limits : RiskLimits) (now : ℕ) (inner : Inner) (active : List ActiveSwap)
    → Distinct active
    → All (Unreserved inner) active
    → inner.total_committed_sat + amounts active ≤ u64_max
    → ((restore limits now inner active).1 ≡ swap_ids active)
      × ((restore limits now inner active).0.total_committed_sat
          ≡ inner.total_committed_sat + amounts active)
unfolding restore
restore-from limits now inner [] d u h = (refl, omega arith)
restore-from limits now inner (swap ∷ active) d u h =
    let peer = unwrap_or swap.peer_account swap.peer in
    let reserved =
      commit now (enter_peer now inner peer) peer swap.swap_id swap.onchain_amount_sat funded in
    let counted : reserved.total_committed_sat
        ≡ inner.total_committed_sat + swap.onchain_amount_sat =
      unfold commit in unfold enter_peer in omega (arith, h) in
    let both = funded_reserved limits now inner peer swap.swap_id swap.onchain_amount_sat u.0 in
    let attempt = reserve_inner limits now inner peer swap.swap_id swap.onchain_amount_sat funded in
    let made : attempt.0 ≡ reserved = ap (λ r. r.0) both in
    let granted : attempt.1 ≡ ok tt = ap (λ r. r.1) both in
    let exposure = ap (λ r. r.total_committed_sat) made in
    let rest =
      restore-from limits now attempt.0 active d.1
        (rw made (funded_leaves now inner peer swap.swap_id swap.onchain_amount_sat active d.0 u.1))
        (omega (arith, counted, exposure, h)) in
    rw (granted, restore)
      (ap (λ ids. swap.swap_id ∷ ids) rest.0, omega (arith, rest.1, counted, exposure))

new_inner-Unreserved : (active : List ActiveSwap) → All (Unreserved new_inner) active
unfolding new_inner lookup
new_inner-Unreserved [] = tt
new_inner-Unreserved (swap ∷ active) = (refl, new_inner-Unreserved active)

-- A restart forgets no swap and refuses none: restoring records of distinct swaps into an empty
-- manager reserves each of them, whatever the limits are now, and the exposure is the sum of their
-- amounts, where that is below 2^64.
pub restore_counts_all :
    (limits : RiskLimits) (now : ℕ) (active : List ActiveSwap)
    → Distinct active
    → amounts active ≤ u64_max
    → ((restore limits now new_inner active).1 ≡ swap_ids active)
      × ((restore limits now new_inner active).0.total_committed_sat ≡ amounts active)
restore_counts_all limits now active d h =
    let zero_exposure : new_inner.total_committed_sat ≡ 0 = unfold new_inner in refl in
    let (ids, exposure) =
      restore-from limits now new_inner active d (new_inner-Unreserved active) (omega arith) in
    (ids, omega arith)
