-- ===== src/Risk/Runs.antt =====
-- Whole histories of the manager: any sequence of its operations (swap-provider/src/risk.rs).
use pubky_swap.Prelude.{
  ℕ, ◌+◌, ◌≤◌, ◌≡◌, refl, String, Option, none, List, [], ◌∷◌, arith, nat_eq, string_eq, eqb_iff,
  u64_max, inr, ◌≢◌, ◌⊎◌,
}
use pubky_swap.Map.{lookup, Unique, lookup-insert, lookup-remove, Unique-insert, Unique-remove}
use pubky_swap.Messages.{Uuid}
use pubky_swap.Risk.{
  RiskLimits, Inner, ReservationMode, new_inner, reserve_inner, release, enter_peer, commit,
}
use pubky_swap.Risk.Funding.{restore_funding_claim, claim_funding, funding_settled}
use pubky_swap.Risk.Admission.{repeated, refused, committed, reserve_inner-Attempt}
use pubky_swap.Risk.Counters.{
  IsBalanced, new_inner-IsBalanced, reserve_inner-IsBalanced, release-IsBalanced,
}

-- The calls of the public methods. A guard's drop is `releases`.
pub data Operation : Type 0 where
  reserves : ℕ → String → Uuid → ℕ → ReservationMode → Operation
  releases : Uuid → Operation
  claims : Uuid → ℕ → Option ℕ → ℕ → Operation
  restores_claim : Uuid → ℕ → Operation
  settles : Uuid → Operation

pub step : RiskLimits → Inner → Operation → Inner
step limits inner (reserves now peer swap_id amount mode) =
    (reserve_inner limits now inner peer swap_id amount mode).0
step limits inner (releases swap_id) = release inner swap_id
step limits inner (claims swap_id claim_sat available reserve_sat) =
    (claim_funding inner swap_id claim_sat available reserve_sat).0
step limits inner (restores_claim swap_id claim_sat) = restore_funding_claim inner swap_id claim_sat
step limits inner (settles swap_id) = funding_settled inner swap_id

pub run : RiskLimits → Inner → List Operation → Inner
run limits inner [] = inner
run limits inner (o ∷ os) = run limits (step limits inner o) os

-- What a history asks to reserve, granted or not.
abbrev pub asked : List Operation → ℕ
asked [] = 0
asked (reserves now peer swap_id amount mode ∷ os) = amount + asked os
asked (o ∷ os) = asked os

reserve-exposure-le :
    (limits : RiskLimits) (now : ℕ) (inner : Inner) (peer : String) (swap_id : Uuid) (amount : ℕ)
    (mode : ReservationMode)
    → (reserve_inner limits now inner peer swap_id amount mode).0.total_committed_sat
      ≤ inner.total_committed_sat + amount
unfolding enter_peer commit
reserve-exposure-le limits now inner peer swap_id amount mode =
    elim (reserve_inner-Attempt limits now inner peer swap_id amount mode) [
      | repeated held e ↦ rw e (omega arith)
      | refused reason e ↦ rw e (omega arith)
      | committed fresh checked e ↦ rw e (omega arith)
    ]

release-exposure-le :
    (inner : Inner) (swap_id : Uuid)
    → (release inner swap_id).total_committed_sat ≤ inner.total_committed_sat
unfolding release
release-exposure-le inner swap_id = ground arith

claim-same :
    (q : String) (inner : Inner) (swap_id : Uuid) (claim_sat : ℕ) (available : Option ℕ)
    (reserve_sat : ℕ)
    → IsBalanced q inner
    → IsBalanced q (claim_funding inner swap_id claim_sat available reserve_sat).0
      × ((claim_funding inner swap_id claim_sat available reserve_sat).0.total_committed_sat
          ≡ inner.total_committed_sat)
unfolding claim_funding
claim-same q inner swap_id claim_sat available reserve_sat b = ground arith

-- What one operation asks to reserve.
abbrev asked_by : Operation → ℕ
asked_by (reserves now peer swap_id amount mode) = amount
asked_by _ = 0

-- One operation keeps the balance, and raises the exposure by what it asks for at most.
step-IsBalanced :
    (q : String) (limits : RiskLimits) (inner : Inner) (o : Operation)
    → IsBalanced q inner
    → inner.total_committed_sat + asked_by o ≤ u64_max
    → IsBalanced q (step limits inner o)
      × ((step limits inner o).total_committed_sat ≤ inner.total_committed_sat + asked_by o)
unfolding step restore_funding_claim funding_settled
step-IsBalanced q limits inner (reserves now peer swap_id amount mode) b h = (
  reserve_inner-IsBalanced q limits now inner peer swap_id amount mode b h,
  reserve-exposure-le limits now inner peer swap_id amount mode,
)
step-IsBalanced q limits inner (releases swap_id) b h =
    (release-IsBalanced q inner swap_id b, omega (arith, release-exposure-le inner swap_id))
step-IsBalanced q limits inner (claims swap_id claim_sat available reserve_sat) b h =
    let (same, exposure) = claim-same q inner swap_id claim_sat available reserve_sat b in
    (same, omega arith)
step-IsBalanced q limits inner (restores_claim swap_id claim_sat) b h = ground arith
step-IsBalanced q limits inner (settles swap_id) b h = ground arith

asked-split : (o : Operation) (os : List Operation) → asked (o ∷ os) ≡ asked_by o + asked os
asked-split (reserves now peer swap_id amount mode) os = refl
asked-split _ os = omega arith

run-IsBalanced :
    (q : String) (limits : RiskLimits) (inner : Inner) (os : List Operation)
    → IsBalanced q inner
    → inner.total_committed_sat + asked os ≤ u64_max
    → IsBalanced q (run limits inner os)
unfolding run
run-IsBalanced q limits inner [] b h = b
run-IsBalanced q limits inner (o ∷ os) b h =
    let (kept, grown) = step-IsBalanced q limits inner o b (omega (arith, asked-split o os)) in
    run-IsBalanced q limits (step limits inner o) os kept (omega (arith, asked-split o os))

-- After any history of reservations, releases and claims from an empty manager, the exposure and
-- the number of swaps in flight, in total and for each peer, are the sums over the reservations
-- that stand, if all amounts asked for stay below 2^64 together. So nothing leaks, whatever was
-- refused, repeated or released twice.
pub run_new-IsBalanced :
    (q : String) (limits : RiskLimits) (os : List Operation)
    → asked os ≤ u64_max
    → IsBalanced q (run limits new_inner os)
run_new-IsBalanced q limits os h =
    run-IsBalanced q limits new_inner os (new_inner-IsBalanced q) (unfold new_inner in omega arith)

-- A claim stands only for a swap that holds a reservation, and once for each.
pub record HasClaims (id : Uuid) (inner : Inner) : Type 0 where
  pub unique : Unique inner.funding_claims
  pub backed : (lookup id inner.reservations ≢ none) ⊎ (lookup id inner.funding_claims ≡ none)

new_inner-HasClaims : (id : Uuid) → HasClaims id new_inner
unfolding new_inner lookup
new_inner-HasClaims id = record { unique = tt; backed = inr refl }

restore_funding_claim-HasClaims :
    (id : Uuid) (inner : Inner) (swap_id : Uuid) (claim_sat : ℕ)
    → HasClaims id inner
    → HasClaims id (restore_funding_claim inner swap_id claim_sat)
unfolding restore_funding_claim
restore_funding_claim-HasClaims id inner swap_id claim_sat c = ground (
  arith,
  Unique-insert swap_id claim_sat inner.funding_claims c.unique,
  lookup-insert swap_id id claim_sat inner.funding_claims,
  eqb_iff swap_id id,
)

reserve_inner-HasClaims :
    (id : Uuid) (limits : RiskLimits) (now : ℕ) (inner : Inner) (peer : String) (swap_id : Uuid)
    (amount : ℕ) (mode : ReservationMode)
    → HasClaims id inner
    → HasClaims id (reserve_inner limits now inner peer swap_id amount mode).0
unfolding enter_peer commit
reserve_inner-HasClaims id limits now inner peer swap_id amount mode c =
    elim (reserve_inner-Attempt limits now inner peer swap_id amount mode) [
      | repeated held e ↦ rw e c
      | refused reason e ↦ rw e (record { unique = c.unique; backed = c.backed })
      | committed fresh checked e ↦ rw e (
          ground
            (arith, lookup-insert swap_id id (peer, amount) inner.reservations, eqb_iff swap_id id))
    ]

release-HasClaims :
    (id : Uuid) (inner : Inner) (swap_id : Uuid)
    → HasClaims id inner
    → HasClaims id (release inner swap_id)
unfolding release
release-HasClaims id inner swap_id c = ground (
  arith,
  Unique-remove swap_id inner.funding_claims c.unique,
  lookup-remove swap_id id inner.funding_claims,
  lookup-remove swap_id id inner.reservations,
  eqb_iff swap_id id,
)

step-HasClaims :
    (id : Uuid) (limits : RiskLimits) (inner : Inner) (o : Operation)
    → HasClaims id inner
    → HasClaims id (step limits inner o)
unfolding step claim_funding funding_settled
step-HasClaims id limits inner (reserves now peer swap_id amount mode) c =
    reserve_inner-HasClaims id limits now inner peer swap_id amount mode c
step-HasClaims id limits inner (releases swap_id) c = release-HasClaims id inner swap_id c
step-HasClaims id limits inner (claims swap_id claim_sat available reserve_sat) c =
    ground (arith, restore_funding_claim-HasClaims id inner swap_id claim_sat c)
step-HasClaims id limits inner (restores_claim swap_id claim_sat) c =
    restore_funding_claim-HasClaims id inner swap_id claim_sat c
step-HasClaims id limits inner (settles swap_id) c = ground (
  arith,
  Unique-remove swap_id inner.funding_claims c.unique,
  lookup-remove swap_id id inner.funding_claims,
)

run-HasClaims :
    (id : Uuid) (limits : RiskLimits) (inner : Inner) (os : List Operation)
    → HasClaims id inner
    → HasClaims id (run limits inner os)
unfolding run
run-HasClaims id limits inner [] c = c
run-HasClaims id limits inner (o ∷ os) c =
    run-HasClaims id limits (step limits inner o) os (step-HasClaims id limits inner o c)

-- After any history from an empty manager a swap has at most one claim on the wallet, and none
-- once it holds no reservation: no promise outlives its swap.
pub run_new-HasClaims :
    (id : Uuid) (limits : RiskLimits) (os : List Operation) → HasClaims id (run limits new_inner os)
run_new-HasClaims id limits os = run-HasClaims id limits new_inner os (new_inner-HasClaims id)
