-- ===== src/Chain.antt =====
-- swap-common/src/chain.rs: the outputs that pay an HTLC script, and what a driver makes of them.
-- A transaction id is its 256-bit number.
pub mod Recorded
mod Examples
use pubky_swap.Prelude.{
  ℕ, suc, ◌+◌, ◌-◌, ◌≤◌, ◌<◌, ◌≡◌, ◌↔◌, refl, Option, none, some, List, [], ◌∷◌, arith, length, ltb,
  eqb, leb, if◌then◌else◌, true, false,
}

abbrev pub Txid : Type 0
Txid = ℕ

pub record OutPoint : Type 0 where
  pub txid : Txid
  pub vout : ℕ

pub record FundingUtxo : Type 0 where
  pub outpoint : OutPoint
  pub value_sat : ℕ
  pub confirmations : ℕ

abbrev pub default_max_overpay_sat : ℕ
default_max_overpay_sat = 10_000

pub data FundingSelection : Type 0 where
  nothing : FundingSelection
  exact : FundingUtxo → FundingSelection
  overpaid : FundingUtxo → ℕ → FundingSelection
  underpaid excessive_overpay : ℕ → FundingSelection
  multiple : List FundingUtxo → FundingSelection

-- `utxo.value_sat.cmp(&expected_sat)` on the only output.
unfoldable pub classify : FundingUtxo → ℕ → ℕ → FundingSelection
classify utxo expected max_overpay =
    if eqb utxo.value_sat expected
    then exact utxo
    else if ltb utxo.value_sat expected
    then underpaid utxo.value_sat
    else if leb (utxo.value_sat - expected) max_overpay
    then overpaid utxo (utxo.value_sat - expected)
    else excessive_overpay utxo.value_sat

unfoldable pub select_funding : List FundingUtxo → ℕ → ℕ → FundingSelection
unfolding classify
select_funding [] expected max_overpay = nothing
select_funding (utxo ∷ []) expected max_overpay = classify utxo expected max_overpay
select_funding (utxo ∷ other ∷ rest) expected max_overpay = multiple (utxo ∷ other ∷ rest)

-- A driver is given an output to act on exactly when that output is the only one that pays the
-- script, and it pays the expected value (`exact`) or exceeds it by the tolerance at most
-- (`overpaid`, with the true excess).
pub select_funding_lem :
    (utxos : List FundingUtxo) (u : FundingUtxo) (expected max_overpay excess : ℕ)
    → ((select_funding utxos expected max_overpay ≡ exact u)
        ↔ ((utxos ≡ u ∷ []) × (u.value_sat ≡ expected)))
      × ((select_funding utxos expected max_overpay ≡ overpaid u excess) ↔ (
          (utxos ≡ u ∷ [])
          × (0 < excess)
          × (excess ≤ max_overpay)
          × (u.value_sat ≡ expected + excess)))
unfolding select_funding
select_funding_lem [] u expected max_overpay excess = ground arith
select_funding_lem (utxo ∷ []) u expected max_overpay excess = ground arith
select_funding_lem (utxo ∷ other ∷ rest) u expected max_overpay excess = ground arith
