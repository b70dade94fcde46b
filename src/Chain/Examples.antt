-- ===== src/Chain/Examples.antt =====
-- Funding outputs at concrete values (swap-common/src/chain.rs).
use pubky_swap.Prelude.{◌≡◌, refl, [], ◌∷◌, none, some, ok, length, Any}
use pubky_swap.Chain.{FundingUtxo, overpaid, select_funding}
use pubky_swap.Chain.Recorded.{
  HistoricalOutput, FindSpend, place, sort_by_depth, select_recorded_funding, IsClaimed,
  select_recorded_funding_lem,
}

abbrev output : FundingUtxo
output = record {
  outpoint = record { txid = 77; vout = 0 };
  value_sat = 100_500;
  confirmations = 1;
}

abbrev payment : HistoricalOutput
payment = record {
  outpoint = output.outpoint;
  value_sat = 100_000;
  confirmations = 3;
  spent_by = none;
}

abbrev unspent : FindSpend
unspent outpoint = ok none

select_recorded_funding_lem_example :
    let selected = select_recorded_funding length unspent 32 100_000 (payment ∷ []) in
    (selected ≡ ok (some output.outpoint)
      → Any (λ c. (c.outpoint ≡ output.outpoint) × (c.value_sat ≡ 100_000)) (payment ∷ [])
        × (Any
              (λ c. IsClaimed length unspent 32 c.outpoint × (c.value_sat ≡ 100_000))
              (payment ∷ [])
            → IsClaimed length unspent 32 output.outpoint))
    × (selected ≡ ok none → ¬ Any (λ c. c.value_sat ≡ 100_000) (payment ∷ []))
select_recorded_funding_lem_example =
    select_recorded_funding_lem length unspent 32 output.outpoint 100_000 (payment ∷ [])

selected_payment :
    select_recorded_funding length unspent 32 100_000 (payment ∷ []) ≡ ok (some output.outpoint)
unfolding select_recorded_funding sort_by_depth place
selected_payment = refl

select_overpaid : select_funding (output ∷ []) 100_000 10_000 ≡ overpaid output 500
unfolding select_funding
select_overpaid = refl
