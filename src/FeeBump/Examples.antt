-- ===== src/FeeBump/Examples.antt =====
-- A claim that is replaced once and then buried (swap-common/src/fee_bump.rs).
use pubky_swap.Prelude.{
  ℕ, ◌≡◌, ◌≢◌, refl, ◌+◌, String, none, some, List, [], ◌∷◌, Result, ok, arith, false,
}
use pubky_swap.Chain.{Txid}
use pubky_swap.FeeBump.{SpendWatchConfig, confirmed, Turn, Spend, Opening, confirm_or_bump}
use pubky_swap.Onchain.{deadline_fee_rate, resolve_fee_rate}
use pubky_swap.FeeBump.Outcomes.{IsFaithful, IsTracked, Names}
use pubky_swap.FeeBump.Runs.{confirm_or_bump_ends, confirm_or_bump_outcome}

-- A signed spend at each rate.
abbrev build : ℕ → Result String Txid
build rate = ok (1_000 + rate)

abbrev accepts : Txid → Result String Txid
accepts tx = ok tx

accepts-IsFaithful : IsFaithful accepts
accepts-IsFaithful tx id h = cc h

abbrev cfg : SpendWatchConfig
cfg = record {
  fee_target_blocks = 3;
  floor_rate_sat_vb = 5;
  cap_rate_sat_vb = 100;
  min_confirmations = 2;
  deadline_height = some 800_020;
  max_iterations = 2;
  known_ours = [];
}

abbrev opening : Opening
opening = record { estimate = λ target. some 10; spend = ok none; broadcast = accepts }

-- In the mempool near the deadline, then replaced and two blocks deep.
abbrev stuck : Turn
stuck = record {
  tip = ok 800_010;
  spend = ok none;
  confirmations = λ txid. ok (some 0);
  broadcast = accepts;
  estimate = λ target. some 12;
  cpfp = λ parent rate. none;
  out_of_time = false;
}

abbrev buried : Turn
buried = record stuck {
  tip = ok 800_012;
  spend = ok (some 1_013);
  confirmations = λ txid. ok (some 2);
}

abbrev turns : List Turn
turns = stuck ∷ buried ∷ []

abbrev at_the_end : Spend
at_the_end = record {
  txid = 1_013;
  rate = 13;
  ours = 1_013 ∷ 1_010 ∷ [];
  told = 1_013 ∷ 1_010 ∷ [];
}

run_confirms :
    confirm_or_bump build cfg opening turns ≡ some (ok (confirmed 1_013), some at_the_end)
unfolding confirm_or_bump deadline_fee_rate resolve_fee_rate
run_confirms = refl

confirm_or_bump_outcome_example :
    IsTracked 1_013 cfg at_the_end × Names (ok (confirmed 1_013)) at_the_end
confirm_or_bump_outcome_example =
    confirm_or_bump_outcome build cfg 1_013 opening turns (ok (confirmed 1_013)) at_the_end
      accepts-IsFaithful (accepts-IsFaithful, (accepts-IsFaithful, tt)) (omega arith) run_confirms

confirm_or_bump_ends_example : confirm_or_bump build cfg opening turns ≢ none
confirm_or_bump_ends_example =
    confirm_or_bump_ends build cfg opening turns (omega arith) (omega arith)
