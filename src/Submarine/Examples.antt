-- ===== src/Submarine/Examples.antt =====
-- Runs of the driver of a submarine swap (swap-provider/src/submarine.rs) on concrete answers.
use pubky_swap.Prelude.{◌≤◌, ◌≡◌, refl, false, none, some, [], ◌∷◌, ok, err, arith, length}
use pubky_swap.Chain.{FundingUtxo, select_funding}
use pubky_swap.Onchain.Preimages.{Bytes, PaymentHash}
use pubky_swap.Timelock.{default_params, check_submarine_before_pay, submarine_cltv_budget}
use pubky_swap.Driver.Counts.{count}
use pubky_swap.Submarine.Funding.{locate_funding, guard_funding}
use pubky_swap.Swap.{failed}
use pubky_swap.Driver.{returns, ◌>>=◌, ◌>>◌, tell, ask}
use pubky_swap.Driver.Traces.{follow, Post}
use pubky_swap.Reverse.{Resume}
use pubky_swap.Submarine.{SubmarineSwap, not_found, in_flight, payment_failed, Answers, PaymentTurn}
use pubky_swap.Submarine.Payment.{settle_payment}
use pubky_swap.Submarine.Claim.{drive_submarine_swap}
use pubky_swap.Submarine.Protocol.{Phase, advance, pays}
use pubky_swap.Submarine.Refines.{first_phase}
use pubky_swap.Submarine.Pays.{Reports}
use pubky_swap.Submarine.Orders.{IsSafe, IsAnsweredAfter}
use pubky_swap.Submarine.Promises.{
  drive_submarine_swap_refines, drive_submarine_swap_once, drive_submarine_swap_guarded,
  drive_submarine_swap_fails,
}

-- Any function serves for the hash.
abbrev hash_of : Bytes → PaymentHash
hash_of = length

abbrev swap : SubmarineSwap
swap = record {
  payment_hash = 32;
  onchain_amount_sat = 100_000;
  fee_rate_sat_vb = 5;
  timeout_height = 300;
  max_routing_fee_msat = 1_000;
  timelock = default_params;
}

abbrev fresh : Resume
fresh = record {
  invoice_pay_started_at_unix = none;
  funding = none;
  funding_intent_at_height = none;
  our_spends = [];
  reorg_seen_at_height = none;
}

abbrev funding : FundingUtxo
funding = record {
  outpoint = record { txid = 7; vout = 0 };
  value_sat = 100_000;
  confirmations = 2;
}

abbrev refusing : PaymentTurn
refusing = record {
  status = ok not_found;
  tip = ok 110;
  invoice_pay_started = ok tt;
  pay_invoice = err (payment_failed "no route");
}

abbrev answers : Answers
answers = record {
  resumed_spend = ok none;
  funding_turns = record { outputs = ok (funding ∷ []); tip = ok 105 } ∷ [];
  status = ok (some funding);
  spend = ok none;
  lost_payment = ok not_found;
  payment_turns = record refusing { status = ok in_flight } ∷ refusing ∷ [];
  claim_turns = [];
  build = λ outpoint value preimage rate. ok rate;
  claim_vsize = 150;
}

run_fails :
    (drive_submarine_swap hash_of swap fresh 1 false answers).ends
    ≡ returns (failed "invoice payment failed")
unfolding drive_submarine_swap ◌>>=◌ locate_funding ask select_funding ◌>>◌ tell guard_funding
    settle_payment check_submarine_before_pay submarine_cltv_budget
run_fails = refl

run_pays : count pays (drive_submarine_swap hash_of swap fresh 1 false answers).log ≡ 1
unfolding drive_submarine_swap count ◌>>=◌ locate_funding ask select_funding ◌>>◌ tell guard_funding
    settle_payment check_submarine_before_pay submarine_cltv_budget
run_pays = refl

drive_submarine_swap_refines_example :
    (q : Phase) × (follow
        (advance hash_of swap 1 false)
        (first_phase fresh.funding)
        (drive_submarine_swap hash_of swap fresh 1 false answers).log
      ≡ some q)
    × Post (Reports false) (drive_submarine_swap hash_of swap fresh 1 false answers).ends q
drive_submarine_swap_refines_example =
    drive_submarine_swap_refines hash_of swap fresh 1 false answers refl

drive_submarine_swap_once_example :
    count pays (drive_submarine_swap hash_of swap fresh 1 false answers).log ≤ 1
drive_submarine_swap_once_example =
    drive_submarine_swap_once hash_of swap fresh 1 false answers refl

drive_submarine_swap_guarded_example :
    IsSafe hash_of swap 1 false (drive_submarine_swap hash_of swap fresh 1 false answers).log
drive_submarine_swap_guarded_example =
    drive_submarine_swap_guarded hash_of swap fresh 1 false answers refl (omega (arith, run_pays))

drive_submarine_swap_fails_example :
    IsAnsweredAfter hash_of swap 1 false
      (drive_submarine_swap hash_of swap fresh 1 false answers).log
drive_submarine_swap_fails_example =
    drive_submarine_swap_fails hash_of swap fresh 1 false answers refl "invoice payment failed"
      run_fails (omega (arith, run_pays))
