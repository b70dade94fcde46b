-- ===== src/Client/Examples.antt =====
-- Runs of the client's drivers (swap-client/src) on concrete answers.
use pubky_swap.Prelude.{◌≡◌, refl, Any, false, none, some, [], ◌∷◌, ok, arith, length}
use pubky_swap.Chain.{Txid, OutPoint, FundingUtxo, select_funding}
use pubky_swap.Onchain.Preimages.{Bytes, PaymentHash}
use pubky_swap.Timelock.{claim_start_is_safe}
use pubky_swap.FeeBump.{
  Opening, Turn, confirm_or_bump, with_known_ours, claim_config, refund_config,
}
use pubky_swap.FeeBump.Final.{IsDeep}
use pubky_swap.Swap.{claimed}
use pubky_swap.Driver.{returns, ◌>>=◌, ◌>>◌, tell, ask, tell_all}
use pubky_swap.Driver.Traces.{follow, Post}
use pubky_swap.Driver.Counts.{count}
use pubky_swap.Reverse.{Resume, «open», settled}
use pubky_swap.Submarine.{not_found}
use pubky_swap.Submarine.Claim.{told}
use pubky_swap.Client.Submarine
use pubky_swap.Client.Submarine.{SubmarineFunding, SettleTurn, execute_submarine_swap}
use pubky_swap.Client.Submarine.Protocol.{funds, first_phase}
use pubky_swap.Client.Submarine.Protocol as Funding
use pubky_swap.Client.Submarine.Refines.{Reports}
use pubky_swap.Client.Submarine.Promises.{
  IsTimely, IsPaid, may_have_funded, execute_submarine_swap_refines,
  execute_submarine_swap_funds_once, execute_submarine_swap_claimed,
}
use pubky_swap.Client.Reverse
use pubky_swap.Client.Reverse.{ReverseClaim, FundingTurn, execute_reverse_swap, is_fresh}
use pubky_swap.Client.Reverse.Protocol.{asking, pays, reveals}
use pubky_swap.Client.Reverse.Protocol as Paying
use pubky_swap.Client.Reverse.Promises.{
  IsSecured, IsAllowed, execute_reverse_swap_refines, execute_reverse_swap-IsSecured,
  execute_reverse_swap_pays_once,
}

-- Any function serves for the hash.
abbrev hash_of : Bytes → PaymentHash
hash_of = length

abbrev fresh : Resume
fresh = record {
  invoice_pay_started_at_unix = none;
  funding = none;
  funding_intent_at_height = none;
  our_spends = [];
  reorg_seen_at_height = none;
}

abbrev htlc : OutPoint
htlc = record { txid = 7; vout = 0 }

abbrev utxo : FundingUtxo
utxo = record { outpoint = htlc; value_sat = 100_000; confirmations = 2 }

abbrev opening : Opening
opening = record { estimate = λ target. none; spend = ok none; broadcast = λ tx. ok tx }

abbrev final_turn : Turn
final_turn = record {
  tip = ok 110;
  spend = ok none;
  confirmations = λ txid. ok (some 6);
  broadcast = λ tx. ok tx;
  estimate = λ target. none;
  cpfp = λ parent rate. none;
  out_of_time = false;
}

abbrev claim : ReverseClaim
claim = record {
  onchain_amount_sat = 100_000;
  timeout_height = 300;
  preimage = [];
  fee_rate_sat_vb = 5;
}

abbrev claiming : Reverse.Answers
claiming = record {
  payment_status = ok not_found;
  payment_started = ok tt;
  funding_turns =
      record { outputs = ok (utxo ∷ []); tip = ok 100; is_finished = false; pay_task = ok (ok 0) }
      ∷ [];
  tip = ok 110;
  build = λ outpoint value rate. ok rate;
  claim_vsize = 150;
  claim_opening = opening;
  claim_turns = final_turn ∷ [];
  pay_task = ok (ok 3);
}

run_reveals : count reveals (execute_reverse_swap claim fresh 1_000 1 claiming).log ≡ 1
unfolding count execute_reverse_swap ◌>>◌ tell Reverse.already_paying ask select_funding
    claim_start_is_safe confirm_or_bump Reverse.claim_watch with_known_ours claim_config tell_all
    told
run_reveals = refl

run_pays : count pays (execute_reverse_swap claim fresh 1_000 1 claiming).log ≡ 1
unfolding count execute_reverse_swap ◌>>◌ tell Reverse.already_paying ask select_funding
    claim_start_is_safe confirm_or_bump Reverse.claim_watch with_known_ours claim_config tell_all
    told
run_pays = refl

execute_reverse_swap-IsSecured_example :
    IsSecured claim 1 (execute_reverse_swap claim fresh 1_000 1 claiming).log
execute_reverse_swap-IsSecured_example =
    execute_reverse_swap-IsSecured claim fresh 1_000 1 claiming (omega (arith, run_reveals))

execute_reverse_swap_pays_once_example :
    IsAllowed claim 1 (is_fresh fresh) 1_000 (execute_reverse_swap claim fresh 1_000 1 claiming).log
execute_reverse_swap_pays_once_example =
    execute_reverse_swap_pays_once claim fresh 1_000 1 claiming (omega (arith, run_pays))

execute_reverse_swap_refines_example :
    (q : Paying.Phase) × (follow
        (Paying.advance claim 1 (is_fresh fresh) 1_000)
        asking
        (execute_reverse_swap claim fresh 1_000 1 claiming).log
      ≡ some q)
    × Post Paying.Reports (execute_reverse_swap claim fresh 1_000 1 claiming).ends q
    × ((txid : Txid)
        → (execute_reverse_swap claim fresh 1_000 1 claiming).ends ≡ returns txid
        → Any (IsDeep 2 txid) claiming.claim_turns)
execute_reverse_swap_refines_example = execute_reverse_swap_refines claim fresh 1_000 1 claiming

abbrev funding : SubmarineFunding
funding = record {
  onchain_amount_sat = 100_000;
  payment_hash = 32;
  timeout_height = 300;
  fee_rate_sat_vb = 5;
}

abbrev late : SettleTurn
late = record {
  state = ok «open»;
  tip = ok 305;
  spend = ok none;
  refund_opening = opening;
  refund_turns = final_turn ∷ [];
}

abbrev refunding : Submarine.Answers
refunding = record {
  establishing = record {
    find_funding = ok none;
    tip = ok 100;
    funding_intent = ok tt;
    fund_htlc = ok htlc;
  };
  recorded_turns = [];
  settle_turns = record late { tip = ok 290 } ∷ late ∷ [];
  build = λ outpoint rate. ok rate;
  refund_vsize = 150;
  transaction = λ txid. record { txid = txid; input = [] };
}

abbrev settling : Submarine.Answers
settling = record refunding { settle_turns = record late { state = ok settled } ∷ [] }

run_funds : count funds (execute_submarine_swap hash_of funding fresh refunding).log ≡ 1
unfolding count execute_submarine_swap ◌>>=◌ ask Submarine.commit ◌>>◌ tell claim_start_is_safe
    Submarine.fund Submarine.adopt confirm_or_bump Submarine.refund_watch with_known_ours
    refund_config tell_all told
run_funds = refl

run_claims : (execute_submarine_swap hash_of funding fresh settling).ends ≡ returns claimed
unfolding execute_submarine_swap ◌>>=◌ ask Submarine.commit ◌>>◌ tell claim_start_is_safe
    Submarine.fund Submarine.adopt
run_claims = refl

execute_submarine_swap_refines_example :
    (q : Funding.Phase) × (follow
        (Funding.advance hash_of funding)
        (first_phase (may_have_funded fresh))
        (execute_submarine_swap hash_of funding fresh refunding).log
      ≡ some q)
    × Post Reports (execute_submarine_swap hash_of funding fresh refunding).ends q
execute_submarine_swap_refines_example =
    execute_submarine_swap_refines hash_of funding fresh refunding

execute_submarine_swap_funds_once_example :
    (may_have_funded fresh ≡ false)
    × IsTimely hash_of funding (execute_submarine_swap hash_of funding fresh refunding).log
execute_submarine_swap_funds_once_example =
    execute_submarine_swap_funds_once hash_of funding fresh refunding (omega (arith, run_funds))

execute_submarine_swap_claimed_example :
    Any (IsPaid hash_of funding) (execute_submarine_swap hash_of funding fresh settling).log
execute_submarine_swap_claimed_example =
    execute_submarine_swap_claimed hash_of funding fresh settling run_claims
