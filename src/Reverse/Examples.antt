-- ===== src/Reverse/Examples.antt =====
-- Runs of the driver of a reverse swap (swap-provider/src/reverse.rs) on concrete answers.
use pubky_swap.Prelude.{◌≤◌, ◌≡◌, refl, true, none, some, [], ◌∷◌, ok, arith, length, if◌then◌else◌}
use pubky_swap.Chain.{OutPoint}
use pubky_swap.Onchain.Preimages.{
  Bytes, PaymentHash, Transaction, extract_preimage, find_element, is_preimage,
}
use pubky_swap.Timelock.{default_params, check_reverse_before_fund}
use pubky_swap.FeeBump.{Opening}
use pubky_swap.Swap.{claimed}
use pubky_swap.Driver.{returns, ask, tell, ◌>>=◌, ◌>>◌}
use pubky_swap.Driver.Traces.{follow, Post}
use pubky_swap.Driver.Counts.{count}
use pubky_swap.Reverse.{earliest_expiry, Resume, ReverseSwap, accepted, WatchTurn, Answers}
use pubky_swap.Reverse.Establish.{
  await_invoice, adopt, may_have_funded, fund, commit, establish_funding,
}
use pubky_swap.Reverse.Watch.{bury, drive_reverse_swap}
use pubky_swap.Reverse.Protocol.{Phase, advance, funds, pays}
use pubky_swap.Reverse.Settles.{opening, Reports}
use pubky_swap.Reverse.Promises.{
  IsGuarded, drive_reverse_swap_refines, drive_reverse_swap_once, drive_reverse_swap-IsGuarded,
}

-- Any function serves for the hash.
abbrev hash_of : Bytes → PaymentHash
hash_of = length

abbrev secret : Bytes
secret =
    1 ∷ 2 ∷ 3 ∷ 4 ∷ 5 ∷ 6 ∷ 7 ∷ 8 ∷ 9 ∷ 10 ∷ 11 ∷ 12 ∷ 13 ∷ 14 ∷ 15 ∷ 16 ∷ 17 ∷ 18 ∷ 19 ∷ 20 ∷ 21
    ∷ 22 ∷ 23 ∷ 24 ∷ 25 ∷ 26 ∷ 27 ∷ 28 ∷ 29 ∷ 30 ∷ 31 ∷ 32 ∷ []

abbrev swap : ReverseSwap
swap = record {
  payment_hash = 32;
  onchain_amount_sat = 100_000;
  fee_rate_sat_vb = 5;
  timeout_height = 300;
  timelock = default_params;
}

abbrev fresh : Resume
fresh = record {
  invoice_pay_started_at_unix = none;
  funding = none;
  funding_intent_at_height = none;
  our_spends = [];
  reorg_seen_at_height = none;
}

abbrev htlc : OutPoint
htlc = record { txid = 7; vout = 0 }

abbrev claim : Transaction
claim = record { txid = 8; input = record { previous_output = htlc; witness = secret ∷ [] } ∷ [] }

abbrev no_refund : Opening
no_refund = record { estimate = λ target. none; spend = ok none; broadcast = λ tx. ok tx }

abbrev quiet : WatchTurn
quiet = record {
  spend = ok none;
  funding_confirmations = ok (some 3);
  settle = ok tt;
  claim_confirmations = ok none;
  tip = ok 110;
  refund_opening = no_refund;
  refund_turns = [];
}

abbrev answers : Answers
answers = record {
  invoice_turns = record { state = ok accepted; tip = ok 100 } ∷ [];
  establishing = record {
    outputs = ok [];
    find_funding = ok none;
    invoice_status = ok (400 ∷ 420 ∷ []);
    tip = ok 100;
    funding_intent = ok tt;
    fund_htlc = ok htlc;
  };
  recorded_turns = [];
  wants_claimable = true;
  watch_turns =
      quiet ∷ record quiet { spend = ok (some claim); claim_confirmations = ok (some 2) } ∷ [];
  build = λ outpoint rate. ok rate;
  refund_vsize = 150;
}

run_claims : (drive_reverse_swap hash_of swap fresh 1 answers).ends ≡ returns claimed
unfolding drive_reverse_swap ◌>>=◌ may_have_funded await_invoice ask ◌>>◌ tell establish_funding
    commit earliest_expiry check_reverse_before_fund fund adopt extract_preimage find_element
    is_preimage bury
run_claims = refl

run_funds : count funds (drive_reverse_swap hash_of swap fresh 1 answers).log ≡ 1
unfolding drive_reverse_swap count ◌>>=◌ may_have_funded await_invoice ask ◌>>◌ tell
    establish_funding commit earliest_expiry check_reverse_before_fund fund adopt extract_preimage
    find_element is_preimage bury
run_funds = refl

drive_reverse_swap_refines_example :
    (q : Phase) × (follow
        (advance hash_of swap)
        (opening (may_have_funded fresh))
        (drive_reverse_swap hash_of swap fresh 1 answers).log
      ≡ some q)
    × Post Reports (drive_reverse_swap hash_of swap fresh 1 answers).ends q
drive_reverse_swap_refines_example = drive_reverse_swap_refines hash_of swap fresh 1 answers

drive_reverse_swap_once_example :
    (count funds (drive_reverse_swap hash_of swap fresh 1 answers).log
      ≤ (if may_have_funded fresh then 0 else 1))
    × (count pays (drive_reverse_swap hash_of swap fresh 1 answers).log ≤ 1)
drive_reverse_swap_once_example = drive_reverse_swap_once hash_of swap fresh 1 answers

drive_reverse_swap-IsGuarded_example :
    IsGuarded hash_of swap (drive_reverse_swap hash_of swap fresh 1 answers).log
drive_reverse_swap-IsGuarded_example =
    drive_reverse_swap-IsGuarded hash_of swap fresh 1 answers (omega (arith, run_funds))
