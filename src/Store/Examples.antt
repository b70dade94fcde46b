-- ===== src/Store/Examples.antt =====
-- The record's operations, and the lives of a swap, at concrete values (swap-common/src/store.rs,
-- swap-provider/src/recovery.rs and lib.rs).
use pubky_swap.Prelude.{
  ◌≤◌, ◌≡◌, refl, true, false, none, [], ◌∷◌, contains, nat_eq, arith, length, ok,
}
use pubky_swap.Onchain.Preimages.{Bytes, PaymentHash}
use pubky_swap.Chain.{OutPoint}
use pubky_swap.Swap.{reverse, created}
use pubky_swap.Timelock.{default_params, check_reverse_before_fund}
use pubky_swap.Driver.Counts.{count}
use pubky_swap.Reverse.{earliest_expiry, ReverseSwap, accepted, Answers}
use pubky_swap.Reverse.Establish.{
  await_invoice, establish_funding, commit, fund, adopt, may_have_funded, await_recorded_funding,
}
use pubky_swap.Reverse.Watch.{drive_reverse_swap}
use pubky_swap.Driver.{unfinished, ask, tell, ◌>>=◌, ◌>>◌}
use pubky_swap.Store.{
  SwapRecord, provider, resume, note_our_spend, our_spends, funds_at_risk, progressed,
}
use pubky_swap.Store.Recovery.{retry, give_up, record_failure}
use pubky_swap.Store.Spends.{IsTracked, note_our_spend-IsTracked}
use pubky_swap.Store.Crashes.{Kept, Life, write_all, total_funds, funded_once_across_crashes}

abbrev new_record : SwapRecord
new_record = record {
  role = provider;
  direction = reverse;
  pending_hold_invoice = false;
  state = created;
  funding_txid = none;
  funding_vout = none;
  funding_intent_at_height = none;
  funding_attempts = 0;
  invoice_pay_started_at_unix = none;
  claim_observed_txid = none;
  spend_txid = none;
  our_spend_txids = 4 ∷ 5 ∷ [];
  claimable_at_unix = none;
  reorg_seen_at_height = none;
  last_error = none;
  retry_count = 10;
  next_retry_at_unix = none;
  updated_at_unix = 1_000;
}

note_our_spend-IsTracked_example :
    IsTracked (note_our_spend new_record 6).our_spend_txids
    × (contains (our_spends (note_our_spend new_record 6)) 6 ≡ true)
note_our_spend-IsTracked_example =
    note_our_spend-IsTracked new_record 6 (omega arith, (refl, (refl, tt)))

-- With nothing at risk, the ninth failure is retried and the tenth is not.
abbrev safe_record : SwapRecord
safe_record = record new_record { our_spend_txids = []; retry_count = 8 }

earns_a_retry : (record_failure 77 1_000 safe_record "down" true).1 ≡ retry 225_077
unfolding record_failure funds_at_risk
earns_a_retry = refl

is_given_up :
    (record_failure 77 1_000 (record safe_record { retry_count = 9 }) "down" true).1 ≡ give_up
unfolding record_failure funds_at_risk
is_given_up = refl

-- Any function serves for the hash.
abbrev hash_of : Bytes → PaymentHash
hash_of = length

abbrev swap : ReverseSwap
swap = record {
  payment_hash = 32;
  onchain_amount_sat = 100_000;
  fee_rate_sat_vb = 5;
  timeout_height = 300;
  timelock = default_params;
}

abbrev htlc : OutPoint
htlc = record { txid = 7; vout = 0 }

abbrev answers : Answers
answers = record {
  invoice_turns = record { state = ok accepted; tip = ok 100 } ∷ [];
  establishing = record {
    outputs = ok [];
    find_funding = ok none;
    invoice_status = ok (400 ∷ 420 ∷ []);
    tip = ok 100;
    funding_intent = ok tt;
    fund_htlc = ok htlc;
  };
  recorded_turns = [];
  wants_claimable = false;
  watch_turns = [];
  build = λ outpoint rate. ok rate;
  refund_vsize = 150;
}

-- The process dies right after the wallet was asked, with no write but the intent on disk.
abbrev dies : Life
dies = record { answers = answers; made = 4; landed = λ c. false; now = 2_000; crashed = true }

abbrev untouched : Kept
untouched = record { memory = new_record; disk = new_record }

funded_once_across_crashes_example : total_funds hash_of swap 1 untouched (dies ∷ dies ∷ []) ≤ 1
funded_once_across_crashes_example =
    funded_once_across_crashes hash_of swap 1 untouched (dies ∷ dies ∷ [])

run_twice : total_funds hash_of swap 1 untouched (dies ∷ dies ∷ []) ≡ 1
unfolding total_funds count drive_reverse_swap ◌>>=◌ may_have_funded resume await_invoice ask ◌>>◌
    tell establish_funding commit earliest_expiry check_reverse_before_fund fund adopt write_all
    progressed await_recorded_funding unfinished
run_twice = refl
