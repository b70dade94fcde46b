-- ===== src/Quoting/Examples.antt =====
-- One quote: asked for, answered, redeemed by its owner (swap-provider/src/lib.rs).
use pubky_swap.Prelude.{
  ℕ, ◌≡◌, ◌≤◌, refl, String, Option, none, some, List, [], ◌∷◌, true, false, ok, err, arith, length,
  nat_eq,
}
use pubky_swap.Map.{lookup}
use pubky_swap.Swap.{submarine, reverse, NetworkSpec}
use pubky_swap.Timelock.{default_params}
use pubky_swap.Messages.{
  SwapOffer, QuoteRequest, Quote, RejectCode, protocol_version_supported, supports,
  effective_min_amount_sat,
}
use pubky_swap.Validate.{ClientPolicy, validate_quote}
use pubky_swap.Risk.{new_inner, default_limits, admissible, check_peer, check_total}
use pubky_swap.Quoting.{
  IssuedQuote, QuoteBook, Sender, empty_book, max_tracked_quotes, prune, restore_quote,
  take_valid_quote, quote_of, answer_quote_request, check_asker, check_redeemer,
}
use pubky_swap.Quoting.Histories.{
  Event, issues, takes, takes_back, book_run, book_run_fits, redeemed_once,
}
use pubky_swap.Quoting.Issued.{IsAcceptable, answered_quote_validates}

-- No text of these examples encodes a key, so names are compared as texts.
abbrev key_of : String → Option ℕ
key_of name = none

abbrev alices : IssuedQuote
alices = record {
  peer = "alice";
  direction = reverse;
  amount_sat = 100_000;
  fee_sat = 700;
  service_fee_sat = 500;
  onchain_fee_sat = 200;
  expires_at_unix = 1_600;
  claimable_hint = false;
}

abbrev book : QuoteBook
book = record { quotes = (21, alices) ∷ []; order = 21 ∷ []; redeemed = [] }

abbrev later_events : List Event
later_events =
    issues 22 alices 1_100 ∷ takes_back 21 alices 1_150 ∷ takes 21 "alice" reverse 1_200 ∷ []

alice_takes : (take_valid_quote key_of book 21 "alice" reverse 1_050).1 ≡ ok alices
unfolding take_valid_quote prune lookup check_redeemer
alice_takes = refl

redeemed_once_example :
    ((take_valid_quote key_of
        (book_run key_of (take_valid_quote key_of book 21 "alice" reverse 1_050).0 later_events)
        21
        "alice"
        reverse
        1_300).1
      ≡ err RejectCode.quote_expired)
    × ((restore_quote
          (book_run key_of (take_valid_quote key_of book 21 "alice" reverse 1_050).0 later_events)
          21
          alices
          1_300).1
        ≡ false)
redeemed_once_example =
    redeemed_once key_of book 21 "alice" "alice" reverse reverse 1_050 1_300 alices alices
      later_events alice_takes (((λ same. omega (arith, same)), refl), (refl, (refl, tt))) refl

book_run_fits_example : length (book_run key_of empty_book later_events).quotes ≤ max_tracked_quotes
book_run_fits_example = book_run_fits key_of later_events

abbrev offer : SwapOffer
offer = record {
  request_id = none;
  offer_id = 11;
  provider_pkarr = "provider";
  network = NetworkSpec.regtest;
  directions = submarine ∷ reverse ∷ [];
  min_amount_sat = 10_000;
  max_amount_sat = 1_000_000;
  base_fee_sat = 500;
  fee_ppm = 2_000;
  required_confirmations = 2;
  htlc_timeout_blocks = 144;
  lightning_node_id = none;
  valid_until_unix = 1_700_000_600;
  fund_within_secs = 600;
  onchain_fee_sat = 1_200;
  fee_rate_sat_vb = 5;
  protocol_version = 1;
  features = [];
}

abbrev request : QuoteRequest
request = record {
  request_id = none;
  offer_id = 11;
  client_pkarr = "alice";
  direction = submarine;
  amount_sat = 100_000;
  protocol_version = 1;
  features = [];
}

abbrev alice : Sender
alice = record { name = "alice"; account = "alice"; allowed = true }

abbrev policy : ClientPolicy
policy = record {
  min_required_confirmations = 2;
  max_required_confirmations = 12;
  max_fee_bps = 500;
  max_total_sat = 18_446_744_073_709_551_615;
  timelock = default_params;
}

abbrev quote : Quote
quote = quote_of offer request 21 1_700_000_000 600

alice_is_answered :
    (answer_quote_request key_of
      (some offer)
      request
      alice
      default_limits
      7
      new_inner
      empty_book
      21
      1_700_000_000
      600).1
    ≡ ok quote
unfolding answer_quote_request check_asker protocol_version_supported supports
    effective_min_amount_sat admissible check_peer lookup new_inner check_total
alice_is_answered = refl

offer-IsAcceptable : IsAcceptable offer 100_000 policy
offer-IsAcceptable = ground arith

answered_quote_validates_example : validate_quote quote request 1_700_000_030 policy ≡ ok tt
answered_quote_validates_example =
    answered_quote_validates key_of offer request alice default_limits 7 new_inner empty_book 21
      1_700_000_000 600 quote policy 1_700_000_030 alice_is_answered (λ same. omega (arith, same))
      offer-IsAcceptable (omega arith) (omega arith) (omega arith)
