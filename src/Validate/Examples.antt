-- ===== src/Validate/Examples.antt =====
-- The validation theorems at one honest exchange (swap-common/src/validate.rs).
use pubky_swap.Prelude.{◌≡◌, refl, ◌+◌, [], none, some, true, ok, err, arith}
use pubky_swap.Swap.{submarine}
use pubky_swap.Timelock.{
  default_params, check_client_submarine_accept, reverse_invoice_min_expiry_secs,
}
use pubky_swap.Messages.{Quote, QuoteRequest, SwapAccept, p2wsh}
use pubky_swap.Validate.{
  ClientPolicy, DecodedHoldInvoice, validate_quote, validate_accept, validate_hold_invoice,
  invoice_expires_too_soon,
}
use pubky_swap.Validate.Quotes.{AnswersRequest, IsFirm, IsPriced, validate_quote_sound}
use pubky_swap.Validate.Accepts.{Matches, IsTimely, validate_accept_sound}
use pubky_swap.Validate.Invoices.{floor_expiry_too_short}

abbrev request : QuoteRequest
request = record {
  request_id = none;
  offer_id = 11;
  client_pkarr = "client";
  direction = submarine;
  amount_sat = 100_000;
  protocol_version = 1;
  features = [];
}

abbrev quote : Quote
quote = record {
  request_id = none;
  quote_id = 21;
  offer_id = 11;
  direction = submarine;
  amount_sat = 100_000;
  fee_sat = 700;
  service_fee_sat = 500;
  onchain_fee_sat = 200;
  fee_rate_sat_vb = 5;
  total_sat = 100_700;
  htlc_timeout_blocks = 144;
  required_confirmations = 2;
  valid_until_unix = 1_700_000_600;
  fund_within_secs = 600;
  protocol_version = 1;
}

abbrev policy : ClientPolicy
policy = record {
  min_required_confirmations = 2;
  max_required_confirmations = 12;
  max_fee_bps = 500;
  max_total_sat = 18_446_744_073_709_551_615;
  timelock = default_params;
}

abbrev accept : SwapAccept
accept = record {
  script_type = p2wsh;
  swap_tree = none;
  quote_id = 21;
  swap_id = 31;
  direction = submarine;
  htlc_script_hex = "63a8";
  htlc_address = "bcrt1q";
  onchain_amount_sat = 100_700;
  timeout_block_height = 800_147;
  provider_pubkey_hex = "02ab";
  invoice = none;
}

-- Issued at 1_700_000_000 with the floor of two confirmations, thirty blocks, as its expiry.
abbrev invoice : DecodedHoldInvoice
invoice = record {
  payment_hash = 99;
  amount_msat = 100_700_000;
  amount_is_explicit = true;
  expires_at_unix = 1_700_018_000;
}

abbrev deepest_quote : Quote
deepest_quote = record quote { required_confirmations = 12 }

quote_passes : validate_quote quote request 1_700_000_000 policy ≡ ok tt
unfolding validate_quote
quote_passes = refl

accept_passes : validate_accept accept quote (some 800_000) policy ≡ ok tt
unfolding validate_accept check_client_submarine_accept
accept_passes = refl

validate_quote_sound_example :
    AnswersRequest quote request × IsFirm quote 1_700_000_000 × IsPriced quote policy
validate_quote_sound_example = validate_quote_sound quote request 1_700_000_000 policy quote_passes

validate_accept_sound_example : Matches accept quote × IsTimely 800_147 quote 800_000 policy
validate_accept_sound_example =
    validate_accept_sound accept quote 800_000 policy (omega arith) (omega arith) accept_passes

floor_expiry_too_short_example :
    validate_hold_invoice invoice deepest_quote 99 1_700_000_001 policy
    ≡ err (invoice_expires_too_soon (1_700_000_000 + 18_000) (1_700_000_001 + 18_000))
unfolding reverse_invoice_min_expiry_secs
floor_expiry_too_short_example =
    floor_expiry_too_short invoice deepest_quote 99 1_700_000_000 1_700_000_001 policy refl refl
      refl (omega arith) refl refl (omega arith) (omega arith) (omega arith)
