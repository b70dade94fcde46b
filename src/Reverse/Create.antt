-- ===== src/Reverse/Create.antt =====
-- Creating a reverse swap (swap-provider/src/reverse.rs): the hold invoice that the provider asks
-- its node for, and the client's check of it (swap-common/src/validate.rs).
use pubky_swap.Prelude.{
  ℕ, ◌+◌, ◌*◌, ◌≤◌, max, ◌≡◌, inl, inr, true, String, Result, ok, ◌>>=◌, ok_or, map_err,
  checked_add, checked_mul, u64_max, arith, Result-cases,
}
use pubky_swap.Onchain.Preimages.{PaymentHash}
use pubky_swap.Timelock.{
  TimelockParams, TimelockViolation, reverse_invoice_cltv_delta, reverse_invoice_min_expiry_secs,
}
use pubky_swap.Messages.{Quote}
use pubky_swap.Validate.{ClientPolicy, DecodedHoldInvoice, validate_hold_invoice}
use pubky_swap.Reverse.{ReverseSwap}

-- `HoldInvoiceRequest` of lightning/src/lib.rs.
pub record HoldInvoiceRequest : Type 0 where
  pub payment_hash : PaymentHash
  pub amount_msat : ℕ
  pub expiry_secs : ℕ
  pub cltv_expiry_delta : ℕ
  pub memo : String

pub data CreateError : Type 0 where
  amount_overflows : CreateError
  cltv_delta : TimelockViolation → CreateError
  create_hold_invoice : String → CreateError

unfoldable pub reverse_invoice_request :
    PaymentHash → ℕ → ℕ → ℕ → TimelockParams → Result CreateError HoldInvoiceRequest
reverse_invoice_request payment_hash onchain_amount_sat provider_fee_sat expiry_secs timelock = do
  sat ← ok_or (checked_add u64_max onchain_amount_sat provider_fee_sat) amount_overflows
  amount_msat ← ok_or (checked_mul u64_max sat 1_000) amount_overflows
  delta ← map_err cltv_delta (reverse_invoice_cltv_delta timelock)
  ok (record {
    payment_hash = payment_hash;
    amount_msat = amount_msat;
    expiry_secs = max expiry_secs (reverse_invoice_min_expiry_secs timelock.required_confirmations);
    cltv_expiry_delta = delta;
    memo = "pubky-swap reverse";
  })

-- The node's answer to the request is an argument.
unfoldable pub init_reverse_swap :
    (HoldInvoiceRequest → Result String (Unit {0}))
    → PaymentHash
    → ℕ
    → ℕ
    → ℕ
    → ℕ
    → ℕ
    → TimelockParams
    → Result CreateError ReverseSwap
unfolding reverse_invoice_request
init_reverse_swap create payment_hash amount provider_fee fee_rate timeout expiry_secs timelock = do
  request ← reverse_invoice_request payment_hash amount provider_fee expiry_secs timelock
  created ← map_err create_hold_invoice (create request)
  ok (record {
    payment_hash = payment_hash;
    onchain_amount_sat = amount;
    fee_rate_sat_vb = fee_rate;
    timeout_height = timeout;
    timelock = timelock;
  })

-- The invoice that a node makes of a request at a time.
abbrev pub invoice_of : HoldInvoiceRequest → ℕ → DecodedHoldInvoice
invoice_of request issued = record {
  payment_hash = request.payment_hash;
  amount_msat = request.amount_msat;
  amount_is_explicit = true;
  expires_at_unix = issued + request.expiry_secs;
}

-- The invoice that a node makes as the provider requests it passes the check of a client that was
-- quoted the same terms, whatever expiry the provider is configured with: at every time up to
-- `(12 - confirmations) * 600` seconds after its issue, with at most twelve confirmations, and a
-- client that asks for no more of them than the quote. Times are below 2^64.
pub requested_invoice_validates :
    (request : HoldInvoiceRequest) (quote : Quote) (policy : ClientPolicy)
    (hash amount fee expiry_secs issued now : ℕ) (timelock : TimelockParams)
    → reverse_invoice_request hash amount fee expiry_secs timelock ≡ ok request
    → quote.total_sat ≡ amount + fee
    → quote.required_confirmations ≡ timelock.required_confirmations
    → timelock.required_confirmations ≤ 12
    → policy.min_required_confirmations ≤ quote.required_confirmations
    → now + quote.required_confirmations * 600 ≤ issued + 12 * 600
    → issued + request.expiry_secs ≤ u64_max
    → validate_hold_invoice (invoice_of request issued) quote hash now policy ≡ ok tt
unfolding reverse_invoice_request validate_hold_invoice reverse_invoice_min_expiry_secs
requested_invoice_validates request quote policy hash amount fee expiry issued now p e ht hc h12 hp
      hn hu =
    elim (Result-cases (reverse_invoice_cltv_delta p)) [
      | inr (violation, bad) ↦ ground (arith, bad)
      | inl (delta, good) ↦ ground (arith, good)
    ]
