-- ===== src/Validate/Quotes.antt =====
-- What a validated quote guarantees the client (swap-common/src/validate.rs).
use pubky_swap.Prelude.{ℕ, ◌+◌, ◌*◌, ◌/◌, ◌≤◌, ◌<◌, ◌≡◌, ◌≢◌, ◌⊎◌, ok, arith, u64_max, >>-eq-ok}
use pubky_swap.Swap.{direction_eq}
use pubky_swap.Messages.{Quote, QuoteRequest}
use pubky_swap.Validate.{
  ClientPolicy, check_quote_binding, check_quote_times, check_itemisation, check_quote_amounts,
  validate_quote, max_quote_validity_secs, max_fund_within_secs,
}

-- The quote answers this request, in a protocol that the client speaks.
pub record AnswersRequest (quote : Quote) (request : QuoteRequest) : Type 0 where
  pub identified : quote.quote_id ≢ 0
  pub version : quote.protocol_version ≤ 1
  pub offer : (request.offer_id ≡ 0) ⊎ (quote.offer_id ≡ request.offer_id)
  pub direction : quote.direction ≡ request.direction
  pub amount : quote.amount_sat ≡ request.amount_sat

-- The quote is firm at `now`, for an hour at most.
pub record IsFirm (quote : Quote) (now : ℕ) : Type 0 where
  pub live : now < quote.valid_until_unix
  pub bounded : quote.valid_until_unix ≤ now + max_quote_validity_secs
  pub prompt : quote.fund_within_secs ≤ max_fund_within_secs

-- The price is the amount and its itemised fee, within the policy.
pub record IsPriced (quote : Quote) (policy : ClientPolicy) : Type 0 where
  pub total : quote.total_sat ≡ quote.amount_sat + quote.fee_sat
  pub itemised :
      ((quote.service_fee_sat ≡ 0) × (quote.onchain_fee_sat ≡ 0))
      ⊎ (quote.service_fee_sat + quote.onchain_fee_sat ≡ quote.fee_sat)
  pub fee_capped : quote.fee_sat * 10_000 ≤ quote.amount_sat * policy.max_fee_bps
  pub total_capped : quote.total_sat ≤ policy.max_total_sat
  pub deep_enough : policy.min_required_confirmations ≤ quote.required_confirmations
  pub not_too_deep : quote.required_confirmations ≤ policy.max_required_confirmations

check_quote_binding-ok :
    (quote : Quote) (request : QuoteRequest)
    → check_quote_binding quote request ≡ ok tt
    → AnswersRequest quote request
unfolding check_quote_binding
check_quote_binding-ok quote request h = ground arith

check_quote_times-ok :
    (quote : Quote) (now : ℕ) → check_quote_times quote now ≡ ok tt → IsFirm quote now
unfolding check_quote_times
check_quote_times-ok quote now h = ground arith

check_itemisation-ok :
    (quote : Quote)
    → check_itemisation quote ≡ ok tt
    → ((quote.service_fee_sat ≡ 0) × (quote.onchain_fee_sat ≡ 0))
      ⊎ (quote.service_fee_sat + quote.onchain_fee_sat ≡ quote.fee_sat)
unfolding check_itemisation
check_itemisation-ok quote h = ground arith

check_quote_amounts-ok :
    (quote : Quote) (policy : ClientPolicy)
    → check_quote_amounts quote policy ≡ ok tt
    → IsPriced quote policy
unfolding check_quote_amounts
check_quote_amounts-ok quote policy h = ground (arith)

-- A quote that passes answers the request, is firm at that time, and is priced within the
-- policy: its total is the amount and the fee with nothing else, the fee is within the policy's
-- share of the amount (no wrap of the arithmetic lets a larger one through), and the
-- confirmations are between the policy's bounds.
pub validate_quote_sound :
    (quote : Quote) (request : QuoteRequest) (now : ℕ) (policy : ClientPolicy)
    → validate_quote quote request now policy ≡ ok tt
    → AnswersRequest quote request × IsFirm quote now × IsPriced quote policy
unfolding validate_quote
validate_quote_sound quote request now policy h =
    let (binding, rest) = >>-eq-ok (check_quote_binding quote request) _ h in
    let (times, amounts) = >>-eq-ok (check_quote_times quote now) _ rest in
    (
      check_quote_binding-ok quote request binding,
      check_quote_times-ok quote now times,
      check_quote_amounts-ok quote policy amounts,
    )

check_quote_binding_of :
    (quote : Quote) (request : QuoteRequest)
    → AnswersRequest quote request
    → check_quote_binding quote request ≡ ok tt
unfolding check_quote_binding
check_quote_binding_of quote request a = ground arith

check_quote_times_of :
    (quote : Quote) (now : ℕ) → IsFirm quote now → check_quote_times quote now ≡ ok tt
unfolding check_quote_times
check_quote_times_of quote now f = ground arith

check_itemisation_of :
    (quote : Quote)
    → ((quote.service_fee_sat ≡ 0) × (quote.onchain_fee_sat ≡ 0))
      ⊎ (quote.service_fee_sat + quote.onchain_fee_sat ≡ quote.fee_sat)
    → quote.fee_sat ≤ u64_max
    → check_itemisation quote ≡ ok tt
unfolding check_itemisation
check_itemisation_of quote parts h = ground arith

check_quote_amounts_of :
    (quote : Quote) (policy : ClientPolicy)
    → IsPriced quote policy
    → quote.total_sat ≤ u64_max
    → quote.amount_sat * policy.max_fee_bps / 10_000 ≤ u64_max
    → check_quote_amounts quote policy ≡ ok tt
unfolding check_quote_amounts
check_quote_amounts_of quote policy p ht hf = ground (arith, check_itemisation_of quote p.itemised)

-- Conversely a quote that answers the request, is firm and is priced within the policy passes,
-- where its total and the policy's share of the amount are below 2^64.
pub validate_quote_complete :
    (quote : Quote) (request : QuoteRequest) (now : ℕ) (policy : ClientPolicy)
    → AnswersRequest quote request
    → IsFirm quote now
    → IsPriced quote policy
    → quote.total_sat ≤ u64_max
    → quote.amount_sat * policy.max_fee_bps / 10_000 ≤ u64_max
    → validate_quote quote request now policy ≡ ok tt
unfolding validate_quote
validate_quote_complete quote request now policy a f p ht hf = rw (
  check_quote_binding_of quote request a,
  check_quote_times_of quote now f,
  check_quote_amounts_of quote policy p ht hf,
)
