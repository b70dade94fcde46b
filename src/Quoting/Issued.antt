-- ===== src/Quoting/Issued.antt =====
-- What a provider quotes, against what a client accepts and what the book then redeems
-- (swap-provider/src/lib.rs, swap-common/src/validate.rs).
use pubky_swap.Prelude.{
  ℕ, ◌+◌, ◌*◌, ◌/◌, ◌≤◌, ◌<◌, ◌≡◌, ◌≢◌, inl, inr, String, Option, some, ok, arith, nat_eq, eqb_iff,
  u64_max, Result-cases,
}
use pubky_swap.Swap.{direction_eq}
use pubky_swap.Messages.{Uuid, SwapOffer, QuoteRequest, Quote, quote_fee}
use pubky_swap.Risk.{RiskLimits, Inner}
use pubky_swap.Validate.{
  ClientPolicy, validate_quote, max_quote_validity_secs, max_fund_within_secs,
}
use pubky_swap.Validate.Quotes.{AnswersRequest, IsFirm, IsPriced, validate_quote_complete}
use pubky_swap.Quoting.{
  QuoteBook, Sender, insert_quote, quote_of, issued, check_request, check_asker,
  answer_quote_request,
}

-- The terms of an offer that a client's policy accepts for an amount.
pub record IsAcceptable (offer : SwapOffer) (amount : ℕ) (policy : ClientPolicy) : Type 0 where
  pub fee_capped :
      (offer.base_fee_sat + amount * offer.fee_ppm / 1_000_000 + offer.onchain_fee_sat) * 10_000
      ≤ amount * policy.max_fee_bps
  pub total_capped :
      amount + (offer.base_fee_sat + amount * offer.fee_ppm / 1_000_000 + offer.onchain_fee_sat)
      ≤ policy.max_total_sat
  pub total_fits :
      amount + (offer.base_fee_sat + amount * offer.fee_ppm / 1_000_000 + offer.onchain_fee_sat)
      ≤ u64_max
  pub share_fits : amount * policy.max_fee_bps / 10_000 ≤ u64_max
  pub deep_enough : policy.min_required_confirmations ≤ offer.required_confirmations
  pub not_too_deep : offer.required_confirmations ≤ policy.max_required_confirmations
  pub prompt : offer.fund_within_secs ≤ max_fund_within_secs

quote_of-IsPriced :
    (offer : SwapOffer) (req : QuoteRequest) (id : Uuid) (now ttl_secs : ℕ) (policy : ClientPolicy)
    → IsAcceptable offer req.amount_sat policy
    → IsPriced (quote_of offer req id now ttl_secs) policy
unfolding quote_of quote_fee
quote_of-IsPriced offer req id now ttl_secs policy a = ground arith

quote_of-IsFirm :
    (offer : SwapOffer) (req : QuoteRequest) (id : Uuid) (now ttl_secs seen : ℕ)
    (policy : ClientPolicy)
    → IsAcceptable offer req.amount_sat policy
    → now + ttl_secs ≤ u64_max
    → seen < now + ttl_secs
    → now + ttl_secs ≤ seen + max_quote_validity_secs
    → IsFirm (quote_of offer req id now ttl_secs) seen
unfolding quote_of
quote_of-IsFirm offer req id now ttl_secs seen policy a hu live short = ground arith

quote_of-fits :
    (offer : SwapOffer) (req : QuoteRequest) (id : Uuid) (now ttl_secs : ℕ) (policy : ClientPolicy)
    → IsAcceptable offer req.amount_sat policy
    → ((quote_of offer req id now ttl_secs).total_sat ≤ u64_max)
      × ((quote_of offer req id now ttl_secs).amount_sat * policy.max_fee_bps / 10_000 ≤ u64_max)
unfolding quote_of quote_fee
quote_of-fits offer req id now ttl_secs policy a = ground arith

module _ (key_of : String → Option ℕ) where
  checked-AnswersRequest :
      (offer : SwapOffer) (req : QuoteRequest) (sender : Sender) (limits : RiskLimits) (instant : ℕ)
      (risk : Inner) (id : Uuid) (now ttl_secs : ℕ)
      → check_request key_of offer req sender limits instant risk ≡ ok tt
      → id ≢ 0
      → AnswersRequest (quote_of offer req id now ttl_secs) req
  unfolding check_request quote_of
  checked-AnswersRequest offer req sender limits instant risk id now ttl_secs h k =
      ground (arith, eqb_iff req.offer_id 0, eqb_iff req.offer_id offer.offer_id)

  -- What has passed when a quote is answered, and what the answer is.
  answer-ok :
      (offer : SwapOffer) (req : QuoteRequest) (sender : Sender) (limits : RiskLimits) (instant : ℕ)
      (risk : Inner) (book : QuoteBook) (id : Uuid) (now ttl_secs : ℕ) (quote : Quote)
      → (answer_quote_request key_of
          (some offer)
          req
          sender
          limits
          instant
          risk
          book
          id
          now
          ttl_secs).1
        ≡ ok quote
      → (check_request key_of offer req sender limits instant risk ≡ ok tt)
        × (quote ≡ quote_of offer req id now ttl_secs)
        × ((answer_quote_request key_of
              (some offer)
              req
              sender
              limits
              instant
              risk
              book
              id
              now
              ttl_secs).0
            ≡ insert_quote book id (issued quote req sender.name) now)
  unfolding answer_quote_request check_asker
  answer-ok offer req sender limits instant risk book id now ttl_secs quote h =
      elim (Result-cases (check_request key_of offer req sender limits instant risk)) [
        | inr (code, refused) ↦ ground (arith, refused)
        | inl (done, passed) ↦ ground (arith, passed)
      ]

  -- A quote that the provider answers passes the validation of the client that asked for it,
  -- wherever the offer's terms are acceptable to that client's policy for the amount, the quote's
  -- time to live is an hour at most, and the client looks at it before it expires and no earlier
  -- than an hour before. The drawn id is not nil.
  pub answered_quote_validates :
      (offer : SwapOffer) (req : QuoteRequest) (sender : Sender) (limits : RiskLimits) (instant : ℕ)
      (risk : Inner) (book : QuoteBook) (id : Uuid) (now ttl_secs : ℕ) (quote : Quote)
      (policy : ClientPolicy) (seen : ℕ)
      → (answer_quote_request key_of
          (some offer)
          req
          sender
          limits
          instant
          risk
          book
          id
          now
          ttl_secs).1
        ≡ ok quote
      → id ≢ 0
      → IsAcceptable offer req.amount_sat policy
      → now + ttl_secs ≤ u64_max
      → seen < now + ttl_secs
      → now + ttl_secs ≤ seen + max_quote_validity_secs
      → validate_quote quote req seen policy ≡ ok tt
  answered_quote_validates offer req sender limits instant risk book id now ttl_secs quote policy
        seen h k a hu live short =
      let (passed, same, stored) =
        answer-ok offer req sender limits instant risk book id now ttl_secs quote h in
      let fits = quote_of-fits offer req id now ttl_secs policy a in
      rw same (
        validate_quote_complete (quote_of offer req id now ttl_secs) req seen policy
          (checked-AnswersRequest offer req sender limits instant risk id now ttl_secs passed k)
          (quote_of-IsFirm offer req id now ttl_secs seen policy a hu live short)
          (quote_of-IsPriced offer req id now ttl_secs policy a) fits.0 fits.1)
