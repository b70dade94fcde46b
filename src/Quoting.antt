-- ===== src/Quoting.antt =====
-- swap-provider/src/lib.rs: the quotes that a provider has issued, their redemption, and the answer
-- to a quote request. A refusal is its code; its text, the sending of the reply and the log are
-- not modelled. `same_pubky` is of pubky-transport/src/lib.rs.
pub mod Expiry
pub mod Redeemed
pub mod Order
pub mod Histories
pub mod Issued
mod Examples
use pubky_swap.Prelude.{
  ℕ, ◌+◌, ◌*◌, ◌≡◌, Bool, true, false, not, ◌&&◌, ◌||◌, String, Option, none, some, List, [], ◌∷◌,
  ◌++◌, Result, ok, err, ◌>>=◌, ◌>>◌, reject_if, ok_or, map_err, is_some, if◌then◌else◌, ltb, leb,
  eqb, ◌==◌, nat_eq, string_eq, keep, contains, length, u64_max, saturating_add,
}
use pubky_swap.Map.{lookup, insert, remove}
use pubky_swap.Swap.{SwapDirection, submarine, reverse, direction_eq}
use pubky_swap.Messages.{
  Uuid, is_nil, SwapOffer, QuoteRequest, Quote, RejectCode, quote_fee, supports,
  effective_min_amount_sat, protocol_version_supported,
}
use pubky_swap.Messages
use pubky_swap.Risk.{RiskLimits, Inner, admissible, reason_code}

abbrev pub max_tracked_quotes : ℕ
max_tracked_quotes = 10_000

abbrev pub claimable_hint_feature : String
claimable_hint_feature = "claimable-hint-v1"

pub record IssuedQuote : Type 0 where
  pub peer : String
  pub direction : SwapDirection
  pub amount_sat : ℕ
  pub fee_sat : ℕ
  pub service_fee_sat : ℕ
  pub onchain_fee_sat : ℕ
  pub expires_at_unix : ℕ
  pub claimable_hint : Bool

pub record QuoteBook : Type 0 where
  pub quotes : List (Uuid × IssuedQuote)
  pub order : List Uuid
  pub redeemed : List (Uuid × ℕ)

-- The derived `Default`.
abbrev pub empty_book : QuoteBook
empty_book = record { quotes = []; order = []; redeemed = [] }

-- An expiry of 0 is never.
abbrev pub is_live : ℕ → ℕ → Bool
is_live now expires_at = eqb expires_at 0 || ltb now expires_at

unfoldable pub prune : QuoteBook → ℕ → QuoteBook
prune book now = record book {
  quotes = keep (λ entry. is_live now (entry.1).expires_at_unix) book.quotes;
  redeemed = keep (λ entry. is_live now entry.1) book.redeemed;
}

unfoldable pub holds : QuoteBook → Uuid → Bool
holds book quote_id = is_some (lookup quote_id book.quotes)

-- The loop that makes room: the oldest ids go, as long as the book is full and there are any.
unfoldable pub evict : List Uuid → List (Uuid × IssuedQuote) → List Uuid × List (Uuid × IssuedQuote)
evict [] quotes = ([], quotes)
evict (oldest ∷ order) quotes =
    let rest = evict order (remove oldest quotes) in
    if leb max_tracked_quotes (length quotes) then rest else (oldest ∷ order, quotes)

-- `order.retain(..)` where the order has grown to twice the bound.
unfoldable pub compact : QuoteBook → List Uuid
unfolding holds
compact book =
    if leb (2 * max_tracked_quotes) (length book.order)
    then keep (λ id. holds book id) book.order
    else book.order

-- `QuoteBook::insert`.
unfoldable pub insert_quote : QuoteBook → Uuid → IssuedQuote → ℕ → QuoteBook
insert_quote book quote_id quote now =
    let pruned = prune book now in
    let room = evict (compact pruned) pruned.quotes in
    record pruned { quotes = insert quote_id quote room.1; order = room.0 ++ quote_id ∷ [] }

-- `QuoteBook::restore`; the answer says whether the quote was taken back.
unfoldable pub restore_quote : QuoteBook → Uuid → IssuedQuote → ℕ → QuoteBook × Bool
restore_quote book quote_id quote now =
    let pruned = prune book now in
    if holds pruned quote_id || is_some (lookup quote_id pruned.redeemed)
    then (pruned, false)
    else (insert_quote pruned quote_id quote now, true)

-- What the risk limits count a swap as.
unfoldable pub exposure_sat : SwapDirection → ℕ → ℕ → ℕ
exposure_sat reverse amount_sat fee_sat = amount_sat
exposure_sat submarine amount_sat fee_sat = saturating_add u64_max amount_sat fee_sat

-- Who asks: the transport's sender and account, and whether the access policy lets them in.
pub record Sender : Type 0 where
  pub name : String
  pub account : String
  pub allowed : Bool

-- The quote of an offer for a request, with the id that was drawn for it.
unfoldable pub quote_of : SwapOffer → QuoteRequest → Uuid → ℕ → ℕ → Quote
unfolding quote_fee
quote_of offer req quote_id now ttl_secs =
    let fee = quote_fee offer req.amount_sat in
    record {
      request_id = req.request_id;
      quote_id = quote_id;
      offer_id = offer.offer_id;
      direction = req.direction;
      amount_sat = req.amount_sat;
      fee_sat = fee.total_fee_sat;
      service_fee_sat = fee.service_fee_sat;
      onchain_fee_sat = fee.onchain_fee_sat;
      fee_rate_sat_vb = offer.fee_rate_sat_vb;
      total_sat = saturating_add u64_max req.amount_sat fee.total_fee_sat;
      htlc_timeout_blocks = offer.htlc_timeout_blocks;
      required_confirmations = offer.required_confirmations;
      valid_until_unix = saturating_add u64_max now ttl_secs;
      fund_within_secs = offer.fund_within_secs;
      protocol_version = Messages.protocol_version;
    }

-- What the book keeps of a quote.
unfoldable pub issued : Quote → QuoteRequest → String → IssuedQuote
issued quote req sender = record {
  peer = sender;
  direction = req.direction;
  amount_sat = req.amount_sat;
  fee_sat = quote.fee_sat;
  service_fee_sat = quote.service_fee_sat;
  onchain_fee_sat = quote.onchain_fee_sat;
  expires_at_unix = quote.valid_until_unix;
  claimable_hint = (req.direction == reverse) && contains req.features claimable_hint_feature;
}

-- `key_of` reads a public key from its text, by the `pubky` library.
module _ (key_of : String → Option ℕ) where
  unfoldable pub same_pubky : String → String → Bool
  same_pubky a b = a == b || (elim (key_of a) [
    | none ↦ false
    | some x ↦ elim (key_of b) [ none ↦ false | some y ↦ eqb x y ]
  ])

  unfoldable pub check_redeemer :
      IssuedQuote → String → SwapDirection → Result RejectCode (Unit {0})
  unfolding same_pubky
  check_redeemer quote peer direction = do
    reject_if (not (same_pubky quote.peer peer)) RejectCode.invalid_request
    reject_if (not (quote.direction == direction)) RejectCode.invalid_request

  -- The redemption from a book without its expired quotes. All is checked before the quote leaves.
  unfoldable pub redeem :
      QuoteBook → Uuid → String → SwapDirection → QuoteBook × Result RejectCode IssuedQuote
  redeem book quote_id peer direction = elim (lookup quote_id book.quotes) [
    | none ↦ (book, err RejectCode.quote_expired)
    | some quote ↦ elim (check_redeemer quote peer direction) [
      | err code ↦ (book, err code)
      | ok _ ↦ (
        record book {
          quotes = remove quote_id book.quotes;
          redeemed = insert quote_id quote.expires_at_unix book.redeemed;
        },
        ok quote,
      )
    ]
  ]

  unfoldable pub take_valid_quote :
      QuoteBook → Uuid → String → SwapDirection → ℕ → QuoteBook × Result RejectCode IssuedQuote
  unfolding redeem
  take_valid_quote book quote_id peer direction now =
      redeem (prune book now) quote_id peer direction

  -- The checks of a quote request, in the source's order.
  unfoldable pub check_request :
      SwapOffer → QuoteRequest → Sender → RiskLimits → ℕ → Inner → Result RejectCode (Unit {0})
  unfolding same_pubky quote_fee exposure_sat
  check_request offer req sender limits instant risk = do
    reject_if (not (is_nil req.offer_id) && not (eqb req.offer_id offer.offer_id))
        RejectCode.offer_stale
    reject_if (not (protocol_version_supported req.protocol_version))
        RejectCode.unsupported_protocol
    reject_if (not (same_pubky req.client_pkarr sender.name)) RejectCode.invalid_request
    reject_if (not (supports offer req.direction)) RejectCode.unsupported_route
    reject_if (ltb req.amount_sat (effective_min_amount_sat offer)) RejectCode.amount_below_minimum
    reject_if (ltb offer.max_amount_sat req.amount_sat) RejectCode.amount_above_maximum
    let fee = quote_fee offer req.amount_sat
    map_err reason_code (
        admissible limits instant risk sender.account
          (exposure_sat req.direction req.amount_sat fee.total_fee_sat))

  unfoldable pub check_asker :
      Option SwapOffer
      → QuoteRequest
      → Sender
      → RiskLimits
      → ℕ
      → Inner
      → Result RejectCode SwapOffer
  unfolding check_request
  check_asker current req sender limits instant risk = do
    reject_if (not sender.allowed) RejectCode.access_denied
    offer ← ok_or current RejectCode.pricing_unavailable
    check_request offer req sender limits instant risk
    ok offer

  -- The answer to a quote request: a refusal, or a quote that the book then holds.
  unfoldable pub answer_quote_request :
      Option SwapOffer
      → QuoteRequest
      → Sender
      → RiskLimits
      → ℕ
      → Inner
      → QuoteBook
      → Uuid
      → ℕ
      → ℕ
      → QuoteBook × Result RejectCode Quote
  answer_quote_request current req sender limits instant risk book quote_id now ttl_secs =
      elim (check_asker current req sender limits instant risk) [
        | err code ↦ (book, err code)
        | ok offer ↦
            let quote = quote_of offer req quote_id now ttl_secs in
            (insert_quote book quote_id (issued quote req sender.name) now, ok quote)
      ]
