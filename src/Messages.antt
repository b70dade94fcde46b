-- ===== src/Messages.antt =====
-- swap-common/src/messages.rs: the offer, the quote and the acceptance of a swap, their fees, and
-- the codes of a refusal. A `Uuid` is its 128-bit number, nil is 0; keys, addresses, invoices and
-- hex texts are the strings that travel.
pub mod Offers
pub mod Codes
use pubky_swap.Prelude.{
  ℕ, ◌+◌, ◌*◌, ◌/◌, ◌≤◌, ◌<◌, max, ◌≡◌, Bool, true, false, not, ◌&&◌, String, Option, none, some,
  List, [], ◌∷◌, Result, ok, err, if◌then◌else◌, ltb, leb, eqb, contains, u64_max, as_u64,
  saturating_add, saturating_mul, ◌==◌, string_eq, nat_eq,
}
use pubky_swap.Swap.{SwapDirection, NetworkSpec, direction_eq}

abbrev pub Uuid : Type 0
Uuid = ℕ

abbrev pub is_nil : Uuid → Bool
is_nil id = eqb id 0

abbrev pub protocol_version : ℕ
protocol_version = 1

abbrev pub min_supported_protocol_version : ℕ
min_supported_protocol_version = 0

unfoldable pub protocol_version_supported : ℕ → Bool
protocol_version_supported version =
    leb min_supported_protocol_version version && leb version protocol_version

pub record SwapOffer : Type 0 where
  pub request_id : Option Uuid
  pub offer_id : Uuid
  pub provider_pkarr : String
  pub network : NetworkSpec
  pub directions : List SwapDirection
  pub min_amount_sat : ℕ
  pub max_amount_sat : ℕ
  pub base_fee_sat : ℕ
  pub fee_ppm : ℕ
  pub required_confirmations : ℕ
  pub htlc_timeout_blocks : ℕ
  pub lightning_node_id : Option String
  pub valid_until_unix : ℕ
  pub fund_within_secs : ℕ
  pub onchain_fee_sat : ℕ
  pub fee_rate_sat_vb : ℕ
  pub protocol_version : ℕ
  pub features : List String

pub record QuoteFee : Type 0 where
  pub service_fee_sat : ℕ
  pub onchain_fee_sat : ℕ
  pub total_fee_sat : ℕ

abbrev pub min_amount_fee_multiple : ℕ
min_amount_fee_multiple = 10

unfoldable pub quote_fee : SwapOffer → ℕ → QuoteFee
quote_fee o amount_sat =
    let proportional = as_u64 (amount_sat * o.fee_ppm / 1_000_000) in
    let service = saturating_add u64_max o.base_fee_sat proportional in
    record {
      service_fee_sat = service;
      onchain_fee_sat = o.onchain_fee_sat;
      total_fee_sat = saturating_add u64_max service o.onchain_fee_sat;
    }

unfoldable pub supports : SwapOffer → SwapDirection → Bool
supports o dir = contains o.directions dir

unfoldable pub effective_min_amount_sat : SwapOffer → ℕ
effective_min_amount_sat o =
    max o.min_amount_sat (saturating_mul u64_max o.onchain_fee_sat min_amount_fee_multiple)

unfoldable pub accepts_amount : SwapOffer → ℕ → Bool
unfolding effective_min_amount_sat
accepts_amount o amount_sat =
    leb (effective_min_amount_sat o) amount_sat && leb amount_sat o.max_amount_sat

pub record QuoteRequest : Type 0 where
  pub request_id : Option Uuid
  pub offer_id : Uuid
  pub client_pkarr : String
  pub direction : SwapDirection
  pub amount_sat : ℕ
  pub protocol_version : ℕ
  pub features : List String

pub record Quote : Type 0 where
  pub request_id : Option Uuid
  pub quote_id : Uuid
  pub offer_id : Uuid
  pub direction : SwapDirection
  pub amount_sat : ℕ
  pub fee_sat : ℕ
  pub service_fee_sat : ℕ
  pub onchain_fee_sat : ℕ
  pub fee_rate_sat_vb : ℕ
  pub total_sat : ℕ
  pub htlc_timeout_blocks : ℕ
  pub required_confirmations : ℕ
  pub valid_until_unix : ℕ
  pub fund_within_secs : ℕ
  pub protocol_version : ℕ

unfoldable pub is_expired : Quote → ℕ → Bool
is_expired q now_unix = not (eqb q.valid_until_unix 0) && leb q.valid_until_unix now_unix

pub data SwapScript : Type 0 where
  p2wsh taproot_boltz : SwapScript

-- swap-common/src/taproot.rs: a leaf and the two-leaf tree of a Taproot contract, as sent.
pub record BoltzTapLeaf : Type 0 where
  pub version : ℕ
  pub output : String

pub record BoltzSwapTree : Type 0 where
  pub claim_leaf : BoltzTapLeaf
  pub refund_leaf : BoltzTapLeaf

pub record SwapAccept : Type 0 where
  pub script_type : SwapScript
  pub swap_tree : Option BoltzSwapTree
  pub quote_id : Uuid
  pub swap_id : Uuid
  pub direction : SwapDirection
  pub htlc_script_hex : String
  pub htlc_address : String
  pub onchain_amount_sat : ℕ
  pub timeout_block_height : ℕ
  pub provider_pubkey_hex : String
  pub invoice : Option String

pub data RejectCode : Type 0 where
  not_found pending access_denied unsupported_route amount_below_minimum : RejectCode
  amount_above_maximum liquidity_unavailable rate_limited pricing_unavailable : RejectCode
  quote_expired invalid_destination invalid_request unsupported_protocol : RejectCode
  offer_stale internal_error : RejectCode

unfoldable pub all_codes : List RejectCode
all_codes =
    not_found ∷ pending ∷ access_denied ∷ unsupported_route ∷ amount_below_minimum
    ∷ amount_above_maximum ∷ liquidity_unavailable ∷ rate_limited ∷ pricing_unavailable
    ∷ quote_expired ∷ invalid_destination ∷ invalid_request ∷ unsupported_protocol ∷ offer_stale
    ∷ internal_error ∷ []

unfoldable pub code_as_str : RejectCode → String
code_as_str not_found = "not_found"
code_as_str pending = "pending"
code_as_str access_denied = "access_denied"
code_as_str unsupported_route = "unsupported_route"
code_as_str amount_below_minimum = "amount_below_minimum"
code_as_str amount_above_maximum = "amount_above_maximum"
code_as_str liquidity_unavailable = "liquidity_unavailable"
code_as_str rate_limited = "rate_limited"
code_as_str pricing_unavailable = "pricing_unavailable"
code_as_str quote_expired = "quote_expired"
code_as_str invalid_destination = "invalid_destination"
code_as_str invalid_request = "invalid_request"
code_as_str unsupported_protocol = "unsupported_protocol"
code_as_str offer_stale = "offer_stale"
code_as_str internal_error = "internal_error"

-- `into_iter().find(..)` over a list of codes.
unfoldable pub find_code : String → List RejectCode → Option RejectCode
find_code value [] = none
find_code value (c ∷ cs) = if code_as_str c == value then some c else find_code value cs

-- `FromStr`; its one error, `UnknownRejectCode`, is `none`.
unfoldable pub code_from_str : String → Option RejectCode
unfolding find_code all_codes
code_from_str value = find_code value all_codes
