-- ===== src/Swap.antt =====
-- swap-common/src/swap.rs: direction, network, the lifecycle state of a swap and the Paykit leg
-- status that a record in that state reports.
pub mod Legs
use pubky_swap.Prelude.{
  ℕ, ◌≡◌, refl, Bool, true, false, not, ◌&&◌, String, Option, none, some, Result, ok, err,
  if◌then◌else◌, Eq, ◌↔◌, arith,
}

pub data SwapDirection : Type 0 where
  submarine reverse : SwapDirection

-- `SwapDirection::as_str`, which `Display` prints too.
unfoldable pub as_str : SwapDirection → String
as_str submarine = "submarine"
as_str reverse = "reverse"

-- The derived `PartialEq`.
abbrev pub direction_beq : SwapDirection → SwapDirection → Bool
direction_beq submarine submarine = true
direction_beq reverse reverse = true
direction_beq _ _ = false

pub direction_beq_iff : (a b : SwapDirection) → (direction_beq a b ≡ true) ↔ (a ≡ b)
direction_beq_iff a b = ground arith

instance abbrev pub direction_eq : Eq SwapDirection
direction_eq = record { beq = direction_beq; beq_iff = direction_beq_iff }

pub data NetworkSpec : Type 0 where
  bitcoin testnet signet regtest : NetworkSpec

-- `bitcoin::Network` is `#[non_exhaustive]`: `future n` stands for a variant that the crate may
-- gain, and of which the source knows nothing.
pub data Network : Type 0 where
  mainnet testnet signet regtest : Network
  future : ℕ → Network

unfoldable pub to_bitcoin_network : NetworkSpec → Network
to_bitcoin_network NetworkSpec.bitcoin = Network.mainnet
to_bitcoin_network NetworkSpec.testnet = Network.testnet
to_bitcoin_network NetworkSpec.signet = Network.signet
to_bitcoin_network NetworkSpec.regtest = Network.regtest

-- The error names the network that has no wire name.
unfoldable pub from_bitcoin_network : Network → Result Network NetworkSpec
from_bitcoin_network Network.mainnet = ok NetworkSpec.bitcoin
from_bitcoin_network Network.testnet = ok NetworkSpec.testnet
from_bitcoin_network Network.signet = ok NetworkSpec.signet
from_bitcoin_network Network.regtest = ok NetworkSpec.regtest
from_bitcoin_network (future n) = err (future n)

pub data SwapState : Type 0 where
  created lockup_pending lockup_confirmed invoice_pending invoice_paid : SwapState
  claim_pending claimed refunded expired : SwapState
  failed : String → SwapState

unfoldable pub is_terminal : SwapState → Bool
is_terminal claimed = true
is_terminal refunded = true
is_terminal expired = true
is_terminal (failed reason) = true
is_terminal _ = false

pub data LegStatus : Type 0 where
  pending failed replaced in_transit needs_attention : LegStatus
  delivery_failed refunded delivered : LegStatus

-- `LegStatus::is_terminal`.
unfoldable pub leg_is_terminal : LegStatus → Bool
leg_is_terminal LegStatus.pending = false
leg_is_terminal LegStatus.in_transit = false
leg_is_terminal LegStatus.needs_attention = false
leg_is_terminal LegStatus.failed = true
leg_is_terminal LegStatus.replaced = true
leg_is_terminal LegStatus.delivery_failed = true
leg_is_terminal LegStatus.refunded = true
leg_is_terminal LegStatus.delivered = true

-- The `match` of `leg_status`, before the recovery flag.
unfoldable pub plain_status : SwapState → SwapDirection → Bool → LegStatus
plain_status created direction known = LegStatus.pending
plain_status lockup_pending reverse known = LegStatus.in_transit
plain_status lockup_pending submarine known = LegStatus.pending
plain_status lockup_confirmed direction known = LegStatus.in_transit
plain_status invoice_pending direction known = LegStatus.in_transit
plain_status invoice_paid reverse known = LegStatus.in_transit
plain_status invoice_paid submarine known = LegStatus.delivered
plain_status claim_pending reverse known = LegStatus.in_transit
plain_status claim_pending submarine known = LegStatus.delivered
plain_status claimed direction known = LegStatus.delivered
plain_status SwapState.refunded direction known = LegStatus.refunded
plain_status expired direction known = LegStatus.failed
plain_status (SwapState.failed reason) direction true = LegStatus.delivery_failed
plain_status (SwapState.failed reason) direction false = LegStatus.failed

unfoldable pub leg_status : SwapState → SwapDirection → Bool → Bool → LegStatus
unfolding plain_status leg_is_terminal
leg_status state direction funding_known needs_recovery =
    let status = plain_status state direction funding_known in
    if needs_recovery && not (leg_is_terminal status) then LegStatus.needs_attention else status
