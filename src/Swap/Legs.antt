-- ===== src/Swap/Legs.antt =====
-- What `SwapState::leg_status` reports, against the lifecycle (swap-common/src/swap.rs).
use pubky_swap.Prelude.{◌≡◌, ◌≢◌, ◌↔◌, Bool, true, false, ◌||◌, ◌⊎◌, ok, arith}
use pubky_swap.Swap.{
  SwapDirection, submarine, SwapState, invoice_paid, claim_pending, needs_attention, replaced,
  is_terminal, leg_is_terminal, plain_status, leg_status, Network, NetworkSpec, to_bitcoin_network,
  from_bitcoin_network,
}

-- A submarine owner is paid once its invoice is, before the swap ends.
abbrev pub owner_paid_early : SwapState → SwapDirection → Bool
owner_paid_early invoice_paid submarine = true
owner_paid_early claim_pending submarine = true
owner_paid_early _ _ = false

-- For every state, direction and flag: automation is finished with the leg exactly when the swap
-- is terminal or its submarine owner has already been paid. The recovery flag never changes that.
pub leg_status-is_terminal :
    (s : SwapState) (d : SwapDirection) (known recovery : Bool)
    → leg_is_terminal (leg_status s d known recovery) ≡ (is_terminal s || owner_paid_early s d)
unfolding leg_status is_terminal leg_is_terminal
leg_status-is_terminal s d known recovery = ground arith

-- `needs_attention` is reported exactly for a flagged record whose leg is still in progress, any
-- other record reports its plain status, and `replaced` is never reported.
pub leg_status-needs_attention :
    (s : SwapState) (d : SwapDirection) (known recovery : Bool)
    → ((leg_status s d known recovery ≡ needs_attention)
        ↔ ((recovery ≡ true) × (leg_is_terminal (plain_status s d known) ≡ false)))
      × ((leg_status s d known recovery ≡ needs_attention)
          ⊎ (leg_status s d known recovery ≡ plain_status s d known))
      × (leg_status s d known recovery ≢ replaced)
unfolding leg_status leg_is_terminal
leg_status-needs_attention s d known recovery = ground arith

-- A network is given a wire name only where that name denotes it, and every named one has it:
-- the two conversions are inverse on their common domain.
pub network_round_trip :
    (n : Network) (s : NetworkSpec) → ((from_bitcoin_network n ≡ ok s) ↔ (to_bitcoin_network s ≡ n))
unfolding from_bitcoin_network to_bitcoin_network
network_round_trip n s = ground arith
