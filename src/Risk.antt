-- ===== src/Risk.antt =====
-- swap-provider/src/risk.rs: the bounds on what a provider has at risk, per peer and in total, and
-- the wallet funds promised to reverse swaps. The mutex makes each method one step, so the manager
-- is a state and each method a function on it; an `Instant` is a number of nanoseconds.
pub mod Admission
pub mod Counters
pub mod Funding
pub mod Claims
pub mod Runs
pub mod Restart
mod Examples
use pubky_swap.Prelude.{
  ℕ, suc, ◌+◌, ◌-◌, Bool, true, false, not, ◌&&◌, String, Option, none, some, List, [], ◌∷◌, ◌++◌,
  Result, ok, err, ◌>>=◌, ◌>>◌, reject_if, is_some, unwrap_or, if◌then◌else◌, ltb, leb, eqb, keep,
  length, u64_max, as_u32, saturating_add, nat_eq, string_eq,
}
use pubky_swap.Map.{lookup, insert, remove}
use pubky_swap.Messages.{Uuid, RejectCode}

pub record RiskLimits : Type 0 where
  pub max_concurrent_swaps : ℕ
  pub max_concurrent_per_peer : ℕ
  pub max_total_exposure_sat : ℕ
  pub max_exposure_per_peer_sat : ℕ
  pub min_onchain_reserve_sat : ℕ
  pub max_new_swaps_per_peer_per_hour : ℕ

abbrev pub default_limits : RiskLimits
default_limits = record {
  max_concurrent_swaps = 25;
  max_concurrent_per_peer = 2;
  max_total_exposure_sat = 5_000_000;
  max_exposure_per_peer_sat = 1_000_000;
  min_onchain_reserve_sat = 100_000;
  max_new_swaps_per_peer_per_hour = 6;
}

pub data RejectReason : Type 0 where
  at_capacity peer_at_capacity exposure_exceeded : ℕ → ℕ → RejectReason
  peer_exposure_exceeded rate_limited : ℕ → ℕ → RejectReason
  already_reserved : RejectReason

-- `RejectReason::code`.
unfoldable pub reason_code : RejectReason → RejectCode
reason_code (at_capacity n max) = RejectCode.liquidity_unavailable
reason_code (peer_at_capacity n max) = RejectCode.liquidity_unavailable
reason_code (exposure_exceeded n max) = RejectCode.liquidity_unavailable
reason_code (peer_exposure_exceeded n max) = RejectCode.liquidity_unavailable
reason_code (rate_limited n max) = RejectCode.rate_limited
reason_code already_reserved = RejectCode.pending

pub record PeerState : Type 0 where
  pub committed_sat : ℕ
  pub in_flight : ℕ
  pub recent_starts : List ℕ

abbrev pub default_peer : PeerState
default_peer = record { committed_sat = 0; in_flight = 0; recent_starts = [] }

pub record Inner : Type 0 where
  pub total_committed_sat : ℕ
  pub total_in_flight : ℕ
  pub peers : List (String × PeerState)
  pub reservations : List (Uuid × (String × ℕ))
  pub funding_claims : List (Uuid × ℕ)

-- `RiskManager::new`.
unfoldable pub new_inner : Inner
new_inner = record {
  total_committed_sat = 0;
  total_in_flight = 0;
  peers = [];
  reservations = [];
  funding_claims = [];
}

pub data ReservationMode : Type 0 where
  new pending funded : ReservationMode

abbrev pub is_new : ReservationMode → Bool
is_new new = true
is_new pending = false
is_new funded = false

abbrev pub hour : ℕ
hour = 3_600_000_000_000

-- `recent_starts` less those an hour old. `duration_since` stops at 0.
abbrev pub recent : ℕ → List ℕ → List ℕ
recent now = keep (λ t. ltb (now - t) hour)

-- `peers.entry(peer).or_default()`, or the zeros that `admissible` reads for an unknown peer.
abbrev pub peer_state : String → Inner → PeerState
peer_state peer inner = unwrap_or (lookup peer inner.peers) default_peer

-- The hourly rate and the two limits of one peer. `new_start` says whether the rate applies.
unfoldable pub check_peer : RiskLimits → Bool → ℕ → ℕ → ℕ → ℕ → Result RejectReason (Unit {0})
check_peer limits new_start started in_flight committed amount_sat = do
  reject_if (new_start && leb limits.max_new_swaps_per_peer_per_hour started)
      (rate_limited started limits.max_new_swaps_per_peer_per_hour)
  reject_if (leb limits.max_concurrent_per_peer in_flight)
      (peer_at_capacity in_flight limits.max_concurrent_per_peer)
  let would_commit = saturating_add u64_max committed amount_sat
  reject_if (ltb limits.max_exposure_per_peer_sat would_commit)
      (peer_exposure_exceeded would_commit limits.max_exposure_per_peer_sat)

-- The limits over all peers.
unfoldable pub check_total : RiskLimits → Inner → ℕ → Result RejectReason (Unit {0})
check_total limits inner amount_sat = do
  reject_if (leb limits.max_concurrent_swaps inner.total_in_flight)
      (at_capacity inner.total_in_flight limits.max_concurrent_swaps)
  let would_commit = saturating_add u64_max inner.total_committed_sat amount_sat
  reject_if (ltb limits.max_total_exposure_sat would_commit)
      (exposure_exceeded would_commit limits.max_total_exposure_sat)

unfoldable pub admissible : RiskLimits → ℕ → Inner → String → ℕ → Result RejectReason (Unit {0})
admissible limits now inner peer amount_sat = do
  let state = peer_state peer inner
  check_peer limits true (as_u32 (length (recent now state.recent_starts))) state.in_flight
      state.committed_sat amount_sat
  check_total limits inner amount_sat

-- The peer's entry is made and its old starts are dropped before any limit is asked.
unfoldable pub enter_peer : ℕ → Inner → String → Inner
enter_peer now inner peer =
    let state = peer_state peer inner in
    record inner {
      peers =
          insert peer (record state { recent_starts = recent now state.recent_starts }) inner.peers;
    }

-- What an admitted reservation changes.
unfoldable pub commit : ℕ → Inner → String → Uuid → ℕ → ReservationMode → Inner
commit now inner peer swap_id amount_sat mode =
    let state = peer_state peer inner in
    record inner {
      total_committed_sat = saturating_add u64_max inner.total_committed_sat amount_sat;
      total_in_flight = inner.total_in_flight + 1;
      reservations = insert swap_id (peer, amount_sat) inner.reservations;
      peers =
          insert peer
            (record {
              committed_sat = saturating_add u64_max state.committed_sat amount_sat;
              in_flight = state.in_flight + 1;
              recent_starts =
                  if is_new mode then state.recent_starts ++ now ∷ [] else state.recent_starts;
            })
            inner.peers;
    }

-- The limits that a mode is held to; an already funded swap is held to none.
unfoldable pub check_mode :
    RiskLimits → ReservationMode → Inner → String → ℕ → Result RejectReason (Unit {0})
check_mode limits funded inner peer amount_sat = ok tt
check_mode limits mode inner peer amount_sat = do
  let state = peer_state peer inner
  check_peer limits (is_new mode) (as_u32 (length state.recent_starts)) state.in_flight
      state.committed_sat amount_sat
  check_total limits inner amount_sat

-- A refusal keeps the state that was reached.
abbrev pub conclude :
    Result RejectReason (Unit {0}) → Inner → Inner → Inner × Result RejectReason (Unit {0})
conclude (ok _) committed entered = (committed, ok tt)
conclude (err reason) committed entered = (entered, err reason)

unfoldable pub reserve_inner :
    RiskLimits
    → ℕ
    → Inner
    → String
    → Uuid
    → ℕ
    → ReservationMode
    → Inner × Result RejectReason (Unit {0})
reserve_inner limits now inner peer swap_id amount_sat mode =
    let entered = enter_peer now inner peer in
    if is_some (lookup swap_id inner.reservations)
    then (inner, err already_reserved)
    else conclude (check_mode limits mode entered peer amount_sat)
        (commit now entered peer swap_id amount_sat mode) entered

-- `reserve` and `reserve_pending`.
unfoldable pub reserve :
    RiskLimits → ℕ → Inner → String → Uuid → ℕ → Inner × Result RejectReason (Unit {0})
unfolding reserve_inner
reserve limits now inner peer swap_id amount_sat =
    reserve_inner limits now inner peer swap_id amount_sat new

unfoldable pub reserve_pending :
    RiskLimits → ℕ → Inner → String → Uuid → ℕ → Inner × Result RejectReason (Unit {0})
unfolding reserve_inner
reserve_pending limits now inner peer swap_id amount_sat =
    reserve_inner limits now inner peer swap_id amount_sat pending

-- The fields of a persisted record that a restart reads.
pub record ActiveSwap : Type 0 where
  pub peer_account : Option String
  pub peer : String
  pub swap_id : Uuid
  pub onchain_amount_sat : ℕ

-- `RiskManager::restore`, with the swaps whose reservation was made.
unfoldable pub restore : RiskLimits → ℕ → Inner → List ActiveSwap → Inner × List Uuid
restore limits now inner [] = (inner, [])
restore limits now inner (swap ∷ active) =
    let (reserved, result) =
      reserve_inner limits now inner (unwrap_or swap.peer_account swap.peer) swap.swap_id
        swap.onchain_amount_sat funded in
    let (last, guards) = restore limits now reserved active in
    (last, elim result [ ok _ ↦ swap.swap_id ∷ guards | err _ ↦ guards ])

-- An entry with nothing committed and no start to remember goes.
abbrev pub is_idle : PeerState → Bool
is_idle s = eqb s.committed_sat 0 && eqb s.in_flight 0 && eqb (length s.recent_starts) 0

-- A peer's share of a release.
unfoldable pub release_peer : String → ℕ → List (String × PeerState) → List (String × PeerState)
release_peer peer amount peers = elim (lookup peer peers) [
  | none ↦ peers
  | some s ↦
      let t = record s { committed_sat = s.committed_sat - amount; in_flight = s.in_flight - 1 } in
      if is_idle t then remove peer peers else insert peer t peers
]

unfoldable pub release : Inner → Uuid → Inner
unfolding release_peer
release inner swap_id =
    let claims = remove swap_id inner.funding_claims in
    elim (lookup swap_id inner.reservations) [
      | none ↦ record inner { funding_claims = claims }
      | some (peer, amount) ↦ record inner {
        funding_claims = claims;
        reservations = remove swap_id inner.reservations;
        total_committed_sat = inner.total_committed_sat - amount;
        total_in_flight = inner.total_in_flight - 1;
        peers = release_peer peer amount inner.peers;
      }
    ]
