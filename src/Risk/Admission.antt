-- ===== src/Risk/Admission.antt =====
-- What a reservation is held to, and that the quote-time question gives the same answer
-- (swap-provider/src/risk.rs).
use pubky_swap.Prelude.{
  ℕ, ◌+◌, ◌≤◌, ◌≡◌, ◌≢◌, ◌++◌, ◌∷◌, [], refl, Bool, true, String, none, ok, err, arith, string_eq,
  nat_eq, ◌==◌, List, unwrap_or, Option-cases, inl, inr, Result, saturating_add, u64_max, ◌∙◌,
  >>-eq-ok, ◌>>◌, is_some, if◌then◌else◌,
}
use pubky_swap.Map.{lookup, insert, lookup-insert}
use pubky_swap.Messages.{Uuid}
use pubky_swap.Risk.{
  RiskLimits, RejectReason, already_reserved, Inner, PeerState, default_peer, ReservationMode, new,
  funded, is_new, recent, peer_state, check_peer, check_total, check_mode, admissible, enter_peer,
  commit, conclude, reserve_inner, reserve,
}

-- The entry that `enter_peer` makes.
pub peer_state-insert :
    (peer other : String) (s : PeerState) (m : List (String × PeerState))
    → unwrap_or (lookup other (insert peer s m)) default_peer
      ≡ (if peer == other then s else unwrap_or (lookup other m) default_peer)
peer_state-insert peer other s m = ground (arith, lookup-insert peer other s m)

-- What `enter_peer` leaves of every entry: only a list of starts changes.
pub enter_peer-counts :
    (q : String) (now : ℕ) (inner : Inner) (peer : String)
    → ((peer_state q (enter_peer now inner peer)).committed_sat
        ≡ (peer_state q inner).committed_sat)
      × ((peer_state q (enter_peer now inner peer)).in_flight ≡ (peer_state q inner).in_flight)
unfolding enter_peer
enter_peer-counts q now inner peer = ground (
  arith,
  peer_state-insert peer q
      (record (peer_state peer inner) {
        recent_starts = recent now (peer_state peer inner).recent_starts;
      })
      inner.peers,
  string_eq.beq_iff peer q,
)

peer_state-enter_peer :
    (now : ℕ) (inner : Inner) (peer : String)
    → peer_state peer (enter_peer now inner peer) ≡ record (peer_state peer inner) {
      recent_starts = recent now (peer_state peer inner).recent_starts;
    }
unfolding enter_peer
peer_state-enter_peer now inner peer =
    rw (lookup-insert peer peer _ inner.peers, (string_eq.beq_iff peer peer).1 refl)

conclude-result :
    (r : Result RejectReason (Unit {0})) (committed entered : Inner)
    → (conclude r committed entered).1 ≡ r
conclude-result (ok tt) committed entered = refl
conclude-result (err reason) committed entered = refl

-- A swap with no reservation is judged by its mode's limits, once the peer is entered.
pub reserve_inner_fresh :
    (limits : RiskLimits) (now : ℕ) (inner : Inner) (peer : String) (swap_id : Uuid) (amount : ℕ)
    (mode : ReservationMode)
    → lookup swap_id inner.reservations ≡ none
    → reserve_inner limits now inner peer swap_id amount mode ≡ (
        let entered = enter_peer now inner peer in
        conclude
          (check_mode limits mode entered peer amount)
          (commit now entered peer swap_id amount mode)
          entered)
unfolding reserve_inner
reserve_inner_fresh limits now inner peer swap_id amount mode fresh = rw fresh

check_mode_new :
    (limits : RiskLimits) (now : ℕ) (inner : Inner) (peer : String) (amount : ℕ)
    → check_mode limits new (enter_peer now inner peer) peer amount
      ≡ admissible limits now inner peer amount
unfolding check_mode admissible check_total
check_mode_new limits now inner peer amount =
    rw (peer_state-enter_peer now inner peer) (unfold enter_peer in refl)

-- The answer at quote time is the answer that the reservation would give now, to the same
-- refusal with the same figures, for every swap that does not hold a reservation yet.
pub admissible_agrees :
    (limits : RiskLimits) (now : ℕ) (inner : Inner) (peer : String) (swap_id : Uuid) (amount : ℕ)
    → lookup swap_id inner.reservations ≡ none
    → (reserve limits now inner peer swap_id amount).1 ≡ admissible limits now inner peer amount
unfolding reserve
admissible_agrees limits now inner peer swap_id amount fresh =
    rw (reserve_inner_fresh limits now inner peer swap_id amount new fresh)
      (conclude-result _ _ _ ∙ check_mode_new limits now inner peer amount)

check_total-ok :
    (limits : RiskLimits) (inner : Inner) (amount : ℕ)
    → check_total limits inner amount ≡ ok tt
    → (inner.total_in_flight + 1 ≤ limits.max_concurrent_swaps)
      × (saturating_add u64_max inner.total_committed_sat amount ≤ limits.max_total_exposure_sat)
unfolding check_total
check_total-ok limits inner amount h = ground arith

check_peer-ok :
    (limits : RiskLimits) (new_start : Bool) (started in_flight committed amount : ℕ)
    → check_peer limits new_start started in_flight committed amount ≡ ok tt
    → (in_flight + 1 ≤ limits.max_concurrent_per_peer)
      × (saturating_add u64_max committed amount ≤ limits.max_exposure_per_peer_sat)
unfolding check_peer
check_peer-ok limits new_start started in_flight committed amount h = ground arith

-- The four limits, of a state and one peer.
pub record Within (limits : RiskLimits) (peer : String) (inner : Inner) : Type 0 where
  pub total_exposure : inner.total_committed_sat ≤ limits.max_total_exposure_sat
  pub total_swaps : inner.total_in_flight ≤ limits.max_concurrent_swaps
  pub peer_exposure : (peer_state peer inner).committed_sat ≤ limits.max_exposure_per_peer_sat
  pub peer_swaps : (peer_state peer inner).in_flight ≤ limits.max_concurrent_per_peer

-- The entry of a peer after a commit: the reserving peer's grows, every other one stays.
pub peer_state-commit :
    (q : String) (now : ℕ) (inner : Inner) (peer : String) (swap_id : Uuid) (amount : ℕ)
    (mode : ReservationMode)
    → peer_state q (commit now inner peer swap_id amount mode) ≡ (
        let state = peer_state peer inner in
        if peer == q
        then (record {
          committed_sat = saturating_add u64_max state.committed_sat amount;
          in_flight = state.in_flight + 1;
          recent_starts =
              if is_new mode then state.recent_starts ++ now ∷ [] else state.recent_starts;
        })
        else peer_state q inner)
unfolding commit
peer_state-commit q now inner peer swap_id amount mode = peer_state-insert peer q _ inner.peers

limits-Within :
    (limits : RiskLimits) (now : ℕ) (inner : Inner) (peer : String) (swap_id : Uuid) (amount : ℕ)
    (mode : ReservationMode) (new_start : Bool) (started : ℕ)
    → (do
      check_peer limits new_start started
          (peer_state peer inner).in_flight
          (peer_state peer inner).committed_sat
          amount
      check_total limits inner amount)
      ≡ ok tt
    → Within limits peer (commit now inner peer swap_id amount mode)
unfolding commit
limits-Within limits now inner peer swap_id amount mode new_start started h =
    let (p, t) = >>-eq-ok (check_peer limits new_start started _ _ amount) _ h in
    ground (
      arith,
      check_peer-ok limits new_start started _ _ amount p,
      check_total-ok limits inner amount t,
      peer_state-commit peer now inner peer swap_id amount mode,
      string_eq.beq_iff peer peer,
    )

commit-Within :
    (limits : RiskLimits) (now : ℕ) (inner : Inner) (peer : String) (swap_id : Uuid) (amount : ℕ)
    (mode : ReservationMode)
    → check_mode limits mode inner peer amount ≡ ok tt
    → mode ≢ funded
    → Within limits peer (commit now inner peer swap_id amount mode)
unfolding check_mode
commit-Within limits now inner peer swap_id amount funded h unfunded = absurd (unfunded refl)
commit-Within limits now inner peer swap_id amount mode h unfunded =
    limits-Within limits now inner peer swap_id amount mode _ _ h

-- What an attempt to reserve can leave behind: the state as it was, the state with the peer's
-- entry made, or the committed state after every limit of the mode has passed.
pub data Attempt (limits : RiskLimits) (now : ℕ) (inner : Inner) (peer : String) (swap_id : Uuid)
    (amount : ℕ) (mode : ReservationMode) (r : Inner × Result RejectReason (Unit {0}))
    : Type 0 where
  repeated :
      is_some (lookup swap_id inner.reservations) ≡ true
      → r ≡ (inner, err already_reserved)
      → Attempt limits now inner peer swap_id amount mode r
  refused :
      (reason : RejectReason)
      → r ≡ (enter_peer now inner peer, err reason)
      → Attempt limits now inner peer swap_id amount mode r
  committed :
      lookup swap_id inner.reservations ≡ none
      → check_mode limits mode (enter_peer now inner peer) peer amount ≡ ok tt
      → r ≡ (commit now (enter_peer now inner peer) peer swap_id amount mode, ok tt)
      → Attempt limits now inner peer swap_id amount mode r

conclude-Attempt :
    (limits : RiskLimits) (now : ℕ) (inner : Inner) (peer : String) (swap_id : Uuid) (amount : ℕ)
    (mode : ReservationMode) (r : Result RejectReason (Unit {0}))
    → check_mode limits mode (enter_peer now inner peer) peer amount ≡ r
    → lookup swap_id inner.reservations ≡ none
    → Attempt limits now inner peer swap_id amount mode (
        conclude r
          (commit now (enter_peer now inner peer) peer swap_id amount mode)
          (enter_peer now inner peer))
conclude-Attempt limits now inner peer swap_id amount mode (ok tt) e fresh = committed fresh e refl
conclude-Attempt limits now inner peer swap_id amount mode (err reason) e fresh =
    refused reason refl

pub reserve_inner-Attempt :
    (limits : RiskLimits) (now : ℕ) (inner : Inner) (peer : String) (swap_id : Uuid) (amount : ℕ)
    (mode : ReservationMode)
    → Attempt limits now inner peer swap_id amount mode
        (reserve_inner limits now inner peer swap_id amount mode)
unfolding reserve_inner
reserve_inner-Attempt limits now inner peer swap_id amount mode =
    elim (Option-cases (lookup swap_id inner.reservations)) [
      | inl fresh ↦
          rw (reserve_inner_fresh limits now inner peer swap_id amount mode fresh)
            (conclude-Attempt limits now inner peer swap_id amount mode _ refl fresh)
      | inr (v, held) ↦ repeated (rw held) (rw (held, reserve_inner))
    ]

-- A reservation that is granted, other than one for a swap that is already funded, leaves the
-- provider within all four limits: exposure and swaps in flight, in total and for the peer.
pub reserve_inner-Within :
    (limits : RiskLimits) (now : ℕ) (inner : Inner) (peer : String) (swap_id : Uuid) (amount : ℕ)
    (mode : ReservationMode)
    → (reserve_inner limits now inner peer swap_id amount mode).1 ≡ ok tt
    → mode ≢ funded
    → Within limits peer (reserve_inner limits now inner peer swap_id amount mode).0
reserve_inner-Within limits now inner peer swap_id amount mode granted unfunded =
    elim (reserve_inner-Attempt limits now inner peer swap_id amount mode) [
      | repeated held e ↦ cc e
      | refused reason e ↦ cc e
      | committed fresh checked e ↦
          rw e (commit-Within limits now _ peer swap_id amount mode checked unfunded)
    ]
