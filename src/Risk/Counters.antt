-- ===== src/Risk/Counters.antt =====
-- The counters against the reservations that they count (swap-provider/src/risk.rs).
use pubky_swap.Prelude.{
  ℕ, ◌+◌, ◌-◌, ◌≤◌, ◌≡◌, String, none, some, List, [], ◌∷◌, arith, string_eq, nat_eq, ◌==◌,
  unwrap_or, Option-cases, inl, inr, if◌then◌else◌, u64_max,
}
use pubky_swap.Map.{
  lookup, Unique, total, lookup-insert, lookup-remove, remove_absent, Unique-insert, Unique-remove,
  total-insert, total-remove,
}
use pubky_swap.Messages.{Uuid}
use pubky_swap.Risk.{
  RiskLimits, Inner, PeerState, default_peer, ReservationMode, peer_state, enter_peer, commit,
  reserve_inner, release, release_peer, new_inner,
}
use pubky_swap.Risk.Admission.{
  enter_peer-counts, peer_state-commit, repeated, refused, committed, reserve_inner-Attempt,
}

-- The measures of one reservation: its amount, itself, and both as far as they are `q`'s.
abbrev pub amount_of : String × ℕ → ℕ
amount_of (peer, amount) = amount

abbrev pub one_of : String × ℕ → ℕ
one_of (peer, amount) = 1

abbrev pub share : String → String × ℕ → ℕ
share q (peer, amount) = if peer == q then amount else 0

abbrev pub holds : String → String × ℕ → ℕ
holds q (peer, amount) = if peer == q then 1 else 0

-- The counters are the sums over the reservations, in total and for the peer `q`.
pub record IsBalanced (q : String) (inner : Inner) : Type 0 where
  pub unique : Unique inner.reservations
  pub exposure : inner.total_committed_sat ≡ total amount_of inner.reservations
  pub swaps : inner.total_in_flight ≡ total one_of inner.reservations
  pub peer_exposure : (peer_state q inner).committed_sat ≡ total (share q) inner.reservations
  pub peer_swaps : (peer_state q inner).in_flight ≡ total (holds q) inner.reservations

pub new_inner-IsBalanced : (q : String) → IsBalanced q new_inner
unfolding new_inner lookup
new_inner-IsBalanced q = ground arith

share-le : (q : String) (m : List (Uuid × (String × ℕ))) → total (share q) m ≤ total amount_of m
share-le q [] = omega arith
share-le q ((id, (peer, amount)) ∷ m) = ground (arith, share-le q m)

enter_peer-IsBalanced :
    (q : String) (now : ℕ) (inner : Inner) (peer : String)
    → IsBalanced q inner
    → IsBalanced q (enter_peer now inner peer)
unfolding enter_peer
enter_peer-IsBalanced q now inner peer b = ground (arith, enter_peer-counts q now inner peer)

commit-IsBalanced :
    (q : String) (now : ℕ) (inner : Inner) (peer : String) (swap_id : Uuid) (amount : ℕ)
    (mode : ReservationMode)
    → IsBalanced q inner
    → lookup swap_id inner.reservations ≡ none
    → inner.total_committed_sat + amount ≤ u64_max
    → IsBalanced q (commit now inner peer swap_id amount mode)
unfolding commit
commit-IsBalanced q now inner peer swap_id amount mode b fresh fits = ground (
  arith,
  Unique-insert swap_id (peer, amount) inner.reservations b.unique,
  total-insert amount_of swap_id (peer, amount) inner.reservations b.unique,
  total-insert one_of swap_id (peer, amount) inner.reservations b.unique,
  total-insert (share q) swap_id (peer, amount) inner.reservations b.unique,
  total-insert (holds q) swap_id (peer, amount) inner.reservations b.unique,
  remove_absent swap_id inner.reservations fresh,
  share-le q inner.reservations,
  peer_state-commit q now inner peer swap_id amount mode,
  string_eq.beq_iff peer q,
)

-- Every attempt to reserve keeps the counters equal to what is reserved, while the amounts
-- together stay below 2^64.
pub reserve_inner-IsBalanced :
    (q : String) (limits : RiskLimits) (now : ℕ) (inner : Inner) (peer : String) (swap_id : Uuid)
    (amount : ℕ) (mode : ReservationMode)
    → IsBalanced q inner
    → inner.total_committed_sat + amount ≤ u64_max
    → IsBalanced q (reserve_inner limits now inner peer swap_id amount mode).0
reserve_inner-IsBalanced q limits now inner peer swap_id amount mode b fits =
    elim (reserve_inner-Attempt limits now inner peer swap_id amount mode) [
      | repeated held e ↦ rw e b
      | refused reason e ↦ rw e (enter_peer-IsBalanced q now inner peer b)
      | committed fresh checked e ↦ rw e (
          commit-IsBalanced q now (enter_peer now inner peer) peer swap_id amount mode
            (enter_peer-IsBalanced q now inner peer b) (unfold enter_peer in fresh)
            (unfold enter_peer in fits))
    ]

-- The entry of a peer after a release.
release_peer-state :
    (q peer : String) (amount : ℕ) (m : List (String × PeerState))
    → let old = unwrap_or (lookup q m) default_peer in
      let entry = unwrap_or (lookup q (release_peer peer amount m)) default_peer in
      (entry.committed_sat ≡ (if peer == q then old.committed_sat - amount else old.committed_sat))
      × (entry.in_flight ≡ (if peer == q then old.in_flight - 1 else old.in_flight))
unfolding release_peer
release_peer-state q peer amount m = elim (Option-cases (lookup peer m)) [
  | inl absent ↦ rw (absent, release_peer) (ground (arith, string_eq.beq_iff peer q))
  | inr (s, here) ↦
      rw (here, release_peer)
        (ground (
          arith,
          string_eq.beq_iff peer q,
          lookup-insert peer q
              (record s { committed_sat = s.committed_sat - amount; in_flight = s.in_flight - 1 })
              m,
          lookup-remove peer q m,
        ))
]

released-IsBalanced :
    (q : String) (inner : Inner) (swap_id : Uuid) (peer : String) (amount : ℕ)
    → IsBalanced q inner
    → lookup swap_id inner.reservations ≡ some (peer, amount)
    → IsBalanced q (release inner swap_id)
unfolding release
released-IsBalanced q inner swap_id peer amount b held = ground (
  arith,
  release_peer-state q peer amount inner.peers,
  Unique-remove swap_id inner.reservations b.unique,
  total-remove amount_of swap_id (peer, amount) inner.reservations b.unique held,
  total-remove one_of swap_id (peer, amount) inner.reservations b.unique held,
  total-remove (share q) swap_id (peer, amount) inner.reservations b.unique held,
  total-remove (holds q) swap_id (peer, amount) inner.reservations b.unique held,
)

-- So does every release, also of a swap that holds no reservation: no exposure leaks.
pub release-IsBalanced :
    (q : String) (inner : Inner) (swap_id : Uuid)
    → IsBalanced q inner
    → IsBalanced q (release inner swap_id)
unfolding release
release-IsBalanced q inner swap_id b = elim (Option-cases (lookup swap_id inner.reservations)) [
  | inl absent ↦ ground (arith, absent)
  | inr ((peer, amount), held) ↦ released-IsBalanced q inner swap_id peer amount b held
]
