-- ===== src/FeeBump/Outcomes.antt =====
-- What each turn of the loop keeps, and what an outcome says (swap-common/src/fee_bump.rs).
use pubky_swap.Prelude.{
  ℕ, ◌≤◌, max, ◌≡◌, ◌⊎◌, inl, inr, true, false, String, Option, none, some, ◌∷◌, Result, ok, err,
  arith, contains, nat_eq, eqb_iff, u64_max, Bool-cases, Result-cases, leb, ◌||◌,
}
use pubky_swap.Chain.{Txid}
use pubky_swap.Onchain.{deadline_fee_rate}
use pubky_swap.Onchain.Rates.{deadline_fee_rate_escalates}
use pubky_swap.FeeBump.{
  SpendWatchConfig, SpendOutcome, confirmed, conflicting_spend, deadline_exceeded, Turn, Spend,
  Verdict, returns, goes_on, is_final, is_past, finish, rebroadcast, replace, watch, settle, notice,
  take_turn,
}

-- A backend answers a broadcast with the id of the transaction that it was given.
abbrev pub IsFaithful : (Txid → Result String Txid) → Type 0
IsFaithful broadcast = (tx id : Txid) → broadcast tx ≡ ok id → id ≡ tx

-- The live spend is one of ours; the rate is between the floor and the ceiling; and `id`, if it
-- counts as ours, was known from the record or told to `on_spend`.
pub record IsTracked (id : Txid) (cfg : SpendWatchConfig) (s : Spend) : Type 0 where
  pub live : contains s.ours s.txid ≡ true
  pub low : cfg.floor_rate_sat_vb ≤ s.rate
  pub high : s.rate ≤ max cfg.cap_rate_sat_vb cfg.floor_rate_sat_vb
  pub traced :
      (contains s.ours id ≡ false)
      ⊎ (contains cfg.known_ours id ≡ true)
      ⊎ (contains s.told id ≡ true)

-- An outcome is right about whose transaction it names.
abbrev pub Names : Result String SpendOutcome → Spend → Type 0
Names (ok (confirmed txid)) s = contains s.ours txid ≡ true
Names (ok (conflicting_spend txid)) s = contains s.ours txid ≡ false
Names (ok (deadline_exceeded txid tip)) s = contains s.ours txid ≡ true
Names (err e) s = Unit

abbrev pub Keeps : Txid → SpendWatchConfig → Verdict → Type 0
Keeps id cfg (returns r s) = IsTracked id cfg s × Names r s
Keeps id cfg (goes_on s) = IsTracked id cfg s

module _ (build : ℕ → Result String Txid) (id : Txid) (cfg : SpendWatchConfig) where
  broadcast_again :
      (s : Spend) (tx sent rate : ℕ)
      → IsTracked id cfg s
      → sent ≡ tx
      → cfg.floor_rate_sat_vb ≤ rate
      → rate ≤ max cfg.cap_rate_sat_vb cfg.floor_rate_sat_vb
      → IsTracked id cfg
          (record { txid = sent; rate = rate; ours = sent ∷ s.ours; told = tx ∷ s.told })
  broadcast_again s tx sent rate g e lo hi =
      ground (arith, eqb_iff sent sent, eqb_iff sent id, eqb_iff tx id)

  rebroadcast-IsTracked :
      (turn : Turn) (s : Spend)
      → IsFaithful turn.broadcast
      → IsTracked id cfg s
      → IsTracked id cfg (rebroadcast build turn s)
  unfolding rebroadcast
  rebroadcast-IsTracked turn s f g = elim (Result-cases (build s.rate)) [
    | inr (e, refused) ↦ rw (refused, rebroadcast) g
    | inl (tx, built) ↦ elim (Result-cases (turn.broadcast tx)) [
      | inr (e, lost) ↦ rw (built, lost, rebroadcast) (ground (arith, eqb_iff tx id))
      | inl (sent, heard) ↦
          rw (built, heard, rebroadcast)
            (broadcast_again s tx sent s.rate g (f tx sent heard) g.low g.high)
    ]
  ]

  replace-IsTracked :
      (turn : Turn) (s : Spend) (next : ℕ)
      → IsFaithful turn.broadcast
      → cfg.floor_rate_sat_vb ≤ next
      → next ≤ max cfg.cap_rate_sat_vb cfg.floor_rate_sat_vb
      → IsTracked id cfg s
      → IsTracked id cfg (replace build turn s next)
  unfolding replace
  replace-IsTracked turn s next f lo hi g = elim (Result-cases (build next)) [
    | inr (e, refused) ↦ rw (refused, replace) g
    | inl (tx, built) ↦ elim (Result-cases (turn.broadcast tx)) [
      | inr (e, lost) ↦ rw (built, lost, replace) (ground (arith, eqb_iff tx id))
      | inl (sent, heard) ↦
          rw (built, heard, replace) (broadcast_again s tx sent next g (f tx sent heard) lo hi)
    ]
  ]

  watch-IsTracked :
      (turn : Turn) (s : Spend) (tip : ℕ) (depth : Option ℕ)
      → IsFaithful turn.broadcast
      → max cfg.cap_rate_sat_vb cfg.floor_rate_sat_vb ≤ u64_max
      → IsTracked id cfg s
      → IsTracked id cfg (watch build cfg turn s tip depth)
  unfolding watch
  watch-IsTracked turn s tip none f u g = rebroadcast-IsTracked turn s f g
  watch-IsTracked turn s tip (some depth) f u g =
      let next =
        deadline_fee_rate tip cfg.deadline_height s.rate turn.estimate cfg.floor_rate_sat_vb
          cfg.cap_rate_sat_vb in
      let bounds =
        deadline_fee_rate_escalates tip cfg.deadline_height s.rate turn.estimate
          cfg.floor_rate_sat_vb cfg.cap_rate_sat_vb g.high u in
      ground (arith, replace-IsTracked turn s next f bounds.0 bounds.1 g)

  settle-Keeps :
      (turn : Turn) (iterations tip : ℕ) (s : Spend) (depth : Result String (Option ℕ))
      → IsFaithful turn.broadcast
      → max cfg.cap_rate_sat_vb cfg.floor_rate_sat_vb ≤ u64_max
      → IsTracked id cfg s
      → Keeps id cfg (settle build cfg turn iterations tip s depth)
  unfolding settle finish
  settle-Keeps turn iterations tip s (err e) f u g = (g, tt)
  settle-Keeps turn iterations tip s (ok depth) f u g = elim (Bool-cases (is_final cfg depth)) [
    | inl final ↦ rw final (g, g.live)
    | inr shallow ↦
        let kept = watch-IsTracked turn s tip depth f u g in
        elim (Bool-cases
          (is_past cfg tip || turn.out_of_time || leb cfg.max_iterations iterations)) [
            | inl over ↦ rw (shallow, over) (kept, kept.live)
            | inr more ↦ rw (shallow, more) kept
          ]
  ]

  notice-Keeps :
      (turn : Turn) (iterations tip : ℕ) (s : Spend) (spent : Option Txid)
      → IsFaithful turn.broadcast
      → max cfg.cap_rate_sat_vb cfg.floor_rate_sat_vb ≤ u64_max
      → IsTracked id cfg s
      → Keeps id cfg (notice build cfg turn iterations tip s spent)
  unfolding notice
  notice-Keeps turn iterations tip s none f u g =
      settle-Keeps turn iterations tip s (turn.confirmations s.txid) f u g
  notice-Keeps turn iterations tip s (some spent) f u g =
      elim (Bool-cases (contains s.ours spent)) [
        | inl own ↦ rw own (
            settle-Keeps turn iterations tip (record s { txid = spent }) (turn.confirmations spent)
              f u (record { live = own; low = g.low; high = g.high; traced = g.traced }))
        | inr rival ↦ rw rival (g, rival)
      ]

  -- One turn keeps what is tracked, and an outcome that it returns names a transaction rightly.
  pub take_turn-Keeps :
      (turn : Turn) (iterations : ℕ) (s : Spend)
      → IsFaithful turn.broadcast
      → max cfg.cap_rate_sat_vb cfg.floor_rate_sat_vb ≤ u64_max
      → IsTracked id cfg s
      → Keeps id cfg (take_turn build cfg turn iterations s)
  unfolding take_turn
  take_turn-Keeps turn iterations s f u g = elim (Result-cases turn.tip) [
    | inr (e, lost) ↦ rw (lost, take_turn) (g, tt)
    | inl (tip, seen) ↦ elim (Result-cases turn.spend) [
      | inr (e, lost) ↦ rw (seen, lost, take_turn) (g, tt)
      | inl (spent, known) ↦
          rw (seen, known, take_turn) (notice-Keeps turn iterations tip s spent f u g)
    ]
  ]
