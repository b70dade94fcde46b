-- ===== src/FeeBump/Runs.antt =====
-- Whole calls of `confirm_or_bump` (swap-common/src/fee_bump.rs).
use pubky_swap.Prelude.{
  ℕ, suc, ◌+◌, ◌≤◌, ◌<◌, max, ◌≡◌, ◌≢◌, ◌⊎◌, inl, inr, refl, true, String, Option, none, some, List,
  [], ◌∷◌, Result, ok, err, arith, contains, nat_eq, eqb_iff, u64_max, length, All, Bool-cases,
  Result-cases,
}
use pubky_swap.Chain.{Txid}
use pubky_swap.Onchain.{resolve_fee_rate}
use pubky_swap.Onchain.Rates.{resolve_fee_rate_range}
use pubky_swap.FeeBump.{
  SpendWatchConfig, SpendOutcome, Turn, Spend, Opening, Verdict, returns, goes_on, is_final, finish,
  watch, settle, notice, take_turn, loop, start, send_first, find_live, adopt, confirm_or_bump,
  with_variables,
}
use pubky_swap.FeeBump.Outcomes.{IsFaithful, IsTracked, Names, take_turn-Keeps}

-- How a loop ends: the result, and the variables at the end.
abbrev pub Ended : Txid → SpendWatchConfig → Option (Result String SpendOutcome × Spend) → Type 0
Ended id cfg none = Unit
Ended id cfg (some (r, s)) = IsTracked id cfg s × Names r s

module _ (build : ℕ → Result String Txid) (cfg : SpendWatchConfig) where
  finish_goes_on :
      (turn : Turn) (n tip : ℕ) (s t : Spend)
      → finish cfg turn n tip s ≡ goes_on t
      → n < cfg.max_iterations
  unfolding finish
  finish_goes_on turn n tip s t h = ground arith

  settle_goes_on :
      (turn : Turn) (n tip : ℕ) (s t : Spend) (depth : Result String (Option ℕ))
      → settle build cfg turn n tip s depth ≡ goes_on t
      → n < cfg.max_iterations
  unfolding settle
  settle_goes_on turn n tip s t (err e) h = cc
  settle_goes_on turn n tip s t (ok depth) h = elim (Bool-cases (is_final cfg depth)) [
    | inl final ↦ ground (arith, final)
    | inr shallow ↦ finish_goes_on turn n tip (watch build cfg turn s tip depth) t (rw shallow at h)
  ]

  notice_goes_on :
      (turn : Turn) (n tip : ℕ) (s t : Spend) (spent : Option Txid)
      → notice build cfg turn n tip s spent ≡ goes_on t
      → n < cfg.max_iterations
  unfolding notice
  notice_goes_on turn n tip s t none h = settle_goes_on turn n tip s t (turn.confirmations s.txid) h
  notice_goes_on turn n tip s t (some spent) h = elim (Bool-cases (contains s.ours spent)) [
    | inl own ↦
        settle_goes_on turn n tip (record s { txid = spent }) t (turn.confirmations spent)
          (rw own at h)
    | inr rival ↦ ground (arith, rival)
  ]

  -- A turn goes on only below the iteration ceiling.
  take_turn_goes_on :
      (turn : Turn) (n : ℕ) (s t : Spend)
      → take_turn build cfg turn n s ≡ goes_on t
      → n < cfg.max_iterations
  unfolding take_turn
  take_turn_goes_on turn n s t h = elim (Result-cases turn.tip) [
    | inr (e, lost) ↦ ground (arith, lost)
    | inl (tip, seen) ↦ elim (Result-cases turn.spend) [
      | inr (e, lost) ↦ ground (arith, seen, lost)
      | inl (spent, known) ↦ notice_goes_on turn n tip s t spent (rw (seen, known, take_turn) at h)
    ]
  ]

  pub Verdict-cases :
      (v : Verdict)
      → ((r : Result String SpendOutcome) × (t : Spend) × (v ≡ returns r t))
        ⊎ ((t : Spend) × (v ≡ goes_on t))
  Verdict-cases (returns r t) = inl (r, t, refl)
  Verdict-cases (goes_on t) = inr (t, refl)

  loop-Ended :
      (id : Txid) (n : ℕ) (s : Spend) (turns : List Turn)
      → All (λ turn. IsFaithful turn.broadcast) turns
      → max cfg.cap_rate_sat_vb cfg.floor_rate_sat_vb ≤ u64_max
      → IsTracked id cfg s
      → Ended id cfg (loop build cfg n s turns)
  unfolding loop
  loop-Ended id n s [] f u g = tt
  loop-Ended id n s (turn ∷ turns) f u g =
      let kept = take_turn-Keeps build id cfg turn (suc n) s f.0 u g in
      elim (Verdict-cases (take_turn build cfg turn (suc n) s)) [
        | inl (r, t, e) ↦ rw (e, Ended, loop) (rw e at kept)
        | inr (t, e) ↦ rw (e, Ended, loop) (loop-Ended id (suc n) t turns f.1 u (rw e at kept))
      ]

  loop_ends :
      (n : ℕ) (s : Spend) (turns : List Turn)
      → 0 < length turns
      → cfg.max_iterations ≤ n + length turns
      → loop build cfg n s turns ≢ none
  unfolding loop
  loop_ends n s [] h k = absurd (omega arith)
  loop_ends n s (turn ∷ turns) h k = elim (Verdict-cases (take_turn build cfg turn (suc n) s)) [
    | inl (r, t, e) ↦ rw (e, loop) (λ q. cc q)
    | inr (t, e) ↦
        let below = take_turn_goes_on turn (suc n) s t e in
        rw (e, loop) (loop_ends (suc n) t turns (omega arith) (omega arith))
  ]

  adopt_own :
      (ours : List Txid) (spent : Option Txid) (id : Txid)
      → adopt ours spent ≡ some id
      → contains ours id ≡ true
  adopt_own ours none id h = cc
  adopt_own ours (some spent) id h = elim (Bool-cases (contains ours spent)) [
    | inl own ↦ ground (arith, own)
    | inr rival ↦ ground (arith, rival)
  ]

  find_live_own :
      (opening : Opening) (known : List Txid) (id : Txid)
      → cfg.known_ours ≡ known
      → find_live cfg opening ≡ ok (some id)
      → contains cfg.known_ours id ≡ true
  unfolding find_live
  find_live_own opening [] id k h = ground (arith, k)
  find_live_own opening (first ∷ more) id k h = elim (Result-cases opening.spend) [
    | inr (e, lost) ↦ ground (arith, k, lost)
    | inl (spent, known) ↦ adopt_own cfg.known_ours spent id (ground (arith, k, known))
  ]

  first_rate : Opening → ℕ
  first_rate opening =
      resolve_fee_rate (opening.estimate cfg.fee_target_blocks) cfg.floor_rate_sat_vb
        cfg.cap_rate_sat_vb

  -- A first broadcast that failed: what was told of counts as ours.
  failed-IsTracked :
      (id : Txid) (opening : Opening) (e : String) (s : Spend)
      → start build cfg opening ≡ err (e, some s)
      → IsTracked id cfg s
  unfolding start send_first first_rate
  failed-IsTracked id opening e s h =
      let range =
        resolve_fee_rate_range (opening.estimate cfg.fee_target_blocks) cfg.floor_rate_sat_vb
          cfg.cap_rate_sat_vb in
      elim (Result-cases (find_live cfg opening)) [
        | inr (why, lost) ↦ ground (arith, lost)
        | inl (some adopted, live) ↦ ground (arith, live)
        | inl (none, live) ↦ elim (Result-cases (build (first_rate opening))) [
          | inr (why, refused) ↦ ground (arith, live, refused)
          | inl (tx, built) ↦ elim (Result-cases (opening.broadcast tx)) [
            | inl (sent, heard) ↦ ground (arith, live, built, heard)
            | inr (why, lost) ↦
                ground (arith, range, live, built, lost, eqb_iff tx tx, eqb_iff tx id)
          ]
        ]
      ]

  start-IsTracked :
      (id : Txid) (opening : Opening) (s : Spend)
      → IsFaithful opening.broadcast
      → start build cfg opening ≡ ok s
      → IsTracked id cfg s
  unfolding start send_first first_rate
  start-IsTracked id opening s f h =
      let range =
        resolve_fee_rate_range (opening.estimate cfg.fee_target_blocks) cfg.floor_rate_sat_vb
          cfg.cap_rate_sat_vb in
      elim (Result-cases (find_live cfg opening)) [
        | inr (e, lost) ↦ ground (arith, lost)
        | inl (some adopted, live) ↦ ground (
          arith,
          range,
          live,
          find_live_own opening cfg.known_ours adopted refl live,
          eqb_iff adopted adopted,
          eqb_iff adopted id,
        )
        | inl (none, live) ↦ elim (Result-cases (build (first_rate opening))) [
          | inr (e, refused) ↦ ground (arith, live, refused)
          | inl (tx, built) ↦ elim (Result-cases (opening.broadcast tx)) [
            | inr (e, lost) ↦ ground (arith, live, built, lost)
            | inl (sent, heard) ↦ ground (
              arith,
              range,
              live,
              built,
              heard,
              f tx sent heard,
              eqb_iff sent sent,
              eqb_iff sent id,
              eqb_iff tx id,
            )
          ]
        ]
      ]

  from_loop :
      (id : Txid) (r : Result String SpendOutcome) (s : Spend)
      (end : Option (Result String SpendOutcome × Spend))
      → with_variables end ≡ some (r, some s)
      → Ended id cfg end
      → IsTracked id cfg s × Names r s
  from_loop id r s none h k = cc
  from_loop id r s (some (r', t)) h k =
      let same_result : r' ≡ r = cc h in
      let same_spend : t ≡ s = cc h in rw same_result at (rw same_spend at k)

  -- A call ends within `max_iterations` turns of the loop, one at least, whatever the backend
  -- answers: by confirmation, a rival's spend, the deadline, a ceiling or an error.
  pub confirm_or_bump_ends :
      (opening : Opening) (turns : List Turn)
      → 0 < length turns
      → cfg.max_iterations ≤ length turns
      → confirm_or_bump build cfg opening turns ≢ none
  unfolding confirm_or_bump
  confirm_or_bump_ends opening turns h k = elim (Result-cases (start build cfg opening)) [
    | inr (e, failed) ↦ rw (failed, confirm_or_bump) (λ q. cc q)
    | inl (s, started) ↦ ground (arith, started, loop_ends 0 s turns h (omega arith))
  ]

  -- However a call ends that has told of a first spend or adopted one: a confirmed or unresolved
  -- spend is one of ours and a conflicting one is not; the rate stays between the operator's floor and the
  -- ceiling; and any transaction `id` that counts as ours stood in the record before or was told
  -- to `on_spend`. The backend answers a broadcast with the transaction's own id.
  pub confirm_or_bump_outcome :
      (id : Txid) (opening : Opening) (turns : List Turn) (r : Result String SpendOutcome)
      (s : Spend)
      → IsFaithful opening.broadcast
      → All (λ turn. IsFaithful turn.broadcast) turns
      → max cfg.cap_rate_sat_vb cfg.floor_rate_sat_vb ≤ u64_max
      → confirm_or_bump build cfg opening turns ≡ some (r, some s)
      → IsTracked id cfg s × Names r s
  unfolding confirm_or_bump
  confirm_or_bump_outcome id opening turns r s fo ft u h =
      elim (Result-cases (start build cfg opening)) [
        | inr ((e, told), failed) ↦
            let is : told ≡ some s = ground (arith, failed, h) in
            let lost : r ≡ err e = ground (arith, failed, h) in
            rw lost (failed-IsTracked id opening e s (rw is at failed), tt)
        | inl (t, started) ↦
            from_loop id r s (loop build cfg 0 t turns) (rw (started, confirm_or_bump) at h)
              (loop-Ended id 0 t turns ft u (start-IsTracked id opening t fo started))
      ]
