-- ===== src/FeeBump/Final.antt =====
-- A spend that a call of `confirm_or_bump` gives as confirmed is deep enough
-- (swap-common/src/fee_bump.rs).
use pubky_swap.Prelude.{
  ℕ, suc, ◌≤◌, ◌≡◌, inl, inr, true, String, Option, none, some, List, [], ◌∷◌, Result, ok, err,
  arith, Any, leb→le, contains, nat_eq, Bool-cases, Result-cases, Option-cases, refl,
}
use pubky_swap.Chain.{Txid}
use pubky_swap.FeeBump.{
  SpendWatchConfig, confirmed, Turn, Spend, Opening, returns, is_final, finish, settle, notice,
  take_turn, loop, start, confirm_or_bump,
}
use pubky_swap.FeeBump.Runs.{Verdict-cases}

-- In this turn the chain gave the transaction at least this depth.
abbrev pub IsDeep : ℕ → Txid → Turn → Type 0
IsDeep least txid turn = (depth : ℕ) × (turn.confirmations txid ≡ ok (some depth)) × (least ≤ depth)

module _ (build : ℕ → Result String Txid) (cfg : SpendWatchConfig) (txid : Txid) where
  final_depth :
      (turn : Turn) (id : Txid) (depth : Option ℕ)
      → turn.confirmations id ≡ ok depth
      → is_final cfg depth ≡ true
      → IsDeep cfg.min_confirmations id turn
  final_depth turn id none answered h = cc
  final_depth turn id (some depth) answered h = (depth, answered, leb→le _ depth h)

  settle-IsDeep :
      (turn : Turn) (n tip : ℕ) (s t : Spend) (depth : Result String (Option ℕ))
      → turn.confirmations s.txid ≡ depth
      → settle build cfg turn n tip s depth ≡ returns (ok (confirmed txid)) t
      → IsDeep cfg.min_confirmations txid turn
  unfolding settle finish
  settle-IsDeep turn n tip s t (err e) answered h = cc
  settle-IsDeep turn n tip s t (ok depth) answered h = elim (Bool-cases (is_final cfg depth)) [
    | inl final ↦
        let is : s.txid ≡ txid = ground (arith, final, h) in
        rw is at (final_depth turn s.txid depth answered final)
    | inr shallow ↦ ground (arith, shallow, h)
  ]

  notice-IsDeep :
      (turn : Turn) (n tip : ℕ) (s t : Spend) (spent : Option Txid)
      → notice build cfg turn n tip s spent ≡ returns (ok (confirmed txid)) t
      → IsDeep cfg.min_confirmations txid turn
  unfolding notice
  notice-IsDeep turn n tip s t none h =
      settle-IsDeep turn n tip s t (turn.confirmations s.txid) refl h
  notice-IsDeep turn n tip s t (some id) h = elim (Bool-cases (contains s.ours id)) [
    | inl own ↦
        settle-IsDeep turn n tip (record s { txid = id }) t (turn.confirmations id) refl
          (rw own at h)
    | inr rival ↦ ground (arith, rival, h)
  ]

  take_turn-IsDeep :
      (turn : Turn) (n : ℕ) (s t : Spend)
      → take_turn build cfg turn n s ≡ returns (ok (confirmed txid)) t
      → IsDeep cfg.min_confirmations txid turn
  unfolding take_turn
  take_turn-IsDeep turn n s t h = elim (Result-cases turn.tip) [
    | inr (e, lost) ↦ ground (arith, lost, h)
    | inl (tip, seen) ↦ elim (Result-cases turn.spend) [
      | inr (e, lost) ↦ ground (arith, seen, lost, h)
      | inl (spent, known) ↦ notice-IsDeep turn n tip s t spent (rw (seen, known, take_turn) at h)
    ]
  ]

  loop-IsDeep :
      (n : ℕ) (s t : Spend) (turns : List Turn)
      → loop build cfg n s turns ≡ some (ok (confirmed txid), t)
      → Any (IsDeep cfg.min_confirmations txid) turns
  unfolding loop
  loop-IsDeep n s t [] h = cc
  loop-IsDeep n s t (turn ∷ turns) h =
      elim (Verdict-cases build cfg (take_turn build cfg turn (suc n) s)) [
        | inl (r, u, e) ↦
            let is : r ≡ ok (confirmed txid) = ground (arith, e, h) in
            inl (take_turn-IsDeep turn (suc n) s u (rw is at e))
        | inr (u, e) ↦ inr (loop-IsDeep (suc n) u t turns (rw (e, loop) at h))
      ]

  -- The transaction that a call gives as confirmed had, in one turn, the depth that the
  -- configuration asks for.
  pub confirmed-IsDeep :
      (opening : Opening) (turns : List Turn) (spend : Option Spend)
      → confirm_or_bump build cfg opening turns ≡ some (ok (confirmed txid), spend)
      → Any (IsDeep cfg.min_confirmations txid) turns
  unfolding confirm_or_bump
  confirmed-IsDeep opening turns spend h = elim (Result-cases (start build cfg opening)) [
    | inr (e, failed) ↦ ground (arith, failed, h)
    | inl (s, started) ↦ elim (Option-cases (loop build cfg 0 s turns)) [
      | inl running ↦ ground (arith, started, running, h)
      | inr ((r, t), ended) ↦
          let is : r ≡ ok (confirmed txid) = ground (arith, started, ended, h) in
          loop-IsDeep 0 s t turns (rw is at ended)
    ]
  ]
