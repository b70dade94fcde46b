-- ===== src/FeeBump/Built.antt =====
-- What a call of `confirm_or_bump` puts on the wire is what the caller built
-- (swap-common/src/fee_bump.rs).
use pubky_swap.Prelude.{
  ℕ, suc, ◌≡◌, inl, inr, String, Option, none, some, List, [], ◌∷◌, Result, ok, err, arith, All,
  is_some, contains, nat_eq, eqb, leb, ltb, ◌||◌, Bool-cases, Result-cases, Option-cases,
}
use pubky_swap.Chain.{Txid}
use pubky_swap.Onchain.{deadline_fee_rate, resolve_fee_rate}
use pubky_swap.FeeBump.{
  SpendWatchConfig, SpendOutcome, Turn, Spend, Opening, Verdict, returns, goes_on, is_final,
  is_past, finish, rebroadcast, replace, escalate, watch, settle, notice, take_turn, loop, start,
  send_first, find_live, confirm_or_bump,
}
use pubky_swap.FeeBump.Runs.{Verdict-cases}

module _ (build : ℕ → Result String Txid) where
  -- At some rate, the caller's builder gives this transaction.
  abbrev pub IsBuilt : Txid → Type 0
  IsBuilt tx = (rate : ℕ) × (build rate ≡ ok tx)

  abbrev pub AllBuilt : Spend → Type 0
  AllBuilt s = All IsBuilt s.told

  abbrev VerdictBuilt : Verdict → Type 0
  VerdictBuilt (returns r s) = AllBuilt s
  VerdictBuilt (goes_on s) = AllBuilt s

  rebroadcast-AllBuilt :
      (turn : Turn) (s : Spend) → AllBuilt s → AllBuilt (rebroadcast build turn s)
  unfolding rebroadcast
  rebroadcast-AllBuilt turn s b = elim (Result-cases (build s.rate)) [
    | inr (e, refused) ↦ rw (refused, rebroadcast) b
    | inl (tx, built) ↦ elim (Result-cases (turn.broadcast tx)) [
      | inr (e, lost) ↦ rw (built, lost, rebroadcast) ((s.rate, built), b)
      | inl (id, heard) ↦ rw (built, heard, rebroadcast) ((s.rate, built), b)
    ]
  ]

  replace-AllBuilt :
      (turn : Turn) (s : Spend) (next : ℕ) → AllBuilt s → AllBuilt (replace build turn s next)
  unfolding replace
  replace-AllBuilt turn s next b = elim (Result-cases (build next)) [
    | inr (e, refused) ↦ rw (refused, replace) b
    | inl (tx, built) ↦ elim (Result-cases (turn.broadcast tx)) [
      | inr (e, lost) ↦ elim (Bool-cases (is_some (turn.cpfp s.txid next))) [
        | inl child ↦ rw (built, lost, child, replace) ((next, built), b)
        | inr alone ↦ rw (built, lost, alone, replace) ((next, built), b)
      ]
      | inl (id, heard) ↦ rw (built, heard, replace) ((next, built), b)
    ]
  ]

  module _ (cfg : SpendWatchConfig) where
    escalate-AllBuilt :
        (turn : Turn) (s : Spend) (tip : ℕ) → AllBuilt s → AllBuilt (escalate build cfg turn s tip)
    unfolding escalate
    escalate-AllBuilt turn s tip b =
        let next =
          deadline_fee_rate tip cfg.deadline_height s.rate turn.estimate cfg.floor_rate_sat_vb
            cfg.cap_rate_sat_vb in
        elim (Bool-cases (ltb s.rate next)) [
          | inl more ↦ rw more (replace-AllBuilt turn s next b)
          | inr same ↦ rw same b
        ]

    watch-AllBuilt :
        (turn : Turn) (s : Spend) (tip : ℕ) (depth : Option ℕ)
        → AllBuilt s
        → AllBuilt (watch build cfg turn s tip depth)
    unfolding watch
    watch-AllBuilt turn s tip none b = rebroadcast-AllBuilt turn s b
    watch-AllBuilt turn s tip (some depth) b = elim (Bool-cases (eqb depth 0)) [
      | inl waiting ↦ rw waiting (escalate-AllBuilt turn s tip b)
      | inr mined ↦ rw mined b
    ]

    finish-VerdictBuilt :
        (turn : Turn) (n tip : ℕ) (s : Spend) → AllBuilt s → VerdictBuilt (finish cfg turn n tip s)
    unfolding finish
    finish-VerdictBuilt turn n tip s b =
        elim (Bool-cases (is_past cfg tip || turn.out_of_time || leb cfg.max_iterations n)) [
          | inl over ↦ rw over b
          | inr more ↦ rw more b
        ]

    settle-VerdictBuilt :
        (turn : Turn) (n tip : ℕ) (s : Spend) (depth : Result String (Option ℕ))
        → AllBuilt s
        → VerdictBuilt (settle build cfg turn n tip s depth)
    unfolding settle
    settle-VerdictBuilt turn n tip s (err e) b = b
    settle-VerdictBuilt turn n tip s (ok depth) b = elim (Bool-cases (is_final cfg depth)) [
      | inl final ↦ rw final b
      | inr shallow ↦
          rw shallow (finish-VerdictBuilt turn n tip _ (watch-AllBuilt turn s tip depth b))
    ]

    notice-VerdictBuilt :
        (turn : Turn) (n tip : ℕ) (s : Spend) (spent : Option Txid)
        → AllBuilt s
        → VerdictBuilt (notice build cfg turn n tip s spent)
    unfolding notice
    notice-VerdictBuilt turn n tip s none b = settle-VerdictBuilt turn n tip s _ b
    notice-VerdictBuilt turn n tip s (some id) b = elim (Bool-cases (contains s.ours id)) [
      | inl own ↦ rw own (settle-VerdictBuilt turn n tip (record s { txid = id }) _ b)
      | inr rival ↦ rw rival b
    ]

    take_turn-VerdictBuilt :
        (turn : Turn) (n : ℕ) (s : Spend) → AllBuilt s → VerdictBuilt (take_turn build cfg turn n s)
    unfolding take_turn
    take_turn-VerdictBuilt turn n s b = elim (Result-cases turn.tip) [
      | inr (e, lost) ↦ rw (lost, take_turn) b
      | inl (tip, seen) ↦ elim (Result-cases turn.spend) [
        | inr (e, lost) ↦ rw (seen, lost, take_turn) b
        | inl (spent, known) ↦
            rw (seen, known, take_turn) (notice-VerdictBuilt turn n tip s spent b)
      ]
    ]

    loop-AllBuilt :
        (n : ℕ) (s t : Spend) (turns : List Turn) (r : Result String SpendOutcome)
        → AllBuilt s
        → loop build cfg n s turns ≡ some (r, t)
        → AllBuilt t
    unfolding loop
    loop-AllBuilt n s t [] r b h = cc
    loop-AllBuilt n s t (turn ∷ turns) r b h =
        let kept = take_turn-VerdictBuilt turn (suc n) s b in
        elim (Verdict-cases build cfg (take_turn build cfg turn (suc n) s)) [
          | inl (q, u, e) ↦ let is : u ≡ t = ground (arith, e, h) in rw is at (rw e at kept)
          | inr (u, e) ↦ loop-AllBuilt (suc n) u t turns r (rw e at kept) (rw (e, loop) at h)
        ]

    failed-AllBuilt :
        (opening : Opening) (e : String) (s : Spend)
        → start build cfg opening ≡ err (e, some s)
        → AllBuilt s
    unfolding start send_first
    failed-AllBuilt opening e s h =
        let rate =
          resolve_fee_rate (opening.estimate cfg.fee_target_blocks) cfg.floor_rate_sat_vb
            cfg.cap_rate_sat_vb in
        elim (Result-cases (find_live cfg opening)) [
          | inr (why, lost) ↦ ground (arith, lost, h)
          | inl (some id, live) ↦ ground (arith, live, h)
          | inl (none, live) ↦ elim (Result-cases (build rate)) [
            | inr (why, refused) ↦ ground (arith, live, refused, h)
            | inl (tx, built) ↦ elim (Result-cases (opening.broadcast tx)) [
              | inl (id, heard) ↦ ground (arith, live, built, heard, h)
              | inr (why, lost) ↦
                  let is : s.told ≡ tx ∷ [] = ground (arith, live, built, lost, h) in
                  rw is ((rate, built), tt)
            ]
          ]
        ]

    start-AllBuilt : (opening : Opening) (s : Spend) → start build cfg opening ≡ ok s → AllBuilt s
    unfolding start send_first
    start-AllBuilt opening s h =
        let rate =
          resolve_fee_rate (opening.estimate cfg.fee_target_blocks) cfg.floor_rate_sat_vb
            cfg.cap_rate_sat_vb in
        elim (Result-cases (find_live cfg opening)) [
          | inr (e, lost) ↦ ground (arith, lost, h)
          | inl (some id, live) ↦ let is : s.told ≡ [] = ground (arith, live, h) in rw is tt
          | inl (none, live) ↦ elim (Result-cases (build rate)) [
            | inr (e, refused) ↦ ground (arith, live, refused, h)
            | inl (tx, built) ↦ elim (Result-cases (opening.broadcast tx)) [
              | inr (e, lost) ↦ ground (arith, live, built, lost, h)
              | inl (id, heard) ↦
                  let is : s.told ≡ tx ∷ [] = ground (arith, live, built, heard, h) in
                  rw is ((rate, built), tt)
            ]
          ]
        ]

    -- Each transaction that a call tells to `on_spend` is one that the caller's builder gives.
    pub confirm_or_bump-AllBuilt :
        (opening : Opening) (turns : List Turn) (r : Result String SpendOutcome) (t : Spend)
        → confirm_or_bump build cfg opening turns ≡ some (r, some t)
        → AllBuilt t
    unfolding confirm_or_bump
    confirm_or_bump-AllBuilt opening turns r t h = elim (Result-cases (start build cfg opening)) [
      | inr ((e, told), failed) ↦
          let is : told ≡ some t = ground (arith, failed, h) in
          failed-AllBuilt opening e t (rw is at failed)
      | inl (s, started) ↦ elim (Option-cases (loop build cfg 0 s turns)) [
        | inl running ↦ ground (arith, started, running, h)
        | inr ((q, u), ended) ↦
            let is : u ≡ t = ground (arith, started, ended, h) in
            rw is at (loop-AllBuilt 0 s u turns q (start-AllBuilt opening s started) ended)
      ]
    ]
