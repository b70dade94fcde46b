-- ===== src/FeeBump.antt =====
-- swap-common/src/fee_bump.rs: driving a claim or a refund to confirmation. The chain backend is
-- not part of the source: each turn of the loop takes what the backend and the clock answered in
-- it, so a run is a function of a list of such turns. A transaction is known by its id.
pub mod Outcomes
pub mod Runs
pub mod Final
pub mod Built
mod Examples
use pubky_swap.Prelude.{
  ℕ, suc, ◌+◌, ◌≤◌, Bool, true, false, not, ◌&&◌, ◌||◌, String, Option, none, some, List, [], ◌∷◌,
  Result, ok, err, ◌>>=◌, ltb, leb, eqb, if◌then◌else◌, contains, nat_eq, is_some,
}
use pubky_swap.Chain.{Txid}
use pubky_swap.Onchain.{resolve_fee_rate, deadline_fee_rate}

abbrev pub default_max_iterations : ℕ
default_max_iterations = 100_000

-- The wall-clock bound enters by `Turn.out_of_time`, the sleep between the turns not at all.
pub record SpendWatchConfig : Type 0 where
  pub fee_target_blocks : ℕ
  pub floor_rate_sat_vb : ℕ
  pub cap_rate_sat_vb : ℕ
  pub min_confirmations : ℕ
  pub deadline_height : Option ℕ
  pub max_iterations : ℕ
  pub known_ours : List Txid

-- `SpendWatchConfig::claim` and `SpendWatchConfig::refund`.
unfoldable pub claim_config : ℕ → ℕ → ℕ → ℕ → ℕ → SpendWatchConfig
claim_config target floor cap_rate confirmations deadline = record {
  fee_target_blocks = target;
  floor_rate_sat_vb = floor;
  cap_rate_sat_vb = cap_rate;
  min_confirmations = confirmations;
  deadline_height = some deadline;
  max_iterations = default_max_iterations;
  known_ours = [];
}

unfoldable pub refund_config : ℕ → ℕ → ℕ → ℕ → SpendWatchConfig
refund_config target floor cap_rate confirmations = record {
  fee_target_blocks = target;
  floor_rate_sat_vb = floor;
  cap_rate_sat_vb = cap_rate;
  min_confirmations = confirmations;
  deadline_height = none;
  max_iterations = default_max_iterations;
  known_ours = [];
}

unfoldable pub with_known_ours : SpendWatchConfig → List Txid → SpendWatchConfig
with_known_ours cfg txids = record cfg { known_ours = txids }

pub data SpendOutcome : Type 0 where
  confirmed : Txid → SpendOutcome
  conflicting_spend : Txid → SpendOutcome
  deadline_exceeded : Txid → ℕ → SpendOutcome

-- What the backend answers in one turn. `broadcast` takes the transaction that was built.
pub record Turn : Type 0 where
  pub tip : Result String ℕ
  pub spend : Result String (Option Txid)
  pub confirmations : Txid → Result String (Option ℕ)
  pub broadcast : Txid → Result String Txid
  pub estimate : ℕ → Option ℕ
  pub cpfp : Txid → ℕ → Option Txid
  pub out_of_time : Bool

-- The variables of the loop, and every id that `on_spend` was told, newest first.
pub record Spend : Type 0 where
  pub txid : Txid
  pub rate : ℕ
  pub ours : List Txid
  pub told : List Txid

-- A turn of the loop returns from the call, or goes on; both keep the variables.
pub data Verdict : Type 0 where
  returns : Result String SpendOutcome → Spend → Verdict
  goes_on : Spend → Verdict

abbrev pub is_final : SpendWatchConfig → Option ℕ → Bool
is_final cfg none = false
is_final cfg (some depth) = leb cfg.min_confirmations depth

abbrev pub is_past : SpendWatchConfig → ℕ → Bool
is_past cfg tip = elim cfg.deadline_height [ none ↦ false | some deadline ↦ leb deadline tip ]

-- The end of a turn: a deadline that has passed, and the two ceilings on the call.
unfoldable pub finish : SpendWatchConfig → Turn → ℕ → ℕ → Spend → Verdict
finish cfg turn iterations tip s =
    if is_past cfg tip || turn.out_of_time || leb cfg.max_iterations iterations
    then returns (ok (deadline_exceeded s.txid tip)) s
    else goes_on s

-- The variables at the end.
abbrev pub with_variables :
    Option (Result String SpendOutcome × Spend) → Option (Result String SpendOutcome × Option Spend)
with_variables none = none
with_variables (some (r, s)) = some (r, some s)

-- The answers before the loop.
pub record Opening : Type 0 where
  pub estimate : ℕ → Option ℕ
  pub spend : Result String (Option Txid)
  pub broadcast : Txid → Result String Txid

-- The spend of an earlier run that is the live one, if there is one.
abbrev pub adopt : List Txid → Option Txid → Option Txid
adopt ours none = none
adopt ours (some id) = if contains ours id then some id else none

unfoldable pub find_live : SpendWatchConfig → Opening → Result String (Option Txid)
find_live cfg opening = elim cfg.known_ours [
  | [] ↦ ok none
  | id ∷ ids ↦ do spent ← opening.spend; ok (adopt cfg.known_ours spent)
]

-- `build` gives the signed spend at a fee rate, by its id, or refuses to dust the output.
module _ (build : ℕ → Result String Txid) where
  -- Not in the mempool and not in a block: back on the wire, if it can be.
  unfoldable pub rebroadcast : Turn → Spend → Spend
  rebroadcast turn s = elim (build s.rate) [
    | err e ↦ s
    | ok tx ↦ elim (turn.broadcast tx) [
      | err e ↦ record s { told = tx ∷ s.told }
      | ok id ↦ record s { told = tx ∷ s.told; ours = id ∷ s.ours; txid = id }
    ]
  ]

  -- A replacement at a higher rate, or a child that pays for it.
  unfoldable pub replace : Turn → Spend → ℕ → Spend
  replace turn s next = elim (build next) [
    | err e ↦ s
    | ok tx ↦ elim (turn.broadcast tx) [
      | ok id ↦ record s { told = tx ∷ s.told; ours = id ∷ s.ours; txid = id; rate = next }
      | err e ↦
          if is_some (turn.cpfp s.txid next)
          then record s { told = tx ∷ s.told; rate = next }
          else record s { told = tx ∷ s.told }
    ]
  ]

  -- In the mempool: escalate if the deadline warrants it.
  unfoldable pub escalate : SpendWatchConfig → Turn → Spend → ℕ → Spend
  unfolding replace
  escalate cfg turn s tip =
      let next =
        deadline_fee_rate tip cfg.deadline_height s.rate turn.estimate cfg.floor_rate_sat_vb
          cfg.cap_rate_sat_vb in
      if ltb s.rate next then replace turn s next else s

  -- The depth that is not final yet.
  unfoldable pub watch : SpendWatchConfig → Turn → Spend → ℕ → Option ℕ → Spend
  unfolding rebroadcast escalate
  watch cfg turn s tip none = rebroadcast turn s
  watch cfg turn s tip (some depth) = if eqb depth 0 then escalate cfg turn s tip else s

  -- The depth of the live spend.
  unfoldable pub settle :
      SpendWatchConfig → Turn → ℕ → ℕ → Spend → Result String (Option ℕ) → Verdict
  unfolding watch finish
  settle cfg turn iterations tip s (err e) = returns (err e) s
  settle cfg turn iterations tip s (ok depth) =
      if is_final cfg depth
      then returns (ok (confirmed s.txid)) s
      else finish cfg turn iterations tip (watch cfg turn s tip depth)

  -- Who spent the output, if anyone has.
  unfoldable pub notice : SpendWatchConfig → Turn → ℕ → ℕ → Spend → Option Txid → Verdict
  unfolding settle
  notice cfg turn iterations tip s none =
      settle cfg turn iterations tip s (turn.confirmations s.txid)
  notice cfg turn iterations tip s (some id) =
      if contains s.ours id
      then settle cfg turn iterations tip (record s { txid = id }) (turn.confirmations id)
      else returns (ok (conflicting_spend id)) s

  unfoldable pub take_turn : SpendWatchConfig → Turn → ℕ → Spend → Verdict
  unfolding notice
  take_turn cfg turn iterations s = elim turn.tip [
    | err e ↦ returns (err e) s
    | ok tip ↦ elim turn.spend [
      | err e ↦ returns (err e) s
      | ok spent ↦ notice cfg turn iterations tip s spent
    ]
  ]

  -- `none`: the loop is still running after these turns.
  unfoldable pub loop :
      SpendWatchConfig → ℕ → Spend → List Turn → Option (Result String SpendOutcome × Spend)
  unfolding take_turn
  loop cfg iterations s [] = none
  loop cfg iterations s (turn ∷ turns) = elim (take_turn cfg turn (suc iterations) s) [
    | returns r t ↦ some (r, t)
    | goes_on t ↦ loop cfg (suc iterations) t turns
  ]

  -- The first broadcast. It is told to `on_spend` before: a broadcast that fails ends the call with
  -- the spend that was told of.
  unfoldable pub send_first :
      SpendWatchConfig → Opening → ℕ → Txid → Result (String × Option Spend) Spend
  send_first cfg opening rate tx = elim (opening.broadcast tx) [
    | err e ↦
        err
          (e, some (record { txid = tx; rate = rate; ours = tx ∷ cfg.known_ours; told = tx ∷ [] }))
    | ok id ↦ ok (record { txid = id; rate = rate; ours = id ∷ cfg.known_ours; told = tx ∷ [] })
  ]

  -- The first broadcast, or the adopted spend. A failure ends the call.
  unfoldable pub start : SpendWatchConfig → Opening → Result (String × Option Spend) Spend
  unfolding find_live send_first
  start cfg opening =
      let rate =
        resolve_fee_rate (opening.estimate cfg.fee_target_blocks) cfg.floor_rate_sat_vb
          cfg.cap_rate_sat_vb in
      elim (find_live cfg opening) [
        | err e ↦ err (e, none)
        | ok live ↦ elim live [
          | some id ↦ ok (record { txid = id; rate = rate; ours = id ∷ cfg.known_ours; told = [] })
          | none ↦ elim (build rate) [
            | err e ↦ err (e, none)
            | ok tx ↦ send_first cfg opening rate tx
          ]
        ]
      ]

  unfoldable pub confirm_or_bump :
      SpendWatchConfig → Opening → List Turn → Option (Result String SpendOutcome × Option Spend)
  unfolding start loop
  confirm_or_bump cfg opening turns = elim (start cfg opening) [
    | err failed ↦ some (err failed.0, failed.1)
    | ok s ↦ with_variables (loop cfg 0 s turns)
  ]
