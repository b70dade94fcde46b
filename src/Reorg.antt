-- ===== src/Reorg.antt =====
-- swap-common/src/reorg.rs: the monitor that notices a chain reorganisation. The checkpoints are
-- a map from heights to block hashes; a hash is its 256-bit number. What the chain watcher
-- answers is an argument of the observation.
pub mod Forks
mod Examples
use pubky_swap.Prelude.{
  ℕ, zero, suc, ◌+◌, ◌-◌, min, max, Bool, true, false, not, ◌&&◌, ◌||◌, String, Option, none, some,
  List, [], ◌∷◌, Result, ok, err, ◌>>=◌, if◌then◌else◌, ltb, leb, eqb, keep, length, u32_max,
  saturating_add, nat_eq,
}
use pubky_swap.Map.{lookup, insert, remove}

abbrev pub BlockHash : Type 0
BlockHash = ℕ

abbrev pub finality_depth : ℕ
finality_depth = 2

abbrev pub watched_depth : ℕ
watched_depth = 24

pub record ReorgMonitor : Type 0 where
  pub checkpoints : List (ℕ × BlockHash)
  pub max_checkpoints : ℕ

-- `ReorgMonitor::new`.
unfoldable pub new_monitor : ℕ → ReorgMonitor
new_monitor max_checkpoints = record { checkpoints = []; max_checkpoints = max max_checkpoints 1 }

-- What the watcher answers in one observation: the tip, and the hashes from a height on.
pub record ChainView : Type 0 where
  pub tip_height : Result String ℕ
  pub block_hashes_from : ℕ → ℕ → Result String (List BlockHash)

-- `hashes.into_iter().enumerate()`, each hash at its height.
unfoldable pub at_heights : ℕ → List BlockHash → List (ℕ × BlockHash)
at_heights start [] = []
at_heights start (h ∷ hs) = (min u32_max start, h) ∷ at_heights (suc start) hs

-- A height that was rolled back, or whose hash is another one now.
unfoldable pub is_changed : ℕ → List (ℕ × BlockHash) → ℕ × BlockHash → Bool
is_changed tip observed (height, old_hash) =
    ltb tip height
    || (elim (lookup height observed) [ none ↦ false | some current ↦ not (eqb current old_hash) ])

-- `Some(fork.map_or(height, |f| f.min(height)))`.
abbrev pub lower : Option ℕ → ℕ → ℕ
lower none height = height
lower (some f) height = min f height

-- The loop over the checkpoints.
unfoldable pub find_fork : ℕ → List (ℕ × BlockHash) → Option ℕ → List (ℕ × BlockHash) → Option ℕ
unfolding is_changed
find_fork tip observed fork [] = fork
find_fork tip observed fork ((height, old_hash) ∷ m) =
    find_fork tip observed
      (if is_changed tip observed (height, old_hash) then some (lower fork height) else fork) m

-- `checkpoints.retain(|&h, _| h < fork_height)`, where there is a fork.
unfoldable pub drop_from : Option ℕ → List (ℕ × BlockHash) → List (ℕ × BlockHash)
drop_from none m = m
drop_from (some fork) m = keep (λ entry. ltb entry.0 fork) m

-- `checkpoints.extend(observed)`.
unfoldable pub extend : List (ℕ × BlockHash) → List (ℕ × BlockHash) → List (ℕ × BlockHash)
extend m [] = m
extend m ((height, hash) ∷ observed) = extend (insert height hash m) observed

-- `checkpoints.keys().next()`: the lowest height.
unfoldable pub lowest : List (ℕ × BlockHash) → Option ℕ
lowest [] = none
lowest ((height, hash) ∷ m) = some (lower (lowest m) height)

-- The loop that removes the lowest checkpoint while there are too many; the fuel bounds its rounds.
unfoldable pub trim : ℕ → ℕ → List (ℕ × BlockHash) → List (ℕ × BlockHash)
unfolding lowest
trim zero limit m = m
trim (suc fuel) limit m =
    if ltb limit (length m)
    then elim (lowest m) [ none ↦ m | some height ↦ trim fuel limit (remove height m) ]
    else m

-- The body of `observe`, once the watcher has answered.
unfoldable pub observe_view : ReorgMonitor → ℕ → List (ℕ × BlockHash) → ReorgMonitor × Option ℕ
unfolding find_fork drop_from extend trim
observe_view mon tip observed =
    let fork = find_fork tip observed none mon.checkpoints in
    let grown = extend (drop_from fork mon.checkpoints) observed in
    (record mon { checkpoints = trim (length grown) mon.max_checkpoints grown }, fork)

unfoldable pub observe : ReorgMonitor → ChainView → Result String (ReorgMonitor × Option ℕ)
unfolding observe_view at_heights extend
observe mon chain = do
  tip ← chain.tip_height
  let start = tip - (watched_depth - 1)
  hashes ← chain.block_hashes_from start watched_depth
  ok (observe_view mon tip (extend [] (at_heights start hashes)))
