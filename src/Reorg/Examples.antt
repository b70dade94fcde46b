-- ===== src/Reorg/Examples.antt =====
-- The theorem on observations at a chain that replaced a block (swap-common/src/reorg.rs).
use pubky_swap.Prelude.{ℕ, ◌≤◌, ◌≡◌, ◌⊎◌, refl, some, [], ◌∷◌, List, length, Any, nat_eq}
use pubky_swap.Map.{lookup}
use pubky_swap.Reorg.{ReorgMonitor, BlockHash, observe_view}
use pubky_swap.Reorg.Forks.{IsLowestChange, Below, observe_view-reports}

abbrev monitor : ReorgMonitor
monitor = record { checkpoints = (100, 7) ∷ (101, 8) ∷ (102, 9) ∷ []; max_checkpoints = 3 }

abbrev replaced_at_101 : List (ℕ × BlockHash)
replaced_at_101 = (100, 7) ∷ (101, 18) ∷ (102, 19) ∷ (103, 20) ∷ []

observe_view-reports_example :
    let (after, fork) = observe_view monitor 103 replaced_at_101 in
    IsLowestChange 103 replaced_at_101 monitor.checkpoints fork
    × ((height : ℕ) (hash : BlockHash)
        → lookup height after.checkpoints ≡ some hash
        → ((lookup height monitor.checkpoints ≡ some hash) × Below fork height)
          ⊎ Any (λ entry. entry ≡ (height, hash)) replaced_at_101)
    × (length after.checkpoints ≤ 3)
observe_view-reports_example = observe_view-reports monitor 103 replaced_at_101

reports_101 : (observe_view monitor 103 replaced_at_101).1 ≡ some 101
unfolding observe_view lookup
reports_101 = refl
