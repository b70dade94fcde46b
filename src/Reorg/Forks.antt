-- ===== src/Reorg/Forks.antt =====
-- Which height an observation reports, and how many checkpoints it keeps
-- (swap-common/src/reorg.rs).
use pubky_swap.Prelude.{
  ℕ, zero, suc, ◌+◌, ◌≤◌, ◌<◌, min, ◌≡◌, ◌≢◌, ◌⊎◌, inl, inr, refl, true, false, Option, none, some,
  List, [], ◌∷◌, arith, All, Any, length, ltb, eqb, nat_eq, eqb_iff, Option-cases, Bool-cases,
}
use pubky_swap.Map.{lookup, insert, remove, lookup-insert, lookup-remove}
use pubky_swap.Reorg.{
  ReorgMonitor, BlockHash, is_changed, lower, find_fork, drop_from, extend, lowest, trim,
  observe_view,
}

-- A height that a fork covers.
abbrev pub AtOrAbove : Option ℕ → ℕ → Type 0
AtOrAbove none height = ⊥
AtOrAbove (some f) height = f ≤ height

-- Each changed checkpoint is at the fork or above it.
abbrev pub Covers : ℕ → List (ℕ × BlockHash) → Option ℕ → ℕ × BlockHash → Type 0
Covers tip observed fork entry = (is_changed tip observed entry ≡ false) ⊎ AtOrAbove fork entry.0

-- A fork height is that of a changed checkpoint.
abbrev pub Stands : ℕ → List (ℕ × BlockHash) → ℕ → List (ℕ × BlockHash) → Type 0
Stands tip observed f [] = ⊥
Stands tip observed f (entry ∷ m) =
    ((entry.0 ≡ f) × (is_changed tip observed entry ≡ true)) ⊎ Stands tip observed f m

AtOrAbove-find_fork :
    (tip : ℕ) (observed : List (ℕ × BlockHash)) (fork : Option ℕ) (m : List (ℕ × BlockHash))
    (height : ℕ)
    → AtOrAbove fork height
    → AtOrAbove (find_fork tip observed fork m) height
unfolding find_fork
AtOrAbove-find_fork tip observed fork [] height h = h
AtOrAbove-find_fork tip observed none ((g, x) ∷ m) height h = absurd h
AtOrAbove-find_fork tip observed (some f) ((g, x) ∷ m) height h =
    elim (Bool-cases (is_changed tip observed (g, x))) [
      | inl changed ↦
          rw (changed, find_fork)
            (AtOrAbove-find_fork tip observed (some (min f g)) m height (omega arith))
      | inr same ↦ rw (same, find_fork) (AtOrAbove-find_fork tip observed (some f) m height h)
    ]

lower-le : (fork : Option ℕ) (g : ℕ) → lower fork g ≤ g
lower-le none g = omega arith
lower-le (some f) g = omega arith

-- Every changed checkpoint is at the fork found, or above it.
find_fork-Covers :
    (tip : ℕ) (observed : List (ℕ × BlockHash)) (fork : Option ℕ) (m : List (ℕ × BlockHash))
    (found : Option ℕ)
    → find_fork tip observed fork m ≡ found
    → All (Covers tip observed found) m
unfolding find_fork
find_fork-Covers tip observed fork [] found h = tt
find_fork-Covers tip observed fork ((g, x) ∷ m) found h =
    elim (Bool-cases (is_changed tip observed (g, x))) [
      | inl changed ↦
          let rest : find_fork tip observed (some (lower fork g)) m ≡ found = rw changed at h in
          (
            inr (
                rw rest at
                  (AtOrAbove-find_fork tip observed (some (lower fork g)) m g (lower-le fork g))),
            find_fork-Covers tip observed (some (lower fork g)) m found rest,
          )
      | inr same ↦ (inl same, find_fork-Covers tip observed fork m found (rw same at h))
    ]

lower-either : (fork : Option ℕ) (g : ℕ) → (lower fork g ≡ g) ⊎ (fork ≡ some (lower fork g))
lower-either none g = inl refl
lower-either (some f) g = ground arith

-- The fork found is that of a changed checkpoint, or the one found before.
find_fork-Stands :
    (tip : ℕ) (observed : List (ℕ × BlockHash)) (fork : Option ℕ) (m : List (ℕ × BlockHash)) (f : ℕ)
    → find_fork tip observed fork m ≡ some f
    → (fork ≡ some f) ⊎ Stands tip observed f m
unfolding find_fork
find_fork-Stands tip observed fork [] f h = inl h
find_fork-Stands tip observed fork ((g, x) ∷ m) f h =
    elim (Bool-cases (is_changed tip observed (g, x))) [
      | inl changed ↦ ground (
        arith,
        changed,
        lower-either fork g,
        find_fork-Stands tip observed (some (lower fork g)) m f (rw changed at h),
      )
      | inr same ↦ ground (arith, find_fork-Stands tip observed fork m f (rw same at h))
    ]

length-remove : (height : ℕ) (m : List (ℕ × BlockHash)) → length (remove height m) ≤ length m
unfolding remove
length-remove height [] = omega arith
length-remove height ((g, x) ∷ m) = ground (arith, length-remove height m)

length-remove_found :
    (height : ℕ) (m : List (ℕ × BlockHash))
    → lookup height m ≢ none
    → length (remove height m) < length m
unfolding remove lookup
length-remove_found height [] h = absurd (h refl)
length-remove_found height ((g, x) ∷ m) h =
    ground (arith, length-remove height m, length-remove_found height m)

lowest_found :
    (m : List (ℕ × BlockHash)) (height : ℕ) → lowest m ≡ some height → lookup height m ≢ none
unfolding lowest lookup
lowest_found [] height h q = cc
lowest_found ((g, x) ∷ m) height h q = elim (Option-cases (lowest m)) [
  | inr (low, there) ↦
      ground (arith, there, eqb_iff g height, lower-either (some low) g, lowest_found m low there)
  | inl empty ↦ ground (arith, empty, eqb_iff g height)
]

lowest-none : (m : List (ℕ × BlockHash)) → lowest m ≡ none → length m ≡ 0
unfolding lowest
lowest-none [] h = refl
lowest-none ((g, x) ∷ m) h = cc

length-trim :
    (fuel limit : ℕ) (m : List (ℕ × BlockHash))
    → length m ≤ fuel + limit
    → length (trim fuel limit m) ≤ limit
unfolding trim
length-trim zero limit m h = omega arith
length-trim (suc fuel) limit m h = elim (Option-cases (lowest m)) [
  | inr (low, there) ↦
      let shrunk = length-remove_found low m (lowest_found m low there) in
      ground (arith, there, shrunk, length-trim fuel limit (remove low m))
  | inl empty ↦ ground (arith, empty, lowest-none m empty)
]

-- A checkpoint that no longer stands: above the tip, or with another hash at its height.
pub data HasChanged (tip : ℕ) (observed : List (ℕ × BlockHash)) : ℕ × BlockHash → Type 0 where
  rolled_back :
      {height : ℕ} {old : BlockHash} → tip < height → HasChanged tip observed (height, old)
  replaced :
      {height : ℕ} {old : BlockHash} (new : BlockHash)
      → lookup height observed ≡ some new
      → new ≢ old
      → HasChanged tip observed (height, old)

-- At the tip or below it, and with its own hash or none in what was observed.
abbrev pub IsUnchanged : ℕ → List (ℕ × BlockHash) → ℕ × BlockHash → Type 0
IsUnchanged tip observed (height, old) =
    (height ≤ tip) × ((lookup height observed ≡ none) ⊎ (lookup height observed ≡ some old))

changed-HasChanged :
    (tip : ℕ) (observed : List (ℕ × BlockHash)) (entry : ℕ × BlockHash)
    → is_changed tip observed entry ≡ true
    → HasChanged tip observed entry
unfolding is_changed
changed-HasChanged tip observed (height, old) h = elim (Bool-cases (ltb tip height)) [
  | inl above ↦ rolled_back (ground (arith, above))
  | inr within ↦ elim (Option-cases (lookup height observed)) [
    | inl missing ↦ ground (arith, h, within, missing)
    | inr (new, seen) ↦ replaced new seen (λ same. ground (arith, h, within, seen, eqb_iff new old))
  ]
]

same-IsUnchanged :
    (tip : ℕ) (observed : List (ℕ × BlockHash)) (entry : ℕ × BlockHash)
    → is_changed tip observed entry ≡ false
    → IsUnchanged tip observed entry
unfolding is_changed
same-IsUnchanged tip observed (height, old) h = elim (Option-cases (lookup height observed)) [
  | inl missing ↦ ground (arith, h, missing)
  | inr (new, seen) ↦ ground (arith, h, seen, eqb_iff new old)
]

-- Each checkpoint stands, or is at the height that is reported or above it.
abbrev pub AllCovered : ℕ → List (ℕ × BlockHash) → Option ℕ → List (ℕ × BlockHash) → Type 0
AllCovered tip observed fork m =
    All (λ entry. IsUnchanged tip observed entry ⊎ AtOrAbove fork entry.0) m

abbrev pub AnyAt : ℕ → List (ℕ × BlockHash) → ℕ → List (ℕ × BlockHash) → Type 0
AnyAt tip observed f m = Any (λ entry. (entry.0 ≡ f) × HasChanged tip observed entry) m

-- Nothing is reported only where every checkpoint stands; and the height reported is that of one
-- that does not.
abbrev pub IsLowestChange : ℕ → List (ℕ × BlockHash) → List (ℕ × BlockHash) → Option ℕ → Type 0
IsLowestChange tip observed m none = AllCovered tip observed none m
IsLowestChange tip observed m (some f) = AllCovered tip observed (some f) m × AnyAt tip observed f m

all_covered :
    (tip : ℕ) (observed : List (ℕ × BlockHash)) (fork : Option ℕ) (m : List (ℕ × BlockHash))
    → All (Covers tip observed fork) m
    → AllCovered tip observed fork m
all_covered tip observed fork [] h = tt
all_covered tip observed fork (entry ∷ m) (inl same, rest) =
    (inl (same-IsUnchanged tip observed entry same), all_covered tip observed fork m rest)
all_covered tip observed fork (entry ∷ m) (inr above, rest) =
    (inr above, all_covered tip observed fork m rest)

any_at :
    (tip : ℕ) (observed : List (ℕ × BlockHash)) (f : ℕ) (m : List (ℕ × BlockHash))
    → Stands tip observed f m
    → AnyAt tip observed f m
any_at tip observed f [] h = h
any_at tip observed f (entry ∷ m) (inl (at, changed)) =
    inl (at, changed-HasChanged tip observed entry changed)
any_at tip observed f (entry ∷ m) (inr later) = inr (any_at tip observed f m later)

find_fork-IsLowestChange :
    (tip : ℕ) (observed m : List (ℕ × BlockHash)) (found : Option ℕ)
    → find_fork tip observed none m ≡ found
    → IsLowestChange tip observed m found
find_fork-IsLowestChange tip observed m none h =
    all_covered tip observed none m (find_fork-Covers tip observed none m none h)
find_fork-IsLowestChange tip observed m (some f) h = (
  all_covered tip observed (some f) m (find_fork-Covers tip observed none m (some f) h),
  any_at tip observed f m (ground (arith, find_fork-Stands tip observed none m f h)),
)

-- Below the height that is reported, where one is.
abbrev pub Below : Option ℕ → ℕ → Type 0
Below none height = Unit
Below (some f) height = height < f

lookup-drop_from :
    (fork : Option ℕ) (m : List (ℕ × BlockHash)) (height : ℕ) (hash : BlockHash)
    → lookup height (drop_from fork m) ≡ some hash
    → (lookup height m ≡ some hash) × Below fork height
unfolding drop_from lookup
lookup-drop_from none m height hash h = (h, tt)
lookup-drop_from (some f) [] height hash h = cc
lookup-drop_from (some f) ((g, x) ∷ m) height hash h =
    ground (arith, h, eqb_iff g height, lookup-drop_from (some f) m height hash)

lookup-extend :
    (m observed : List (ℕ × BlockHash)) (height : ℕ) (hash : BlockHash)
    → lookup height (extend m observed) ≡ some hash
    → (lookup height m ≡ some hash) ⊎ Any (λ entry. entry ≡ (height, hash)) observed
unfolding extend
lookup-extend m [] height hash h = inl h
lookup-extend m ((g, x) ∷ observed) height hash h =
    elim (lookup-extend (insert g x m) observed height hash h) [
      | inr later ↦ inr (inr later)
      | inl there ↦ elim (Bool-cases (eqb g height)) [
        | inl same ↦
            let is : g ≡ height = (eqb_iff g height).0 same in
            let hash_is : x ≡ hash = ground (arith, lookup-insert g height x m, there, same) in
            inr (inl (rw (is, hash_is) refl))
        | inr other ↦ inl (ground (arith, lookup-insert g height x m, there, other))
      ]
    ]

lookup-trim :
    (fuel limit : ℕ) (m : List (ℕ × BlockHash)) (height : ℕ) (hash : BlockHash)
    → lookup height (trim fuel limit m) ≡ some hash
    → lookup height m ≡ some hash
unfolding trim
lookup-trim zero limit m height hash h = h
lookup-trim (suc fuel) limit m height hash h = elim (Option-cases (lowest m)) [
  | inl empty ↦ ground (arith, empty, h)
  | inr (low, there) ↦ ground (
    arith,
    there,
    h,
    lookup-remove low height m,
    lookup-trim fuel limit (remove low m) height hash,
  )
]

-- An observation reports the lowest height at which a checkpoint no longer stands (it is above the
-- tip, or another hash was observed at its height), and nothing where each one stands; each
-- checkpoint that it keeps was observed, or was a checkpoint below the height reported; and it keeps
-- as many as its bound at most.
pub observe_view-reports :
    (mon : ReorgMonitor) (tip : ℕ) (observed : List (ℕ × BlockHash))
    → let (after, fork) = observe_view mon tip observed in
      IsLowestChange tip observed mon.checkpoints fork
      × ((height : ℕ) (hash : BlockHash)
          → lookup height after.checkpoints ≡ some hash
          → ((lookup height mon.checkpoints ≡ some hash) × Below fork height)
            ⊎ Any (λ entry. entry ≡ (height, hash)) observed)
      × (length after.checkpoints ≤ mon.max_checkpoints)
unfolding observe_view
observe_view-reports mon tip observed =
    let fork = find_fork tip observed none mon.checkpoints in
    let grown = extend (drop_from fork mon.checkpoints) observed in
    (
      find_fork-IsLowestChange tip observed mon.checkpoints fork refl,
      λ height hash h.
          elim (lookup-extend (drop_from fork mon.checkpoints) observed height hash
            (lookup-trim (length grown) mon.max_checkpoints grown height hash h)) [
              | inl kept ↦ inl (lookup-drop_from fork mon.checkpoints height hash kept)
              | inr seen ↦ inr seen
            ],
      length-trim (length grown) mon.max_checkpoints grown (omega arith),
    )
