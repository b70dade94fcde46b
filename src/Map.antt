-- ===== src/Map.antt =====
-- Finite maps as association lists: the program's hash maps and ordered maps, and their laws.
use pubky_swap.Prelude.{
  ℕ, ◌+◌, ◌≡◌, refl, Option, none, some, List, [], ◌∷◌, arith, Eq, ◌==◌, if◌then◌else◌,
}

module _ {ℓ κ} {K : Type ℓ} {V : Type κ} ⦃e : Eq K⦄ where
  unfoldable pub lookup : K → List (K × V) → Option V
  lookup key [] = none
  lookup key ((other, value) ∷ rest) = if other == key then some value else lookup key rest

  unfoldable pub remove : K → List (K × V) → List (K × V)
  remove key [] = []
  remove key ((other, value) ∷ rest) =
      if other == key then remove key rest else (other, value) ∷ remove key rest

  -- Replaces the value of a key that is there.
  unfoldable pub insert : K → V → List (K × V) → List (K × V)
  insert key new [] = (key, new) ∷ []
  insert key new ((other, value) ∷ rest) =
      if other == key then (other, new) ∷ rest else (other, value) ∷ insert key new rest

  -- No key stands twice.
  abbrev pub Unique : List (K × V) → Type κ
  Unique [] = Unit
  Unique ((k, v) ∷ m) = (lookup k m ≡ none) × Unique m

  -- The sum of a measure over the values.
  abbrev pub total : (V → ℕ) → List (K × V) → ℕ
  total f [] = 0
  total f ((k, v) ∷ m) = f v + total f m

module _ {ℓ κ} {K : Type ℓ} {V : Type κ} ⦃e : Eq K⦄ where
  pub lookup-insert :
      (key asked : K) (new : V) (entries : List (K × V))
      → lookup asked (insert key new entries)
        ≡ (if key == asked then some new else lookup asked entries)
  unfolding lookup insert
  lookup-insert key asked new [] = refl
  lookup-insert key asked new ((other, value) ∷ rest) = ground (
    arith,
    lookup-insert key asked new rest,
    e.beq_iff key asked,
    e.beq_iff other key,
    e.beq_iff other asked,
  )

  pub lookup-remove :
      (k j : K) (m : List (K × V)) → lookup j (remove k m) ≡ (if k == j then none else lookup j m)
  unfolding lookup remove
  lookup-remove k j [] = ground arith
  lookup-remove k j ((i, w) ∷ m) =
      ground (arith, e.beq_iff k j, e.beq_iff i k, e.beq_iff i j, lookup-remove k j m)

  pub remove_absent : (k : K) (m : List (K × V)) → lookup k m ≡ none → remove k m ≡ m
  unfolding lookup remove
  remove_absent k [] h = refl
  remove_absent k ((i, w) ∷ m) h = ground (arith, remove_absent k m)

  pub Unique-remove : (k : K) (m : List (K × V)) → Unique m → Unique (remove k m)
  unfolding remove
  Unique-remove k [] u = tt
  Unique-remove k ((i, w) ∷ m) u = ground (arith, Unique-remove k m u.1, lookup-remove k i m)

  pub Unique-insert : (k : K) (v : V) (m : List (K × V)) → Unique m → Unique (insert k v m)
  unfolding insert lookup
  Unique-insert k v [] u = (refl, tt)
  Unique-insert k v ((i, w) ∷ m) u =
      ground (arith, Unique-insert k v m u.1, lookup-insert k i v m, e.beq_iff k i, e.beq_iff i k)

  pub total-insert :
      (f : V → ℕ) (k : K) (v : V) (m : List (K × V))
      → Unique m
      → total f (insert k v m) ≡ f v + total f (remove k m)
  unfolding insert remove
  total-insert f k v [] u = refl
  total-insert f k v ((i, w) ∷ m) u =
      ground (arith, total-insert f k v m u.1, remove_absent k m, e.beq_iff i k)

  pub total-remove :
      (f : V → ℕ) (k : K) (v : V) (m : List (K × V))
      → Unique m
      → lookup k m ≡ some v
      → total f m ≡ f v + total f (remove k m)
  unfolding lookup remove
  total-remove f k v [] u h = cc
  total-remove f k v ((i, w) ∷ m) u h =
      ground (arith, total-remove f k v m u.1, remove_absent k m, e.beq_iff i k)
