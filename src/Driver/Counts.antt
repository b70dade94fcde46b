-- ===== src/Driver/Counts.antt =====
-- Counting the calls on a log that follows a protocol.
use pubky_swap.Prelude.{
  ℕ, ◌+◌, ◌≤◌, ◌≡◌, inl, inr, Option, some, List, [], ◌∷◌, arith, Option-cases,
}
use pubky_swap.Driver.Traces.{follow}

module _ {κ} {C : Type κ} where
  unfoldable pub count : (C → ℕ) → List C → ℕ
  count cost [] = 0
  count cost (c ∷ cs) = cost c + count cost cs

-- What no step may exceed, a log does not exceed.
module _ {κ ι} {C : Type κ} {P : Type ι} (advance : P → C → Option P) (cost : C → ℕ)
    (left : P → ℕ) where
  pub count-follow :
      ((p q : P) (c : C) → advance p c ≡ some q → cost c + left q ≤ left p)
      → (p q : P) (cs : List C) → follow advance p cs ≡ some q
      → count cost cs + left q ≤ left p
  unfolding count follow
  count-follow step p q [] h = let same : p ≡ q = cc in rw same (omega arith)
  count-follow step p q (c ∷ cs) h = elim (Option-cases (advance p c)) [
    | inl refused ↦ ground (arith, refused)
    | inr (r, allowed) ↦
        let later = count-follow step r q cs (rw (allowed, follow) at h) in
        omega (arith, step p r c allowed, later)
  ]
