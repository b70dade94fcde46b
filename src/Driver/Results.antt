-- ===== src/Driver/Results.antt =====
-- What the parts of a run returned, where the run returns.
use pubky_swap.Prelude.{◌≡◌, refl, ap, String, List, Result, ok, err}
use pubky_swap.Driver.{Ends, running, fails, returns, Run, done, ask, chain, ◌>>=◌, ◌>>◌}

module _ {κ ℓ ι} {C : Type κ} {A : Type ℓ} {B : Type ι} where
  chain_returns :
      (log : List C) (ends : Ends A) (f : A → Run C B) (b : B)
      → (chain log ends f).ends ≡ returns b
      → (a : A) × ((f a).ends ≡ returns b) × (ends ≡ returns a)
  unfolding chain
  chain_returns log running f b h = cc
  chain_returns log (fails e) f b h = cc
  chain_returns log (returns a) f b h = (a, h, refl)

  pub bind_returns :
      (m : Run C A) (f : A → Run C B) (b : B)
      → (m >>= f).ends ≡ returns b
      → (a : A) × ((f a).ends ≡ returns b) × (m.ends ≡ returns a)
  unfolding ◌>>=◌
  bind_returns m f b h = chain_returns m.log m.ends f b h

  pub then_returns :
      (m : Run C A) (k : Run C B) (b : B) → (m >> k).ends ≡ returns b → k.ends ≡ returns b
  unfolding ◌>>◌
  then_returns m k b h = (bind_returns m (λ _. k) b h).1

module _ {κ ℓ} (C : Type κ) {A : Type ℓ} where
  pub ask_returns : (r : Result String A) (a : A) → (ask {C = C} r).ends ≡ returns a → r ≡ ok a
  unfolding ask done
  ask_returns (ok x) a h = let same : x ≡ a = cc in ap ok same
  ask_returns (err e) a h = cc

  pub done_returns : (a b : A) → (done {C = C} a).ends ≡ returns b → a ≡ b
  unfolding done
  done_returns a b h = cc
