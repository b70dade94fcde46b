-- ===== src/Driver.antt =====
-- What the swap drivers of the provider share (swap-provider/src/reverse.rs, submarine.rs): a run
-- asks the backends, tells them things, and ends or is still going when the answers given to it
-- are used up. Its log is the list of its calls that matter to the other side, in their order.
pub mod Traces
pub mod Counts
pub mod Results
pub mod Logs
use pubky_swap.Prelude.{String, List, [], ◌∷◌, ◌++◌, Result, ok, err}

pub data Ends {ℓ} (A : Type ℓ) : Type ℓ where
  running : Ends A
  fails : String → Ends A
  returns : A → Ends A

pub record Run {ℓ κ} (C : Type κ) (A : Type ℓ) : Type (ℓ ⊔ κ) where
  pub log : List C
  pub ends : Ends A

module _ {ℓ κ} {C : Type κ} {A : Type ℓ} where
  unfoldable pub done : A → Run C A
  done a = record { log = []; ends = returns a }

  -- The answers are used up.
  unfoldable pub unfinished : Run C A
  unfinished = record { log = []; ends = running }

  -- The `?` on an answer.
  unfoldable pub ask : Result String A → Run C A
  unfolding done
  ask (ok a) = done a
  ask (err e) = record { log = []; ends = fails e }

unfoldable pub tell {κ} : {C : Type κ} → C → Run C (Unit {0})
tell c = record { log = c ∷ []; ends = returns tt }

unfoldable pub tell_all {κ} : {C : Type κ} → List C → Run C (Unit {0})
tell_all cs = record { log = cs; ends = returns tt }

-- The second run is under way only where the first has returned.
unfoldable pub chain {ℓ κ ι} :
    {C : Type κ} {A : Type ℓ} {B : Type ι} → List C → Ends A → (A → Run C B) → Run C B
chain log running f = record { log = log; ends = running }
chain log (fails e) f = record { log = log; ends = fails e }
chain log (returns a) f = let rest = f a in record { log = log ++ rest.log; ends = rest.ends }

infixl 5 ◌>>=◌ ◌>>◌
unfoldable pub ◌>>=◌ {ℓ κ ι} :
    {C : Type κ} {A : Type ℓ} {B : Type ι} → Run C A → (A → Run C B) → Run C B
unfolding chain
m >>= f = chain m.log m.ends f

unfoldable pub ◌>>◌ {ℓ κ ι} : {C : Type κ} {A : Type ℓ} {B : Type ι} → Run C A → Run C B → Run C B
unfolding ◌>>=◌
m >> k = m >>= λ _. k
