-- ===== src/Driver/Logs.antt =====
-- What holds of each call on a run's log.
use pubky_swap.Prelude.{◌≡◌, refl, String, List, [], ◌∷◌, ◌++◌, Result, ok, err, All}
use pubky_swap.Driver.{Run, done, ask, tell, tell_all, chain, ◌>>=◌, ◌>>◌}

module _ {κ μ} {C : Type κ} (P : C → Type μ) where
  pub All-append : (cs ds : List C) → All P cs → All P ds → All P (cs ++ ds)
  All-append [] ds h k = k
  All-append (c ∷ cs) ds h k = (h.0, All-append cs ds h.1 k)

  module _ {ℓ} {A : Type ℓ} where
    pub done-All : (a : A) → All P (done {C = C} a).log
    unfolding done
    done-All a = tt

    pub tell-All : (c : C) (m : Run C A) → P c → All P m.log → All P (tell c >> m).log
    unfolding tell ◌>>◌ ◌>>=◌ chain
    tell-All c m h k = (h, k)

    pub tell_all-All :
        (cs : List C) (m : Run C A) → All P cs → All P m.log → All P (tell_all cs >> m).log
    unfolding tell_all ◌>>◌ ◌>>=◌ chain
    tell_all-All cs m h k = All-append cs m.log h k

  pub ask-All {ℓ ι} :
      {A : Type ℓ} {B : Type ι} (r : Result String A) (f : A → Run C B)
      → ((a : A) → r ≡ ok a → All P (f a).log)
      → All P (ask r >>= f).log
  unfolding ask done ◌>>=◌ chain
  ask-All (ok a) f h = h a refl
  ask-All (err e) f h = tt
