-- ===== src/Driver/Traces.antt =====
-- Logs that follow a protocol: a partial step function on phases, and the rules by which a driver
-- is shown to follow it.
use pubky_swap.Prelude.{
  ◌≡◌, refl, ◌∙◌, String, List, [], ◌∷◌, ◌++◌, Result, ok, err, Option, none, some, arith, inl, inr,
  Option-cases, All, ℕ, zero, suc, take,
}
use pubky_swap.Driver.{
  Ends, running, fails, returns, Run, done, unfinished, ask, tell, tell_all, chain, ◌>>=◌, ◌>>◌,
}

-- What holds of a result, wherever there is one.
abbrev pub Post {ℓ ι μ} : {P : Type ι} {A : Type ℓ} → (A → P → Type μ) → Ends A → P → Type μ
Post Q running p = Unit
Post Q (fails e) p = Unit
Post Q (returns a) p = Q a p

Post-weaken {ℓ ι μ ν} :
    {P : Type ι} {A : Type ℓ} {Q : A → P → Type μ} {R : A → P → Type ν} (ends : Ends A) (p : P)
    → ((a : A) (q : P) → Q a q → R a q)
    → Post Q ends p
    → Post R ends p
Post-weaken running p f h = tt
Post-weaken (fails e) p f h = tt
Post-weaken (returns a) p f h = f a p h

module _ {κ ι} {C : Type κ} {P : Type ι} (advance : P → C → Option P) where
  -- The phase after a log, if the protocol allows each of its calls in turn.
  unfoldable pub follow : P → List C → Option P
  follow p [] = some p
  follow p (c ∷ cs) = elim (advance p c) [ none ↦ none | some q ↦ follow q cs ]

  follow-append :
      (p q : P) (cs ds : List C) → follow p cs ≡ some q → follow p (cs ++ ds) ≡ follow q ds
  unfolding follow
  follow-append p q [] ds h = ground arith
  follow-append p q (c ∷ cs) ds h = elim (Option-cases (advance p c)) [
    | inl refused ↦ ground (arith, refused)
    | inr (r, allowed) ↦ ground (arith, allowed, follow-append r q cs ds)
  ]

  -- A protocol allows each beginning of a log that it allows.
  pub follow-take :
      (p q : P) (n : ℕ) (cs : List C)
      → follow p cs ≡ some q
      → (r : P) × (follow p (take n cs) ≡ some r)
  unfolding follow
  follow-take p q zero cs h = (p, refl)
  follow-take p q (suc n) [] h = (p, refl)
  follow-take p q (suc n) (c ∷ cs) h = elim (Option-cases (advance p c)) [
    | inl refused ↦ ground (arith, refused)
    | inr (s, allowed) ↦
        let (r, reached) = follow-take s q n cs (rw (allowed, follow) at h) in
        (r, rw (allowed, follow) reached)
  ]

  follow-stays : (p : P) (cs : List C) → All (λ c. advance p c ≡ some p) cs → follow p cs ≡ some p
  unfolding follow
  follow-stays p [] stays = refl
  follow-stays p (c ∷ cs) stays = rw (stays.0, follow) (follow-stays p cs stays.1)

  -- The run follows the protocol from `p`, and its result and the phase it reaches satisfy `Q`.
  pub record Follows {ℓ μ} {A : Type ℓ} (p : P) (m : Run C A) (Q : A → P → Type μ)
      : Type (ι ⊔ μ) where
    pub phase : P
    pub path : follow p m.log ≡ some phase
    pub post : Post Q m.ends phase

module _ {κ ι} {C : Type κ} {P : Type ι} {advance : P → C → Option P} where
  module _ {ℓ μ} {A : Type ℓ} {Q : A → P → Type μ} {p : P} where
    pub Follows-done : (a : A) → Q a p → Follows advance p (done a) Q
    unfolding follow done
    Follows-done a h = record { phase = p; path = refl; post = h }

    pub Follows-unfinished : Follows advance p unfinished Q
    unfolding follow unfinished
    Follows-unfinished = record { phase = p; path = refl; post = tt }

    -- An error that the driver returns.
    pub Follows-fail : (e : String) → Follows advance p (ask (err e)) Q
    unfolding follow ask
    Follows-fail e = record { phase = p; path = refl; post = tt }

  module _ {ℓ μ ν κ'} {A : Type ℓ} {B : Type κ'} {Q : A → P → Type μ} {R : B → P → Type ν}
      {p : P} where
    Follows-chain :
        (log : List C) (ends : Ends A) (f : A → Run C B)
        → Follows advance p (record { log = log; ends = ends }) Q
        → ((a : A) (q : P) → Q a q → Follows advance q (f a) R)
        → Follows advance p (chain log ends f) R
    unfolding chain
    Follows-chain log running f h g = record { phase = h.phase; path = h.path; post = tt }
    Follows-chain log (fails e) f h g = record { phase = h.phase; path = h.path; post = tt }
    Follows-chain log (returns a) f h g =
        let rest = g a h.phase h.post in
        record {
          phase = rest.phase;
          path = follow-append advance p h.phase log (f a).log h.path ∙ rest.path;
          post = rest.post;
        }

    pub Follows-bind :
        {m : Run C A} {f : A → Run C B}
        → Follows advance p m Q
        → ((a : A) (q : P) → Q a q → Follows advance q (f a) R)
        → Follows advance p (m >>= f) R
    unfolding ◌>>=◌
    Follows-bind {m} {f} h g = Follows-chain m.log m.ends f h g

  module _ {ℓ ν κ'} {A : Type ℓ} {B : Type κ'} {R : B → P → Type ν} {p : P} where
    -- An answer, which may be an error, leaves the phase as it is.
    pub Follows-ask :
        (r : Result String A) {f : A → Run C B}
        → ((a : A) → r ≡ ok a → Follows advance p (f a) R)
        → Follows advance p (ask r >>= f) R
    unfolding follow ask ◌>>=◌ chain
    Follows-ask (ok a) g = g a refl
    Follows-ask (err e) g = record { phase = p; path = refl; post = tt }

  pub Follows-tell {ν κ'} :
      {B : Type κ'} {R : B → P → Type ν} {p : P} (c : C) (q : P) {f : Run C B}
      → advance p c ≡ some q
      → Follows advance q f R
      → Follows advance p (tell c >> f) R
  unfolding follow ◌>>◌ ◌>>=◌ chain tell
  Follows-tell c q {f} h k = record { phase = k.phase; path = rw (h, follow) k.path; post = k.post }

  pub Follows-weaken {ℓ μ ν} :
      {A : Type ℓ} {Q : A → P → Type μ} {R : A → P → Type ν} {p : P} {m : Run C A}
      → Follows advance p m Q
      → ((a : A) (q : P) → Q a q → R a q)
      → Follows advance p m R
  Follows-weaken {m} h f = record {
    phase = h.phase;
    path = h.path;
    post = Post-weaken m.ends h.phase f h.post;
  }

  -- Calls that leave the phase as it is.
  pub Follows-tell_all {ν κ'} :
      {B : Type κ'} {R : B → P → Type ν} {p : P} (cs : List C) {f : Run C B}
      → All (λ c. advance p c ≡ some p) cs
      → Follows advance p f R
      → Follows advance p (tell_all cs >> f) R
  unfolding follow ◌>>◌ ◌>>=◌ chain tell_all
  Follows-tell_all {p} cs {f} stays k = record {
    phase = k.phase;
    path = follow-append advance p p cs f.log (follow-stays advance p cs stays) ∙ k.path;
    post = k.post;
  }
