-- ===== src/Quoting/Expiry.antt =====
-- Dropping what has expired, against looking it up (swap-provider/src/lib.rs).
use pubky_swap.Prelude.{
  ℕ, ◌≤◌, ◌≡◌, refl, Bool, true, none, some, List, [], ◌∷◌, arith, nat_eq, eqb_iff, keep,
}
use pubky_swap.Map.{lookup}
use pubky_swap.Swap.{direction_eq}
use pubky_swap.Messages.{Uuid}
use pubky_swap.Quoting.{QuoteBook, is_live, prune}

-- An entry that a test keeps is found as before, and one that is absent stays absent.
module _ {ℓ} {V : Type ℓ} (p : V → Bool) where
  pub keep-absent :
      (id : Uuid) (m : List (Uuid × V))
      → lookup id m ≡ none
      → lookup id (keep (λ entry. p entry.1) m) ≡ none
  unfolding lookup
  keep-absent id [] h = refl
  keep-absent id ((j, v) ∷ m) h = ground (arith, keep-absent id m, eqb_iff j id)

  pub keep-found :
      (id : Uuid) (v : V) (m : List (Uuid × V))
      → lookup id m ≡ some v
      → p v ≡ true
      → lookup id (keep (λ entry. p entry.1) m) ≡ some v
  unfolding lookup
  keep-found id v [] h l = cc
  keep-found id v ((j, w) ∷ m) h l = ground (arith, keep-found id v m, eqb_iff j id)

  pub kept :
      (id : Uuid) (v : V) (m : List (Uuid × V))
      → lookup id (keep (λ entry. p entry.1) m) ≡ some v
      → p v ≡ true
  unfolding lookup
  kept id v [] h = cc
  kept id v ((j, w) ∷ m) h = ground (arith, kept id v m, eqb_iff j id)

-- Dropping what has expired twice drops what has expired the second time.
module _ {ℓ} {V : Type ℓ} (expiry : V → ℕ) where
  pub keep_live_twice :
      (now later : ℕ) (m : List (Uuid × V))
      → now ≤ later
      → keep
          (λ entry. is_live later (expiry entry.1))
          (keep (λ entry. is_live now (expiry entry.1)) m)
        ≡ keep (λ entry. is_live later (expiry entry.1)) m
  keep_live_twice now later [] h = refl
  keep_live_twice now later ((id, v) ∷ m) h = ground (arith, keep_live_twice now later m)

pub prune_twice :
    (book : QuoteBook) (now later : ℕ)
    → now ≤ later
    → prune (prune book now) later ≡ prune book later
unfolding prune
prune_twice book now later h = rw (
  keep_live_twice (λ q. q.expires_at_unix) now later book.quotes h,
  keep_live_twice (λ e. e) now later book.redeemed h,
)
