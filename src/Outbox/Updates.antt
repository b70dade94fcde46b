-- ===== src/Outbox/Updates.antt =====
-- What holds of the outbox's journal after `update` (pubky-transport/src/outbox.rs), by what holds of
-- the change that it is given.
use pubky_swap.Prelude.{
  ◌≡◌, refl, inl, inr, Bool, true, false, String, Option, Result, ok, err, Bool-cases, Result-cases,
}
use pubky_swap.Outbox.{TransportError, Journal, Outbox, update, validate_scope}
use pubky_swap.Outbox.Operations.{Persist, in_valid_scope}

module _ (P : Journal → Type 0) where
  -- The predicate holds of what a change gives, where it succeeds.
  abbrev pub Gives {ℓ} : {T : Type ℓ} → Result TransportError (T × Bool × Journal) → Type 0
  Gives (ok (value, changed, j')) = P j'
  Gives (err e) = Unit

  pub Gives-of {ℓ} :
      {T : Type ℓ} (r : Result TransportError (T × Bool × Journal))
      → ((value : T) (changed : Bool) (j' : Journal) → r ≡ ok (value, changed, j') → P j')
      → Gives r
  Gives-of (ok (value, changed, j')) h = h value changed j' refl
  Gives-of (err e) h = tt

  pub Gives-update {ℓ} :
      {T : Type ℓ} (persist : Persist) (o : Outbox)
      (change : Journal → Result TransportError (T × Bool × Journal))
      → P o.journal
      → Gives (change o.journal)
      → P (update persist o change).1.journal
  unfolding update
  Gives-update persist o change before given = elim (Bool-cases o.write_failed) [
    | inl failed ↦ rw failed before
    | inr sound ↦ rw sound (elim (Result-cases (change o.journal)) [
      | inr (e, bad) ↦ rw bad before
      | inl ((value, false, j'), good) ↦ rw good before
      | inl ((value, true, j'), good) ↦ rw good (elim (Result-cases (persist j')) [
        | inl (written, stored) ↦ rw stored (rw good at given)
        | inr (e, lost) ↦ rw lost before
      ])
    ])
  ]

  pub scoped_update {ℓ} :
      {T : Type ℓ} (key_of : String → Option String) (peer scope : String) (o : Outbox)
      (rest : Result TransportError T × Outbox)
      → P o.journal
      → P rest.1.journal
      → P (in_valid_scope key_of peer scope o rest).1.journal
  scoped_update key_of peer scope o rest before later =
      elim (Result-cases (validate_scope key_of peer scope)) [
        | inl (in_scope, good) ↦ rw (good, in_valid_scope) later
        | inr (e, bad) ↦ rw (bad, in_valid_scope) before
      ]
