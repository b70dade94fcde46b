-- ===== src/Outbox/Shape.antt =====
-- Changes of the outbox's entries that keep what an entry is (pubky-transport/src/outbox.rs): its
-- association, and a pause only on a failure that a retry does not mend.
use pubky_swap.Prelude.{
  ℕ, ◌≡◌, refl, inl, inr, Bool, true, not, ◌&&◌, String, Option, none, some, List, [], ◌∷◌, map,
  Result, ok, err, ◌>>=◌, is_some, Bool-cases, ◌==◌, string_eq, leb,
}
use pubky_swap.Outbox.{
  DeliveryFailure, is_retryable, DeliveryOperation, publication, cleanup, TransportError,
  PreparedMessage, Entry, cleanup_due, pause_fits, Reservation, reservation, reservation_eq,
}
use pubky_swap.Outbox.Changes.{
  change_entry, reserve_again, in_scope, publish_entry, fail_entry, fail_cleanup, retry_entry,
  complete_entry, reopen_entry,
}

-- The same resource; a pause that fitted its failure still does.
pub record Alike (e e' : Entry) : Type 0 where
  pub same_peer : e'.peer ≡ e.peer
  pub same_scope : e'.scope ≡ e.scope
  pub same_digest : e'.content_digest ≡ e.content_digest
  pub same_prepared : e'.prepared ≡ e.prepared
  pub publication_fits :
      pause_fits e.publication_paused e.publication_failure ≡ true
      → pause_fits e'.publication_paused e'.publication_failure ≡ true
  pub cleanup_fits :
      pause_fits e.cleanup_paused e.cleanup_failure ≡ true
      → pause_fits e'.cleanup_paused e'.cleanup_failure ≡ true

-- Entry by entry.
abbrev pub AllAlike : List Entry → List Entry → Type 0
AllAlike [] [] = Unit
AllAlike (e ∷ es) (e' ∷ es') = Alike e e' × AllAlike es es'
AllAlike _ _ = ⊥

pub Alike-refl : (e : Entry) → Alike e e
Alike-refl e = record {
  same_peer = refl;
  same_scope = refl;
  same_digest = refl;
  same_prepared = refl;
  publication_fits = λ h. h;
  cleanup_fits = λ h. h;
}

pub AllAlike-refl : (es : List Entry) → AllAlike es es
AllAlike-refl [] = tt
AllAlike-refl (e ∷ es) = (Alike-refl e, AllAlike-refl es)

failure_fits :
    (failure : DeliveryFailure) → pause_fits (not (is_retryable failure)) (some failure) ≡ true
unfolding pause_fits
failure_fits failure = elim (Bool-cases (is_retryable failure)) [
  | inl may ↦ rw may refl
  | inr may_not ↦ rw (may_not, may_not) refl
]

-- Only how the resource is scheduled changes, and the pauses fit.
scheduled :
    {e e' : Entry}
    → e'.peer ≡ e.peer
    → e'.scope ≡ e.scope
    → e'.content_digest ≡ e.content_digest
    → e'.prepared ≡ e.prepared
    → (pause_fits e.publication_paused e.publication_failure ≡ true
        → pause_fits e'.publication_paused e'.publication_failure ≡ true)
    → (pause_fits e.cleanup_paused e.cleanup_failure ≡ true
        → pause_fits e'.cleanup_paused e'.cleanup_failure ≡ true)
    → Alike e e'
scheduled p s d m f c = record {
  same_peer = p;
  same_scope = s;
  same_digest = d;
  same_prepared = m;
  publication_fits = f;
  cleanup_fits = c;
}

-- A change of an entry, where it succeeds.
abbrev pub Keeps : Entry → Result TransportError (Bool × Entry) → Type 0
Keeps e (ok (changed, e')) = Alike e e'
Keeps e (err x) = Unit

abbrev pub KeepsAll : List Entry → Result TransportError (Bool × List Entry) → Type 0
KeepsAll es (ok (changed, es')) = AllAlike es es'
KeepsAll es (err x) = Unit

pub publish-Keeps : (e : Entry) → Keeps e (publish_entry e)
unfolding pause_fits
publish-Keeps e = scheduled refl refl refl refl (λ h. refl) (λ h. h)

pub fail-Keeps :
    (now : ℕ) (failure : DeliveryFailure) (e : Entry) → Keeps e (fail_entry now failure e)
fail-Keeps now failure e = elim (Bool-cases (cleanup_due e now)) [
  | inl due ↦ rw due (Alike-refl e)
  | inr open_still ↦ rw open_still (elim (Bool-cases (not e.published && leb e.next_retry_at now)) [
    | inl again ↦ rw again (scheduled refl refl refl refl (λ h. failure_fits failure) (λ h. h))
    | inr later ↦ rw later (scheduled refl refl refl refl (λ h. failure_fits failure) (λ h. h))
  ])
]

pub fail_cleanup-Keeps :
    (now : ℕ) (failure : DeliveryFailure) (e : Entry) → Keeps e (fail_cleanup now failure e)
fail_cleanup-Keeps now failure e = elim (Bool-cases (cleanup_due e now)) [
  | inr open_still ↦ rw open_still (Alike-refl e)
  | inl due ↦ rw due (elim (Bool-cases (leb e.next_cleanup_at now)) [
    | inl again ↦ rw again (scheduled refl refl refl refl (λ h. h) (λ h. failure_fits failure))
    | inr later ↦ rw later (scheduled refl refl refl refl (λ h. h) (λ h. failure_fits failure))
  ])
]

pub retry-Keeps :
    (operation : DeliveryOperation) (now : ℕ) (e : Entry) → Keeps e (retry_entry operation now e)
unfolding pause_fits
retry-Keeps publication now e = elim (Bool-cases (cleanup_due e now)) [
  | inl due ↦ rw due tt
  | inr open_still ↦ rw open_still (scheduled refl refl refl refl (λ h. refl) (λ h. h))
]
retry-Keeps cleanup now e = elim (Bool-cases (is_some e.cleanup_after)) [
  | inr never ↦ rw never tt
  | inl completed ↦ rw completed (scheduled refl refl refl refl (λ h. h) (λ h. refl))
]

pub complete-Alike :
    (peer scope : String) (after : ℕ) (e : Entry) → Alike e (complete_entry peer scope after e)
complete-Alike peer scope after e =
    elim (Bool-cases (in_scope peer scope e && not (is_some e.cleanup_after))) [
      | inl fresh ↦ rw fresh (scheduled refl refl refl refl (λ h. h) (λ h. h))
      | inr other ↦ rw other (Alike-refl e)
    ]

pub reopen-Alike : (peer scope : String) (e : Entry) → Alike e (reopen_entry peer scope e)
reopen-Alike peer scope e = elim (Bool-cases (in_scope peer scope e && is_some e.cleanup_after)) [
  | inl completed ↦ rw completed (scheduled refl refl refl refl (λ h. h) (λ h. h))
  | inr other ↦ rw other (Alike-refl e)
]

pub AllAlike-map :
    (f : Entry → Entry) (es : List Entry) → ((e : Entry) → Alike e (f e)) → AllAlike es (map f es)
AllAlike-map f [] h = tt
AllAlike-map f (e ∷ es) h = (h e, AllAlike-map f es h)

push-KeepsAll :
    (e : Entry) (es : List Entry) (r : Result TransportError (Bool × List Entry))
    → KeepsAll es r
    → KeepsAll (e ∷ es) (r >>= λ done. ok (done.0, e ∷ done.1))
push-KeepsAll e es (ok (changed, es')) h = (Alike-refl e, h)
push-KeepsAll e es (err x) h = tt

replace-KeepsAll :
    (e : Entry) (es : List Entry) (r : Result TransportError (Bool × Entry))
    → Keeps e r
    → KeepsAll (e ∷ es) (r >>= λ done. ok (done.0, done.1 ∷ es))
replace-KeepsAll e es (ok (changed, e')) h = (h, AllAlike-refl es)
replace-KeepsAll e es (err x) h = tt

pub change_entry-Keeps :
    (id : String) (f : Entry → Result TransportError (Bool × Entry)) (es : List Entry)
    → ((e : Entry) → Keeps e (f e))
    → KeepsAll es (change_entry id f es)
unfolding change_entry
change_entry-Keeps id f [] h = tt
change_entry-Keeps id f (e ∷ es) h = elim (Bool-cases ((e.prepared).id == id)) [
  | inl here ↦ rw here (replace-KeepsAll e es (f e) (h e))
  | inr later ↦ rw later (push-KeepsAll e es (change_entry id f es) (change_entry-Keeps id f es h))
]

abbrev pub KeepsSome : List Entry → Option (PreparedMessage × Bool × List Entry) → Type 0
KeepsSome es none = Unit
KeepsSome es (some (p, changed, es')) = AllAlike es es'

push-KeepsSome :
    (e : Entry) (es : List Entry) (r : Option (PreparedMessage × Bool × List Entry))
    → KeepsSome es r
    → KeepsSome
        (e ∷ es)
        (elim r [ none ↦ none | some (p, changed, es') ↦ some (p, changed, e ∷ es') ])
push-KeepsSome e es none h = tt
push-KeepsSome e es (some (p, changed, es')) h = (Alike-refl e, h)

pub reserve_again-Keeps :
    (r : Reservation) (after : Option ℕ) (es : List Entry) → KeepsSome es (reserve_again r after es)
unfolding reserve_again
reserve_again-Keeps r after [] = tt
reserve_again-Keeps r after (e ∷ es) = elim (Bool-cases (reservation e == r)) [
  | inr later ↦
      rw later (push-KeepsSome e es (reserve_again r after es) (reserve_again-Keeps r after es))
  | inl here ↦ rw here (elim (Bool-cases (not (is_some e.cleanup_after) && is_some after)) [
    | inl fresh ↦ rw fresh (scheduled refl refl refl refl (λ h. h) (λ h. h), AllAlike-refl es)
    | inr old ↦ rw old (Alike-refl e, AllAlike-refl es)
  ])
]
