-- ===== src/Outbox/Valid.antt =====
-- The outbox holds a journal that passes its own tests (pubky-transport/src/outbox.rs).
use pubky_swap.Prelude.{
  ℕ, ◌≤◌, ◌≡◌, refl, inl, inr, Bool, true, false, not, ◌&&◌, ◌||◌, String, Option, some, List, [],
  ◌∷◌, ◌++◌, Result, ok, err, ◌>>=◌, reject_if, >>-eq-ok, arith, Bool-cases, Result-cases,
  Option-cases, string_eq, eqb, ltb, length, keep, contains, length-keep-le,
}
use pubky_swap.Outbox.{
  version, max_entries, TransportError, invalid, PreparedMessage, Entry, Journal, Outbox, any,
  cleanup_due, pause_fits, Reservation, reservation, reservation_eq, validate_scope, is_associated,
  check_owner_text, check_entry, check_entries, validate,
}
use pubky_swap.Outbox.Changes.{
  reserve_new, reserve, on_entry, change_entry, complete, reopen, forget, is_listed, new_entry,
  reserve_again,
}
use pubky_swap.Outbox.Operations.{
  Operation, prepare, mark_published, mark_failed, complete_scope, reopen_scope,
  mark_cleanup_failed, retry, remove_deleted, Persist, prepare_with_expiry, step, run,
}
use pubky_swap.Outbox.Updates.{Gives, Gives-of, Gives-update, scoped_update}
use pubky_swap.Outbox.Shape.{
  Alike, AllAlike, KeepsAll, Keeps, change_entry-Keeps, reserve_again-Keeps, AllAlike-map,
  publish-Keeps, fail-Keeps, fail_cleanup-Keeps, retry-Keeps, complete-Alike, reopen-Alike,
}

module _ (key_of : String → Option String) (authenticates : PreparedMessage → Bool) where
  -- What the tests of `validate` on an entry ask.
  record Passes (owner : Option String) (e : Entry) (ids : List String) (rs : List Reservation)
      : Type 0 where
    scoped : validate_scope key_of e.peer e.scope ≡ ok tt
    publication_fits : pause_fits e.publication_paused e.publication_failure ≡ true
    cleanup_fits : pause_fits e.cleanup_paused e.cleanup_failure ≡ true
    authentic : authenticates e.prepared ≡ true
    associated : is_associated owner e ≡ true
    new_id : contains ids (e.prepared).id ≡ false
    new_reservation : contains rs (reservation e) ≡ false

  check_entry-Passes :
      (owner : Option String) (e : Entry) (ids : List String) (rs : List Reservation)
      → check_entry key_of authenticates owner e ids rs ≡ ok tt
      → Passes owner e ids rs
  unfolding check_entry
  check_entry-Passes owner e ids rs h =
      let (scoped, rest) = >>-eq-ok (validate_scope key_of e.peer e.scope) _ h in
      record {
        scoped = scoped;
        publication_fits = ground (arith, rest);
        cleanup_fits = ground (arith, rest);
        authentic = ground (arith, rest);
        associated = ground (arith, rest);
        new_id = ground (arith, rest);
        new_reservation = ground (arith, rest);
      }

  Passes-check_entry :
      (owner : Option String) (e : Entry) (ids : List String) (rs : List Reservation)
      → Passes owner e ids rs
      → check_entry key_of authenticates owner e ids rs ≡ ok tt
  unfolding check_entry
  Passes-check_entry owner e ids rs p =
      rw
        (
          p.scoped, p.publication_fits, p.cleanup_fits, p.authentic, p.associated, p.new_id,
          p.new_reservation,
        )
        refl

  Alike-Passes :
      (owner : Option String) (e e' : Entry) (ids : List String) (rs : List Reservation)
      → Alike e e'
      → Passes owner e ids rs
      → Passes owner e' ids rs
  unfolding is_associated
  Alike-Passes owner e e' ids rs a p = record {
    scoped = rw (a.same_peer, a.same_scope) p.scoped;
    publication_fits = a.publication_fits p.publication_fits;
    cleanup_fits = a.cleanup_fits p.cleanup_fits;
    authentic = rw a.same_prepared p.authentic;
    associated = rw (a.same_prepared, a.same_peer) p.associated;
    new_id = rw a.same_prepared p.new_id;
    new_reservation = rw (a.same_peer, a.same_scope, a.same_digest) p.new_reservation;
  }

  AllAlike-check_entries :
      (owner : Option String) (es es' : List Entry) (ids : List String) (rs : List Reservation)
      → AllAlike es es'
      → check_entries key_of authenticates owner es ids rs ≡ ok tt
      → check_entries key_of authenticates owner es' ids rs ≡ ok tt
  unfolding check_entries
  AllAlike-check_entries owner [] [] ids rs a h = refl
  AllAlike-check_entries owner (e ∷ es) (e' ∷ es') ids rs (a, later) h =
      let (first, rest) = >>-eq-ok (check_entry key_of authenticates owner e ids rs) _ h in
      let passes = Alike-Passes owner e e' ids rs a (check_entry-Passes owner e ids rs first) in
      rw (Passes-check_entry owner e' ids rs passes) (
        rw (a.same_prepared, a.same_peer, a.same_scope, a.same_digest)
          (AllAlike-check_entries owner es es' _ _ later rest))
  AllAlike-check_entries owner [] (e' ∷ es') ids rs a h = absurd a
  AllAlike-check_entries owner (e ∷ es) [] ids rs a h = absurd a

  -- Fewer entries meet fewer ids and reservations.
  abbrev Within : List String → List String → Type 0
  Within ids' ids = (id : String) → contains ids id ≡ false → contains ids' id ≡ false

  abbrev WithinR : List Reservation → List Reservation → Type 0
  WithinR rs' rs = (r : Reservation) → contains rs r ≡ false → contains rs' r ≡ false

  keep-check_entries :
      (owner : Option String) (p : Entry → Bool) (es : List Entry) (ids ids' : List String)
      (rs rs' : List Reservation)
      → Within ids' ids
      → WithinR rs' rs
      → check_entries key_of authenticates owner es ids rs ≡ ok tt
      → check_entries key_of authenticates owner (keep p es) ids' rs' ≡ ok tt
  unfolding check_entries
  keep-check_entries owner p [] ids ids' rs rs' w v h = refl
  keep-check_entries owner p (e ∷ es) ids ids' rs rs' w v h =
      let (first, rest) = >>-eq-ok (check_entry key_of authenticates owner e ids rs) _ h in
      let q = check_entry-Passes owner e ids rs first in
      elim (Bool-cases (p e)) [
        | inr gone ↦ rw gone (
            keep-check_entries owner p es _ ids' _ rs' (λ id new. w id (ground (arith, new)))
              (λ r new. v r (ground (arith, new))) rest)
        | inl here ↦
            let passes : Passes owner e ids' rs' = record {
              scoped = q.scoped;
              publication_fits = q.publication_fits;
              cleanup_fits = q.cleanup_fits;
              authentic = q.authentic;
              associated = q.associated;
              new_id = w (e.prepared).id q.new_id;
              new_reservation = v (reservation e) q.new_reservation;
            } in
            rw (here, check_entries)
              (rw (Passes-check_entry owner e ids' rs' passes) (
                keep-check_entries owner p es _ _ _ _ (λ id new. ground (arith, new, w id))
                  (λ r new. ground (arith, new, v r)) rest))
      ]

  -- The version and the number of entries, the owner, and the entries.
  abbrev Parts : Journal → Type 0
  Parts j =
      (j.version ≡ version)
      × (length j.entries ≤ max_entries)
      × (check_owner_text key_of j.owner ≡ ok tt)
      × (check_entries key_of authenticates j.owner j.entries [] [] ≡ ok tt)

  validate-Parts : (j : Journal) → validate key_of authenticates j ≡ ok tt → Parts j
  unfolding validate
  validate-Parts j h =
      let (fits, rest) =
        >>-eq-ok
          (reject_if (not (eqb j.version version) || ltb max_entries (length j.entries))
            (invalid "unsupported or oversized outbox journal"))
          _ h in
      let (owned, checked) = >>-eq-ok (check_owner_text key_of j.owner) _ rest in
      (ground (arith, fits), ground (arith, fits), owned, checked)

  Parts-validate : (j : Journal) → Parts j → validate key_of authenticates j ≡ ok tt
  unfolding validate
  Parts-validate j (v, n, o, c) =
      let room : ltb max_entries (length j.entries) ≡ false = ground (arith, n) in
      let current : eqb j.version version ≡ true = ground (arith, v) in
      rw (current, room, o, c) refl

  abbrev IsValid : Journal → Type 0
  IsValid j = validate key_of authenticates j ≡ ok tt

  length-AllAlike : (es es' : List Entry) → AllAlike es es' → length es' ≡ length es
  length-AllAlike [] [] a = refl
  length-AllAlike (e ∷ es) (e' ∷ es') (a, later) = omega (arith, length-AllAlike es es' later)
  length-AllAlike [] (e' ∷ es') a = absurd a
  length-AllAlike (e ∷ es) [] a = absurd a

  AllAlike-IsValid :
      (j : Journal) (es' : List Entry)
      → IsValid j
      → AllAlike j.entries es'
      → IsValid (record j { entries = es' })
  AllAlike-IsValid j es' valid a =
      let (v, n, o, c) = validate-Parts j valid in
      let same = length-AllAlike j.entries es' a in
      Parts-validate (record j { entries = es' })
        (v, omega (arith, n, same), o, AllAlike-check_entries j.owner j.entries es' [] [] a c)

  Gives-entries :
      (j : Journal) (r : Result TransportError (Bool × List Entry))
      → IsValid j
      → KeepsAll j.entries r
      → Gives IsValid {T = Unit {0}} (r >>= λ done. ok (tt, done.0, record j { entries = done.1 }))
  Gives-entries j (ok (changed, es')) valid a = AllAlike-IsValid j es' valid a
  Gives-entries j (err e) valid a = tt

  Gives-on_entry :
      (j : Journal) (id : String) (f : Entry → Result TransportError (Bool × Entry))
      → IsValid j
      → ((e : Entry) → Keeps e (f e))
      → Gives IsValid (on_entry id f j)
  unfolding on_entry
  Gives-on_entry j id f valid keeps =
      Gives-entries j (change_entry id f j.entries) valid (change_entry-Keeps id f j.entries keeps)

  Gives-forget :
      (j : Journal) (ids : List String) (now : ℕ) → IsValid j → Gives IsValid (forget ids now j)
  unfolding forget
  Gives-forget j ids now valid =
      let (v, n, o, c) = validate-Parts j valid in
      let fewer = length-keep-le (λ e. not (is_listed ids e)) j.entries in
      let sound =
        Parts-validate (record j { entries = keep (λ e. not (is_listed ids e)) j.entries })
          (
            v,
            omega (arith, n, fewer),
            o,
            keep-check_entries j.owner (λ e. not (is_listed ids e)) j.entries [] [] [] []
                (λ id h. h) (λ r h. h) c,
          ) in
      elim (Bool-cases (any (λ e. is_listed ids e && not (cleanup_due e now)) j.entries)) [
        | inl early ↦ rw early tt
        | inr due ↦ rw due sound
      ]

  reserved_candidate :
      (encoded_len : Journal → ℕ) (r : Reservation) (after : Option ℕ)
      (made : Result String PreparedMessage) (j j' : Journal) (p : PreparedMessage) (changed : Bool)
      → reserve_new key_of authenticates encoded_len r after made j ≡ ok (p, changed, j')
      → IsValid j'
  unfolding reserve_new
  reserved_candidate encoded_len r after (err e) j j' p changed h = absurd (ground (arith, h))
  reserved_candidate encoded_len r after (ok prepared) j j' p changed h =
      let candidate : Journal = record j {
        owner = some prepared.owner;
        entries = j.entries ++ new_entry r prepared after ∷ [];
      } in
      elim (Result-cases (validate key_of authenticates candidate)) [
        | inl (valid, good) ↦ ground (arith, good)
        | inr (e, bad) ↦ absurd (ground (arith, bad))
      ]

  Gives-reserve :
      (encoded_len : Journal → ℕ) (r : Reservation) (after : Option ℕ)
      (made : Result String PreparedMessage) (j : Journal)
      → IsValid j
      → Gives IsValid (reserve key_of authenticates encoded_len r after made j)
  unfolding reserve
  Gives-reserve encoded_len r after made j valid =
      let kept = reserve_again-Keeps r after j.entries in
      elim (Option-cases (reserve_again r after j.entries)) [
        | inl new ↦
            rw (new, Gives)
              (Gives-of IsValid _
                λ p changed j' h. reserved_candidate encoded_len r after made j j' p changed h)
        | inr ((prepared, changed, es'), old) ↦
            rw (old, Gives) (AllAlike-IsValid j es' valid (rw old at kept))
      ]

  module _ (encoded_len : Journal → ℕ) where
    step-IsValid :
        (persist : Persist) (o : Outbox) (operation : Operation)
        → IsValid o.journal
        → IsValid (step key_of authenticates encoded_len persist o operation).journal
    unfolding step prepare_with_expiry complete reopen
    step-IsValid persist o (mark_published id) valid =
        Gives-update IsValid persist o _ valid (Gives-on_entry o.journal id _ valid publish-Keeps)
    step-IsValid persist o (mark_failed id now failure) valid =
        Gives-update IsValid persist o _ valid
          (Gives-on_entry o.journal id _ valid (fail-Keeps now failure))
    step-IsValid persist o (mark_cleanup_failed id now failure) valid =
        Gives-update IsValid persist o _ valid
          (Gives-on_entry o.journal id _ valid (fail_cleanup-Keeps now failure))
    step-IsValid persist o (retry id operation now) valid =
        Gives-update IsValid persist o _ valid
          (Gives-on_entry o.journal id _ valid (retry-Keeps operation now))
    step-IsValid persist o (remove_deleted ids now) valid =
        Gives-update IsValid persist o (forget ids now) valid (Gives-forget o.journal ids now valid)
    step-IsValid persist o (prepare r after made) valid =
        scoped_update IsValid key_of r.peer r.scope o _ valid (
          Gives-update IsValid persist o _ valid
            (Gives-reserve encoded_len r after made o.journal valid))
    step-IsValid persist o (complete_scope peer scope after) valid =
        let kept = AllAlike-map _ o.journal.entries (complete-Alike peer scope after) in
        scoped_update IsValid key_of peer scope o _ valid (
          Gives-update IsValid persist o (complete peer scope after) valid
            (AllAlike-IsValid o.journal _ valid kept))
    step-IsValid persist o (reopen_scope peer scope) valid =
        let kept = AllAlike-map _ o.journal.entries (reopen-Alike peer scope) in
        scoped_update IsValid key_of peer scope o _ valid (
          Gives-update IsValid persist o (reopen peer scope) valid
            (AllAlike-IsValid o.journal _ valid kept))

    -- Whatever operations run on an outbox, and whatever the disk answers to them, the journal that
    -- it holds in memory passes the tests of `validate`, where it passed them at first.
    pub run-IsValid :
        (o : Outbox) (operations : List (Operation × Persist))
        → validate key_of authenticates o.journal ≡ ok tt
        → validate key_of authenticates (run key_of authenticates encoded_len o operations).journal
          ≡ ok tt
    unfolding run
    run-IsValid o [] valid = valid
    run-IsValid o ((operation, persist) ∷ rest) valid =
        run-IsValid (step key_of authenticates encoded_len persist o operation) rest
          (step-IsValid persist o operation valid)
