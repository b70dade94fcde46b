-- ===== src/Outbox/Again.antt =====
-- Asking again for a reservation of the outbox (pubky-transport/src/outbox.rs).
use pubky_swap.Prelude.{
  ℕ, ◌≡◌, ◌⊎◌, refl, inl, inr, Bool, true, false, not, ◌&&◌, String, Option, none, some, List, [],
  ◌∷◌, ◌++◌, Result, ok, err, arith, is_some, Bool-cases, Result-cases, Option-cases, ◌==◌,
  string_eq, ◌∙◌, ap,
}
use pubky_swap.Outbox.{
  TransportError, PreparedMessage, Entry, Journal, Outbox, update, Reservation, reservation,
  reservation_eq, validate_scope,
}
use pubky_swap.Outbox.Changes.{new_entry, reserve_again, reserve_new, reserve}
use pubky_swap.Outbox.Operations.{Operation, Persist, in_valid_scope, prepare_with_expiry, run}
use pubky_swap.Outbox.Shape.{reserve_again-Keeps}
use pubky_swap.Outbox.Lasting.{
  reserved, IsReserved, IsDeleted, run_lasts, new_entries, reserved-AllAlike,
}

-- Where `update` succeeds: nothing was to be written, or what was is in the journal.
update-ok {ℓ} :
    {T : Type ℓ} (persist : Persist) (o : Outbox)
    (change : Journal → Result TransportError (T × Bool × Journal)) (v : T)
    → (update persist o change).0 ≡ ok v
    → (j' : Journal) × (((change o.journal ≡ ok (v, false, j'))
          × ((update persist o change).1.journal ≡ o.journal))
        ⊎ ((change o.journal ≡ ok (v, true, j')) × ((update persist o change).1.journal ≡ j')))
unfolding update
update-ok persist o change v h = elim (Bool-cases o.write_failed) [
  | inl failed ↦ cc (rw failed at h)
  | inr sound ↦ elim (Result-cases (change o.journal)) [
    | inr (e, bad) ↦ cc (rw (sound, bad) at h)
    | inl ((value, false, j'), good) ↦
        let same : value ≡ v = cc (rw (sound, good) at h) in
        (j', inl (rw (← same) good, rw (sound, good) refl))
    | inl ((value, true, j'), good) ↦ elim (Result-cases (persist j')) [
      | inr (e, lost) ↦ cc (rw (sound, good, lost) at h)
      | inl (written, stored) ↦
          let same : value ≡ v = cc (rw (sound, good, stored) at h) in
          (j', inr (rw (← same) good, rw (sound, good, stored) refl))
    ]
  ]
]

update_answers {ℓ} :
    {T : Type ℓ} (persist : Persist) (o : Outbox)
    (change : Journal → Result TransportError (T × Bool × Journal)) (v : T) (changed : Bool)
    (j' : Journal)
    → o.write_failed ≡ false
    → ((j : Journal) → persist j ≡ ok tt)
    → change o.journal ≡ ok (v, changed, j')
    → (update persist o change).0 ≡ ok v
unfolding update
update_answers persist o change v false j' sound disk given = rw (sound, given) refl
update_answers persist o change v true j' sound disk given = rw (sound, given, disk j') refl

module _ (r : Reservation) (after : Option ℕ) where
  again_found :
      (es es' : List Entry) (q : PreparedMessage) (changed : Bool)
      → reserve_again r after es ≡ some (q, changed, es')
      → (e : Entry) × (reserved r es ≡ some e) × (e.prepared ≡ q)
  unfolding reserve_again reserved
  again_found [] es' q changed h = cc
  again_found (x ∷ es) es' q changed h = elim (Bool-cases (reservation x == r)) [
    | inl here ↦ (x, rw here refl, ground (arith, here))
    | inr beyond ↦ elim (Option-cases (reserve_again r after es)) [
      | inl never ↦ absurd (ground (arith, beyond, never))
      | inr ((q', changed', later), is) ↦
          let same : q' ≡ q = ground (arith, beyond, is) in
          let (e, found, was) = again_found es later q' changed' is in
          (e, rw beyond found, was ∙ same)
    ]
  ]

  not_again : (es : List Entry) → reserve_again r after es ≡ none → reserved r es ≡ none
  unfolding reserve_again reserved
  not_again [] h = refl
  not_again (x ∷ es) h = elim (Bool-cases (reservation x == r)) [
    | inl here ↦ absurd (ground (arith, here))
    | inr beyond ↦ elim (Option-cases (reserve_again r after es)) [
      | inl never ↦ rw beyond (not_again es never)
      | inr ((q', changed', later), is) ↦ absurd (ground (arith, beyond, is))
    ]
  ]

  found_again :
      (es : List Entry) (e : Entry)
      → reserved r es ≡ some e
      → (changed : Bool) × (es' : List Entry) × (reserve_again r after es
          ≡ some (e.prepared, changed, es'))
  unfolding reserve_again reserved
  found_again [] e h = cc
  found_again (x ∷ es) e h = elim (Bool-cases (reservation x == r)) [
    | inl here ↦
        let same : x ≡ e = ground (arith, here) in
        elim (Bool-cases (not (is_some x.cleanup_after) && is_some after)) [
          | inl fresh ↦
              (true, record x { cleanup_after = after } ∷ es, rw (here, fresh, ← same) refl)
          | inr old ↦ (false, x ∷ es, rw (here, old, ← same) refl)
        ]
    | inr beyond ↦
        let (changed, es', is) = found_again es e (ground (arith, beyond)) in
        (changed, x ∷ es', rw (beyond, is) refl)
  ]

reserved-new :
    (r : Reservation) (after : Option ℕ) (q : PreparedMessage) (es : List Entry)
    → reserved r es ≡ none
    → reserved r (es ++ new_entry r q after ∷ []) ≡ some (new_entry r q after)
unfolding reserved new_entry
reserved-new r after q [] h = rw ((reservation_eq.beq_iff r r).1 refl) refl
reserved-new r after q (x ∷ es) h = elim (Bool-cases (reservation x == r)) [
  | inl here ↦ absurd (ground (arith, here))
  | inr beyond ↦ rw beyond (reserved-new r after q es (ground (arith, beyond)))
]

module _ (key_of : String → Option String) (authenticates : PreparedMessage → Bool)
    (encoded_len : Journal → ℕ) where
  reserve_entry :
      (r : Reservation) (after : Option ℕ) (made : Result String PreparedMessage) (j j' : Journal)
      (p : PreparedMessage) (changed : Bool)
      → reserve key_of authenticates encoded_len r after made j ≡ ok (p, changed, j')
      → IsReserved r p j'
  unfolding reserve new_entry
  reserve_entry r after made j j' p changed h =
      elim (Option-cases (reserve_again r after j.entries)) [
        | inl new ↦
            let fresh = rw (new, reserve) at h in
            let added =
              new_entries key_of authenticates encoded_len r p r after made j j' p changed fresh in
            (
              new_entry r p after,
              rw added (reserved-new r after p j.entries (not_again r after j.entries new)),
              refl,
            )
        | inr ((q, changed', es'), old) ↦
            let same : q ≡ p = cc (rw (old, reserve) at h) in
            let candidate : Journal = record j { entries = es' } in
            let whole : candidate ≡ j' = cc (rw (old, reserve) at h) in
            let entries : es' ≡ j'.entries = ap (λ (x : Journal). x.entries) whole in
            let (e, found, is) = again_found r after j.entries es' q changed' old in
            let kept = rw old at (reserve_again-Keeps r after j.entries) in
            let (e', found', is') = reserved-AllAlike r p j.entries es' e kept found (is ∙ same) in
            (e', rw (← entries) found', is')
      ]

  always_written :
      (r : Reservation) (after : Option ℕ) (made : Result String PreparedMessage) (j j' : Journal)
      (p : PreparedMessage) (changed : Bool)
      → reserve_new key_of authenticates encoded_len r after made j ≡ ok (p, changed, j')
      → changed ≡ true
  unfolding reserve_new
  always_written r after (err e) j j' p changed h = ground (arith, h)
  always_written r after (ok prepared) j j' p changed h = ground (arith, h)

  -- A reservation that was found leaves the journal as it is where nothing is to be written.
  unwritten_entry :
      (r : Reservation) (after : Option ℕ) (made : Result String PreparedMessage) (j j' : Journal)
      (p : PreparedMessage)
      → reserve key_of authenticates encoded_len r after made j ≡ ok (p, false, j')
      → IsReserved r p j
  unfolding reserve
  unwritten_entry r after made j j' p h = elim (Option-cases (reserve_again r after j.entries)) [
    | inl new ↦ absurd (cc (always_written r after made j j' p false (rw (new, reserve) at h)))
    | inr ((q, changed', es'), old) ↦
        let same : q ≡ p = cc (rw (old, reserve) at h) in
        let (e, found, is) = again_found r after j.entries es' q changed' old in
        (e, found, is ∙ same)
  ]

  prepared_entry :
      (persist : Persist) (o : Outbox) (r : Reservation) (after : Option ℕ)
      (made : Result String PreparedMessage) (p : PreparedMessage)
      → (prepare_with_expiry key_of authenticates encoded_len persist o r after made).0 ≡ ok p
      → (validate_scope key_of r.peer r.scope ≡ ok tt)
        × IsReserved r p
            (prepare_with_expiry key_of authenticates encoded_len persist o r after made).1.journal
  unfolding prepare_with_expiry
  prepared_entry persist o r after made p h =
      elim (Result-cases (validate_scope key_of r.peer r.scope)) [
        | inr (e, bad) ↦ cc (rw (bad, in_valid_scope) at h)
        | inl (in_scope, good) ↦
            let change = reserve key_of authenticates encoded_len r after made in
            let (j', how) = update-ok persist o change p (rw (good, in_valid_scope) at h) in
            (
              good,
              rw (good, in_valid_scope)
                  (elim how [
                    | inl (given, same) ↦
                        rw same (unwritten_entry r after made o.journal j' p given)
                    | inr (given, same) ↦
                        rw same (reserve_entry r after made o.journal j' p true given)
                  ]),
            )
      ]

  answered :
      (persist : Persist) (o : Outbox) (r : Reservation) (after : Option ℕ)
      (made : Result String PreparedMessage) (p : PreparedMessage)
      → validate_scope key_of r.peer r.scope ≡ ok tt
      → o.write_failed ≡ false
      → ((j : Journal) → persist j ≡ ok tt)
      → IsReserved r p o.journal
      → (prepare_with_expiry key_of authenticates encoded_len persist o r after made).0 ≡ ok p
  unfolding prepare_with_expiry reserve
  answered persist o r after made p good sound disk (e, found, is) =
      let (changed, es', again) = found_again r after o.journal.entries e found in
      let change = reserve key_of authenticates encoded_len r after made in
      let given : change o.journal ≡ ok (e.prepared, changed, record o.journal { entries = es' }) =
        rw (again, reserve) refl in
      rw (good, in_valid_scope)
        (update_answers persist o change e.prepared changed _ sound disk given ∙ ap ok is)

  -- Where a message has been reserved, asking for the same peer, scope and content again gives the
  -- same message, whatever a new preparation would give, and whatever operations the outbox has run
  -- since, as long as it is in working order; unless one of them has deleted that message, by its
  -- id and after its deadline.
  pub prepare_again :
      (persist persist' : Persist) (o : Outbox) (r : Reservation) (after after' : Option ℕ)
      (made made' : Result String PreparedMessage) (p : PreparedMessage)
      (operations : List (Operation × Persist))
      → (prepare_with_expiry key_of authenticates encoded_len persist o r after made).0 ≡ ok p
      → (run key_of authenticates encoded_len
          (prepare_with_expiry key_of authenticates encoded_len persist o r after made).1
          operations).write_failed
        ≡ false
      → ((j : Journal) → persist' j ≡ ok tt)
      → ((prepare_with_expiry key_of authenticates encoded_len persist'
            (run key_of authenticates encoded_len
              (prepare_with_expiry key_of authenticates encoded_len persist o r after made).1
              operations)
            r
            after'
            made').0
          ≡ ok p)
        ⊎ IsDeleted key_of authenticates encoded_len r p
            (prepare_with_expiry key_of authenticates encoded_len persist o r after made).1
            operations
  prepare_again persist persist' o r after after' made made' p operations h sound disk =
      let (good, held) = prepared_entry persist o r after made p h in
      let reserving = prepare_with_expiry key_of authenticates encoded_len persist o r after made in
      elim (run_lasts key_of authenticates encoded_len r p reserving.1 operations held) [
        | inr deleted ↦ inr deleted
        | inl there ↦ inl (
            answered persist' (run key_of authenticates encoded_len reserving.1 operations) r after'
              made' p good sound disk there)
      ]
