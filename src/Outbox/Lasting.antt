-- ===== src/Outbox/Lasting.antt =====
-- A reservation lasts until its deadline has come and it is deleted, and gives the same message each
-- time that it is asked for (pubky-transport/src/outbox.rs).
use pubky_swap.Prelude.{
  ℕ, ◌≡◌, ◌⊎◌, refl, inl, inr, Bool, true, false, not, ◌&&◌, String, Option, none, some, List, [],
  ◌∷◌, ◌++◌, Result, ok, err, ◌>>=◌, arith, if◌then◌else◌, Bool-cases, Result-cases, Option-cases,
  ◌==◌, string_eq, keep, ◌∙◌, ap,
}
use pubky_swap.Outbox.{
  TransportError, PreparedMessage, Entry, Journal, Outbox, update, cleanup_due, any, Reservation,
  reservation, reservation_eq, validate,
}
use pubky_swap.Outbox.Changes.{
  new_entry, reserve_again, reserve_new, reserve, on_entry, change_entry, complete, reopen, forget,
  is_listed,
}
use pubky_swap.Outbox.Operations.{
  Operation, prepare, mark_published, mark_failed, complete_scope, reopen_scope,
  mark_cleanup_failed, retry, remove_deleted, Persist, prepare_with_expiry, step, run,
}
use pubky_swap.Outbox.Updates.{Gives, Gives-of, Gives-update, scoped_update}
use pubky_swap.Outbox.Shape.{
  Alike, AllAlike, KeepsAll, Keeps, change_entry-Keeps, reserve_again-Keeps, AllAlike-map,
  publish-Keeps, fail-Keeps, fail_cleanup-Keeps, retry-Keeps, complete-Alike, reopen-Alike,
}

-- The entry of a reservation.
unfoldable pub reserved : Reservation → List Entry → Option Entry
reserved r [] = none
reserved r (e ∷ es) = if reservation e == r then some e else reserved r es

-- The reservation is there, with this message.
abbrev pub IsReserved : Reservation → PreparedMessage → Journal → Type 0
IsReserved r p j = (e : Entry) × (reserved r j.entries ≡ some e) × (e.prepared ≡ p)

-- A deletion that lists the message, when the deadline of its entry has come.
abbrev pub Deletes : Reservation → PreparedMessage → Outbox → Operation → Type 0
Deletes r p o (remove_deleted ids now) =
    (e : Entry) × (reserved r o.journal.entries ≡ some e)
    × (e.prepared ≡ p)
    × (is_listed ids e ≡ true)
    × (cleanup_due e now ≡ true)
Deletes r p o _ = ⊥

reservation-Alike : (e e' : Entry) → Alike e e' → reservation e' ≡ reservation e
reservation-Alike e e' a = rw (a.same_peer, a.same_scope, a.same_digest) refl

pub reserved-AllAlike :
    (r : Reservation) (p : PreparedMessage) (es es' : List Entry) (e : Entry)
    → AllAlike es es'
    → reserved r es ≡ some e
    → e.prepared ≡ p
    → (e' : Entry) × (reserved r es' ≡ some e') × (e'.prepared ≡ p)
unfolding reserved
reserved-AllAlike r p [] [] e a h is = cc
reserved-AllAlike r p [] (x' ∷ es') e a h is = absurd a
reserved-AllAlike r p (x ∷ es) [] e a h is = absurd a
reserved-AllAlike r p (x ∷ es) (x' ∷ es') e (a, later) h is =
    elim (Bool-cases (reservation x == r)) [
      | inl here ↦
          let same : x ≡ e = ground (arith, here) in
          let there : (reservation x' == r) ≡ true =
            ap (λ (q : Reservation). q == r) (reservation-Alike x x' a) ∙ here in
          (x', rw there refl, a.same_prepared ∙ ap (λ (y : Entry). y.prepared) same ∙ is)
      | inr beyond ↦
          let there : (reservation x' == r) ≡ false =
            ap (λ (q : Reservation). q == r) (reservation-Alike x x' a) ∙ beyond in
          let (e', found, was) = reserved-AllAlike r p es es' e later (ground (arith, beyond)) is in
          (e', rw there found, was)
    ]

reserved-append :
    (r : Reservation) (es more : List Entry) (e : Entry)
    → reserved r es ≡ some e
    → reserved r (es ++ more) ≡ some e
unfolding reserved
reserved-append r [] more e h = cc
reserved-append r (x ∷ es) more e h = ground (arith, reserved-append r es more e)

reserved-keep :
    (r : Reservation) (ids : List String) (now : ℕ) (es : List Entry) (e : Entry)
    → reserved r es ≡ some e
    → any (λ x. is_listed ids x && not (cleanup_due x now)) es ≡ false
    → (reserved r (keep (λ x. not (is_listed ids x)) es) ≡ some e)
      ⊎ ((is_listed ids e ≡ true) × (cleanup_due e now ≡ true))
unfolding reserved any
reserved-keep r ids now [] e h due = cc
reserved-keep r ids now (x ∷ es) e h due = elim (Bool-cases (reservation x == r)) [
  | inl here ↦
      let same : x ≡ e = ground (arith, here) in
      elim (Bool-cases (is_listed ids x)) [
        | inl listed ↦ inr (rw (← same) (listed, ground (arith, due, listed)))
        | inr spared ↦ inl (rw (spared, reserved, here) (ap some same))
      ]
  | inr beyond ↦
      elim (reserved-keep r ids now es e (ground (arith, h, beyond)) (ground (arith, due))) [
        | inr gone ↦ inr gone
        | inl kept ↦ elim (Bool-cases (is_listed ids x)) [
          | inl listed ↦ inl (rw listed kept)
          | inr spared ↦ inl (rw (spared, reserved, beyond) kept)
        ]
      ]
]

module _ (key_of : String → Option String) (authenticates : PreparedMessage → Bool)
    (encoded_len : Journal → ℕ) (r : Reservation) (p : PreparedMessage) where
  AllAlike-IsReserved :
      (j : Journal) (es' : List Entry)
      → IsReserved r p j
      → AllAlike j.entries es'
      → IsReserved r p (record j { entries = es' })
  AllAlike-IsReserved j es' (e, found, is) a = reserved-AllAlike r p j.entries es' e a found is

  -- There still, or deleted in its time.
  abbrev Lasts : Outbox → Operation → Journal → Type 0
  Lasts o operation j = IsReserved r p j ⊎ Deletes r p o operation

  Gives-entries :
      (o : Outbox) (operation : Operation) (x : Result TransportError (Bool × List Entry))
      → IsReserved r p o.journal
      → KeepsAll o.journal.entries x
      → Gives
          (Lasts o operation)
          {T = Unit {0}}
          (x >>= λ done. ok (tt, done.0, record o.journal { entries = done.1 }))
  Gives-entries o operation (ok (changed, es')) h a = inl (AllAlike-IsReserved o.journal es' h a)
  Gives-entries o operation (err e) h a = tt

  -- The operations on one entry.
  one-Lasts :
      (persist : Persist) (o : Outbox) (operation : Operation) (id : String)
      (f : Entry → Result TransportError (Bool × Entry))
      → IsReserved r p o.journal
      → ((e : Entry) → Keeps e (f e))
      → Lasts o operation (update persist o (on_entry id f)).1.journal
  unfolding on_entry
  one-Lasts persist o operation id f h keeps =
      Gives-update (Lasts o operation) persist o _ (inl h) (
        Gives-entries o operation (change_entry id f o.journal.entries) h
          (change_entry-Keeps id f o.journal.entries keeps))

  forget-Lasts :
      (o : Outbox) (ids : List String) (now : ℕ)
      → IsReserved r p o.journal
      → Gives (Lasts o (remove_deleted ids now)) (forget ids now o.journal)
  unfolding forget
  forget-Lasts o ids now (e, found, is) =
      elim (Bool-cases (any (λ x. is_listed ids x && not (cleanup_due x now)) o.journal.entries)) [
        | inl early ↦ rw early tt
        | inr due ↦ rw due (elim (reserved-keep r ids now o.journal.entries e found due) [
          | inl kept ↦ inl (e, kept, is)
          | inr (listed, late) ↦ inr (e, found, is, listed, late)
        ])
      ]

  pub new_entries :
      (s : Reservation) (after : Option ℕ) (made : Result String PreparedMessage) (j j' : Journal)
      (q : PreparedMessage) (changed : Bool)
      → reserve_new key_of authenticates encoded_len s after made j ≡ ok (q, changed, j')
      → j'.entries ≡ j.entries ++ new_entry s q after ∷ []
  unfolding reserve_new
  new_entries s after (err e) j j' q changed h = absurd (ground (arith, h))
  new_entries s after (ok prepared) j j' q changed h =
      let candidate : Journal = record j {
        owner = some prepared.owner;
        entries = j.entries ++ new_entry s prepared after ∷ [];
      } in
      elim (Result-cases (validate key_of authenticates candidate)) [
        | inl (valid, good) ↦ ground (arith, good)
        | inr (e, bad) ↦ absurd (ground (arith, bad))
      ]

  reserve-Lasts :
      (o : Outbox) (operation : Operation) (s : Reservation) (after : Option ℕ)
      (made : Result String PreparedMessage)
      → IsReserved r p o.journal
      → Gives (Lasts o operation) (reserve key_of authenticates encoded_len s after made o.journal)
  unfolding reserve
  reserve-Lasts o operation s after made (e, found, is) =
      let kept = reserve_again-Keeps s after o.journal.entries in
      elim (Option-cases (reserve_again s after o.journal.entries)) [
        | inl new ↦
            rw (new, Gives)
              (Gives-of (Lasts o operation) _ λ q changed j' h.
                let added = new_entries s after made o.journal j' q changed h in
                inl (e, rw added (reserved-append r o.journal.entries _ e found), is))
        | inr ((q, changed, es'), old) ↦
            rw (old, Gives)
              (inl (AllAlike-IsReserved o.journal es' (e, found, is) (rw old at kept)))
      ]

  step-Lasts :
      (persist : Persist) (o : Outbox) (operation : Operation)
      → IsReserved r p o.journal
      → Lasts o operation (step key_of authenticates encoded_len persist o operation).journal
  unfolding step prepare_with_expiry complete reopen
  step-Lasts persist o (mark_published id) h =
      one-Lasts persist o (mark_published id) id _ h publish-Keeps
  step-Lasts persist o (mark_failed id now failure) h =
      one-Lasts persist o (mark_failed id now failure) id _ h (fail-Keeps now failure)
  step-Lasts persist o (mark_cleanup_failed id now failure) h =
      one-Lasts persist o (mark_cleanup_failed id now failure) id _ h
        (fail_cleanup-Keeps now failure)
  step-Lasts persist o (retry id operation now) h =
      one-Lasts persist o (retry id operation now) id _ h (retry-Keeps operation now)
  step-Lasts persist o (remove_deleted ids now) h =
      Gives-update (Lasts o (remove_deleted ids now)) persist o (forget ids now) (inl h)
        (forget-Lasts o ids now h)
  step-Lasts persist o (prepare s after made) h =
      let P = Lasts o (prepare s after made) in
      scoped_update P key_of s.peer s.scope o _ (inl h)
        (Gives-update P persist o _ (inl h) (reserve-Lasts o (prepare s after made) s after made h))
  step-Lasts persist o (complete_scope peer scope after) h =
      let P = Lasts o (complete_scope peer scope after) in
      let kept = AllAlike-map _ o.journal.entries (complete-Alike peer scope after) in
      scoped_update P key_of peer scope o _ (inl h) (
        Gives-update P persist o (complete peer scope after) (inl h)
          (inl (AllAlike-IsReserved o.journal _ h kept)))
  step-Lasts persist o (reopen_scope peer scope) h =
      let P = Lasts o (reopen_scope peer scope) in
      let kept = AllAlike-map _ o.journal.entries (reopen-Alike peer scope) in
      scoped_update P key_of peer scope o _ (inl h) (
        Gives-update P persist o (reopen peer scope) (inl h)
          (inl (AllAlike-IsReserved o.journal _ h kept)))

  -- Some operation of a history deletes the reservation's message in its time.
  abbrev pub IsDeleted : Outbox → List (Operation × Persist) → Type 0
  IsDeleted o [] = ⊥
  IsDeleted o ((operation, persist) ∷ rest) =
      Deletes r p o operation
      ⊎ IsDeleted (step key_of authenticates encoded_len persist o operation) rest

  pub run_lasts :
      (o : Outbox) (operations : List (Operation × Persist))
      → IsReserved r p o.journal
      → IsReserved r p (run key_of authenticates encoded_len o operations).journal
        ⊎ IsDeleted o operations
  unfolding run
  run_lasts o [] h = inl h
  run_lasts o ((operation, persist) ∷ rest) h = elim (step-Lasts persist o operation h) [
    | inr deleted ↦ inr (inl deleted)
    | inl kept ↦
        elim (run_lasts (step key_of authenticates encoded_len persist o operation) rest kept) [
          | inl there ↦ inl there
          | inr later ↦ inr (inr later)
        ]
  ]
