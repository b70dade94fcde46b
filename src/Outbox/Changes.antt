-- ===== src/Outbox/Changes.antt =====
-- What the operations of the outbox make of a journal, before it is written
-- (pubky-transport/src/outbox.rs).
use pubky_swap.Prelude.{
  ℕ, ◌+◌, ◌*◌, Bool, true, false, not, ◌&&◌, ◌||◌, String, Option, none, some, List, [], ◌∷◌, ◌++◌,
  map, Result, ok, err, ◌>>=◌, ◌>>◌, reject_if, map_err, is_some, ltb, leb, eqb, if◌then◌else◌,
  ◌==◌, string_eq, contains, length, keep,
}
use pubky_swap.Outbox.{
  max_entries, max_ephemeral_entries, max_bytes, DeliveryFailure, failure_beq, eqb_bool,
  is_retryable, DeliveryOperation, publication, cleanup, TransportError, invalid, PreparedMessage,
  Entry, Journal, cleanup_due, next_attempt, next_time, codes, any, Reservation, reservation,
  reservation_eq, validate,
}

-- The first entry with the id, changed, with whether there is anything to write.
unfoldable pub change_entry :
    String
    → (Entry → Result TransportError (Bool × Entry))
    → List Entry
    → Result TransportError (Bool × List Entry)
change_entry id change [] = err (invalid "unknown outbox resource")
change_entry id change (e ∷ rest) =
    let later = change_entry id change rest in
    if (e.prepared).id == id
    then (do done ← change e; ok (done.0, done.1 ∷ rest))
    else (do done ← later; ok (done.0, e ∷ done.1))

unfoldable pub on_entry :
    String
    → (Entry → Result TransportError (Bool × Entry))
    → Journal
    → Result TransportError (Unit {0} × Bool × Journal)
unfolding change_entry
on_entry id change journal = do
  done ← change_entry id change journal.entries
  ok (tt, done.0, record journal { entries = done.1 })

unfoldable pub starts_with : List ℕ → List ℕ → Bool
starts_with [] text = true
starts_with (p ∷ ps) [] = false
starts_with (p ∷ ps) (c ∷ cs) = eqb p c && starts_with ps cs

unfoldable pub is_ephemeral : String → Bool
unfolding starts_with
is_ephemeral scope = starts_with (codes "ephemeral:") (codes scope)

-- A reservation that is there again: its message, and a deadline where it had none.
unfoldable pub reserve_again :
    Reservation → Option ℕ → List Entry → Option (PreparedMessage × Bool × List Entry)
reserve_again r eligible_after [] = none
reserve_again r eligible_after (e ∷ rest) =
    let later = reserve_again r eligible_after rest in
    if reservation e == r
    then some (
        if not (is_some e.cleanup_after) && is_some eligible_after
        then (e.prepared, true, record e { cleanup_after = eligible_after } ∷ rest)
        else (e.prepared, false, e ∷ rest))
    else (elim later [ none ↦ none | some (p, changed, es) ↦ some (p, changed, e ∷ es) ])

abbrev pub in_scope : String → String → Entry → Bool
in_scope peer scope e = e.peer == peer && e.scope == scope

unfoldable pub new_entry : Reservation → PreparedMessage → Option ℕ → Entry
new_entry r prepared eligible_after = record {
  peer = r.peer;
  scope = r.scope;
  content_digest = r.content_digest;
  prepared = prepared;
  published = false;
  attempts = 0;
  next_retry_at = 0;
  cleanup_after = eligible_after;
  cleanup_attempts = 0;
  next_cleanup_at = 0;
  publication_failure = none;
  publication_paused = false;
  cleanup_failure = none;
  cleanup_paused = false;
}

abbrev pub is_other_owner : Option String → String → Bool
is_other_owner none owner = false
is_other_owner (some saved) owner = not (saved == owner)

module _ (key_of : String → Option String) (authenticates : PreparedMessage → Bool)
    (encoded_len : Journal → ℕ) where
  -- The reservation of a new message; `made` is what its preparation gives.
  unfoldable pub reserve_new :
      Reservation
      → Option ℕ
      → Result String PreparedMessage
      → Journal
      → Result TransportError (PreparedMessage × Bool × Journal)
  unfolding new_entry is_ephemeral
  reserve_new r eligible_after made journal = do
    reject_if
        (is_ephemeral r.scope
          && leb max_ephemeral_entries (length (keep (λ e. is_ephemeral e.scope) journal.entries)))
        (invalid "read-only delivery capacity reached; retry later")
    reject_if (leb max_entries (length journal.entries))
        (invalid "outbox is full; pending work was retained")
    reject_if (any (λ e. in_scope r.peer r.scope e && is_some e.cleanup_after) journal.entries)
        (invalid "outbox scope has already completed")
    prepared ← map_err (λ e. invalid "message preparation failed") made
    reject_if (not (prepared.recipient == r.peer))
        (invalid "prepared message recipient does not match outbox peer")
    reject_if (is_other_owner journal.owner prepared.owner)
        (invalid "prepared message belongs to another outbox owner")
    let candidate = record journal {
      owner = some prepared.owner;
      entries = journal.entries ++ new_entry r prepared eligible_after ∷ [];
    }
    validate key_of authenticates candidate
    reject_if (ltb max_bytes (encoded_len candidate + length candidate.entries * 512))
        (invalid "outbox byte capacity reached; pending work was retained")
    ok (prepared, true, candidate)

  -- The change of `prepare_with_expiry`.
  unfoldable pub reserve :
      Reservation
      → Option ℕ
      → Result String PreparedMessage
      → Journal
      → Result TransportError (PreparedMessage × Bool × Journal)
  reserve r eligible_after made journal = elim (reserve_again r eligible_after journal.entries) [
    | some (prepared, changed, entries) ↦
        ok (prepared, changed, record journal { entries = entries })
    | none ↦ reserve_new r eligible_after made journal
  ]

-- The changes of the operations on one entry, each with whether there is anything to write.
abbrev pub publish_entry : Entry → Result TransportError (Bool × Entry)
publish_entry e = ok (
  not e.published || e.publication_paused,
  record e { published = true; publication_paused = false },
)

abbrev pub same_failure : Option DeliveryFailure → DeliveryFailure → Bool
same_failure none failure = false
same_failure (some old) failure = failure_beq old failure

abbrev pub fail_entry : ℕ → DeliveryFailure → Entry → Result TransportError (Bool × Entry)
fail_entry now failure e =
    if cleanup_due e now
    then ok (false, e)
    else (let changed =
          not (same_failure e.publication_failure failure)
          || eqb_bool e.publication_paused (is_retryable failure) in
        let failed = record e {
          publication_failure = some failure;
          publication_paused = not (is_retryable failure);
        } in
        if not e.published && leb e.next_retry_at now
        then ok (
          true,
          record failed {
            attempts = next_attempt e.attempts;
            next_retry_at = next_time e.attempts now;
          },
        )
        else ok (changed, failed))

abbrev pub fail_cleanup : ℕ → DeliveryFailure → Entry → Result TransportError (Bool × Entry)
fail_cleanup now failure e =
    if not (cleanup_due e now)
    then ok (false, e)
    else (let changed =
          not (same_failure e.cleanup_failure failure)
          || eqb_bool e.cleanup_paused (is_retryable failure) in
        let failed = record e {
          cleanup_failure = some failure;
          cleanup_paused = not (is_retryable failure);
        } in
        if leb e.next_cleanup_at now
        then ok (
          true,
          record failed {
            cleanup_attempts = next_attempt e.cleanup_attempts;
            next_cleanup_at = next_time e.cleanup_attempts now;
          },
        )
        else ok (changed, failed))

abbrev pub retry_entry : DeliveryOperation → ℕ → Entry → Result TransportError (Bool × Entry)
retry_entry publication now e =
    if cleanup_due e now
    then err (invalid "cannot retry a publication after cleanup eligibility")
    else ok (true, record e { publication_paused = false; published = false; next_retry_at = now })
retry_entry cleanup now e =
    if not (is_some e.cleanup_after)
    then err (invalid "cannot retry cleanup before scope completion")
    else ok (true, record e { cleanup_paused = false; next_cleanup_at = now })

abbrev pub complete_entry : String → String → ℕ → Entry → Entry
complete_entry peer scope eligible_after e =
    if in_scope peer scope e && not (is_some e.cleanup_after)
    then record e { cleanup_after = some eligible_after }
    else e

abbrev pub reopen_entry : String → String → Entry → Entry
reopen_entry peer scope e =
    if in_scope peer scope e && is_some e.cleanup_after
    then record e {
      cleanup_after = none;
      cleanup_attempts = 0;
      next_cleanup_at = 0;
      published = false;
      attempts = 0;
      next_retry_at = 0;
    }
    else e

unfoldable pub complete :
    String → String → ℕ → Journal → Result TransportError (Unit {0} × Bool × Journal)
complete peer scope eligible_after journal = ok (
  tt,
  any (λ e. in_scope peer scope e && not (is_some e.cleanup_after)) journal.entries,
  record journal { entries = map (complete_entry peer scope eligible_after) journal.entries },
)

unfoldable pub reopen :
    String → String → Journal → Result TransportError (Unit {0} × Bool × Journal)
reopen peer scope journal = ok (
  tt,
  any (λ e. in_scope peer scope e && is_some e.cleanup_after) journal.entries,
  record journal { entries = map (reopen_entry peer scope) journal.entries },
)

abbrev pub is_listed : List String → Entry → Bool
is_listed ids e = contains ids (e.prepared).id

unfoldable pub forget :
    List String → ℕ → Journal → Result TransportError (Unit {0} × Bool × Journal)
forget ids now journal = do
  reject_if (any (λ e. is_listed ids e && not (cleanup_due e now)) journal.entries)
      (invalid "cannot remove an outbox resource before cleanup eligibility")
  let kept = keep (λ e. not (is_listed ids e)) journal.entries
  ok (tt, not (eqb (length journal.entries) (length kept)), record journal { entries = kept })
