-- ===== src/Outbox/Operations.antt =====
-- The operations of the outbox (pubky-transport/src/outbox.rs).
use pubky_swap.Prelude.{
  ℕ, min, max, Bool, true, false, not, ◌&&◌, String, Option, none, some, List, [], ◌∷◌, map, Result,
  ok, err, ◌>>=◌, ◌>>◌, reject_if, is_some, unwrap_or, leb, if◌then◌else◌, ◌==◌, string_eq, keep,
  take, u64_max,
}
use pubky_swap.Outbox.{
  version, max_batch, DeliveryFailure, invalid_request, DeliveryOperation, publication,
  TransportError, delivery, invalid, unsaved, PreparedMessage, Entry, Journal, Outbox, update,
  cleanup_due, any, Reservation, canonical_peer, validate_scope, validate,
}
use pubky_swap.Outbox.Changes.{
  on_entry, in_scope, is_other_owner, reserve, publish_entry, fail_entry, fail_cleanup, retry_entry,
  complete, reopen, forget,
}

-- The operations that change the outbox. The content of a message enters by its BLAKE3 digest, and
-- the messenger's preparation of it by its answer.
pub data Operation : Type 0 where
  prepare : Reservation → Option ℕ → Result String PreparedMessage → Operation
  mark_published : String → Operation
  mark_failed : String → ℕ → DeliveryFailure → Operation
  complete_scope : String → String → ℕ → Operation
  reopen_scope : String → String → Operation
  mark_cleanup_failed : String → ℕ → DeliveryFailure → Operation
  retry : String → DeliveryOperation → ℕ → Operation
  remove_deleted : List String → ℕ → Operation

-- Writing a journal to disk, by its answer.
abbrev pub Persist : Type 0
Persist = Journal → Result TransportError (Unit {0})

module _ (key_of : String → Option String) where
  -- The `?` on `validate_scope`.
  abbrev pub in_valid_scope {ℓ} :
      {T : Type ℓ}
      → String
      → String
      → Outbox
      → Result TransportError T × Outbox
      → Result TransportError T × Outbox
  in_valid_scope peer scope o rest = elim (validate_scope key_of peer scope) [
    | err e ↦ (err e, o)
    | ok valid ↦ rest
  ]

  unfoldable pub check_owner : Outbox → String → Result TransportError (Unit {0})
  check_owner o owner = do
    canonical_peer key_of owner
    reject_if o.write_failed unsaved
    reject_if (is_other_owner o.journal.owner owner)
        (invalid "saved message delivery state belongs to another identity")

  unfoldable pub any_in_scope :
      Outbox → String → String → (Entry → Bool) → Result TransportError Bool
  any_in_scope o peer scope matches = do
    validate_scope key_of peer scope
    reject_if o.write_failed unsaved
    ok (any (λ e. in_scope peer scope e && matches e) o.journal.entries)

  unfoldable pub has_scope : Outbox → String → String → Result TransportError Bool
  unfolding any_in_scope
  has_scope o peer scope = any_in_scope o peer scope (λ e. true)

  unfoldable pub has_completed_scope : Outbox → String → String → Result TransportError Bool
  unfolding any_in_scope
  has_completed_scope o peer scope = any_in_scope o peer scope (λ e. is_some e.cleanup_after)

  module _ (authenticates : PreparedMessage → Bool) (encoded_len : Journal → ℕ) where
    unfoldable pub prepare_with_expiry :
        Persist
        → Outbox
        → Reservation
        → Option ℕ
        → Result String PreparedMessage
        → Result TransportError PreparedMessage × Outbox
    prepare_with_expiry persist o r eligible_after made =
        in_valid_scope r.peer r.scope o
          (update persist o (reserve key_of authenticates encoded_len r eligible_after made))

    -- The outbox after an operation, whether it succeeds or not.
    unfoldable pub step : Persist → Outbox → Operation → Outbox
    step persist o (prepare r eligible_after made) =
        (prepare_with_expiry persist o r eligible_after made).1
    step persist o (mark_published id) = (update persist o (on_entry id publish_entry)).1
    step persist o (mark_failed id now failure) =
        (update persist o (on_entry id (fail_entry now failure))).1
    step persist o (complete_scope peer scope eligible_after) =
        (in_valid_scope peer scope o (update persist o (complete peer scope eligible_after))).1
    step persist o (reopen_scope peer scope) =
        (in_valid_scope peer scope o (update persist o (reopen peer scope))).1
    step persist o (mark_cleanup_failed id now failure) =
        (update persist o (on_entry id (fail_cleanup now failure))).1
    step persist o (retry id operation now) =
        (update persist o (on_entry id (retry_entry operation now))).1
    step persist o (remove_deleted ids now) = (update persist o (forget ids now)).1

    -- Each operation comes with what the disk answers to it.
    unfoldable pub run : Outbox → List (Operation × Persist) → Outbox
    unfolding step
    run o [] = o
    run o ((operation, persist) ∷ rest) = run (step persist o operation) rest

    -- `open`, from what `read_journal` found.
    unfoldable pub open_journal :
        Persist → Result TransportError (Option Journal) → Result TransportError Outbox
    open_journal persist found = do
      saved ← found
      let fresh : Journal = record { version = version; owner = none; entries = [] }
      elim saved [
        | none ↦ do
          persist fresh
          validate key_of authenticates fresh
          ok (record { journal = fresh; write_failed = false })
        | some journal ↦ do
          validate key_of authenticates journal
          ok (record { journal = journal; write_failed = false })
      ]

-- A stable insertion, for `sort_by_key`.
unfoldable pub insert_by : (Entry → ℕ) → Entry → List Entry → List Entry
insert_by order e [] = e ∷ []
insert_by order e (x ∷ xs) =
    let later = insert_by order e xs in if leb (order e) (order x) then e ∷ x ∷ xs else x ∷ later

unfoldable pub sort_by : (Entry → ℕ) → List Entry → List Entry
unfolding insert_by
sort_by order [] = []
sort_by order (e ∷ rest) = insert_by order e (sort_by order rest)

unfoldable pub select :
    Outbox → ℕ → (Entry → Bool) → (Entry → ℕ) → Result TransportError (List PreparedMessage)
unfolding sort_by
select o limit predicate order = do
  reject_if o.write_failed unsaved
  ok (
      map (λ e. e.prepared)
        (take (min limit max_batch) (sort_by order (keep predicate o.journal.entries))))

abbrev pub is_due : ℕ → Entry → Bool
is_due now e =
    not e.published
    && not e.publication_paused
    && leb e.next_retry_at now
    && not (cleanup_due e now)

abbrev pub is_eligible : ℕ → Entry → Bool
is_eligible now e = cleanup_due e now && not e.cleanup_paused && leb e.next_cleanup_at now

unfoldable pub due_pending : Outbox → ℕ → ℕ → Result TransportError (List PreparedMessage)
unfolding select
due_pending o now limit = select o limit (is_due now) (λ e. e.next_retry_at)

unfoldable pub eligible_cleanup : Outbox → ℕ → ℕ → Result TransportError (List PreparedMessage)
unfolding select
eligible_cleanup o now limit =
    select o limit (is_eligible now)
      (λ e. max e.next_cleanup_at (unwrap_or e.cleanup_after u64_max))

-- The first entry with the id.
unfoldable pub find_prepared : String → List Entry → Option Entry
find_prepared id [] = none
find_prepared id (e ∷ rest) = if (e.prepared).id == id then some e else find_prepared id rest

unfoldable pub can_publish : Outbox → String → ℕ → Result TransportError Bool
unfolding find_prepared
can_publish o id now = do
  reject_if o.write_failed unsaved
  elim (find_prepared id o.journal.entries) [
    | none ↦ ok false
    | some e ↦
        if e.publication_paused
        then err (delivery publication (unwrap_or e.publication_failure invalid_request))
        else ok (not (cleanup_due e now))
  ]

unfoldable pub can_cleanup : Outbox → String → ℕ → Result TransportError Bool
can_cleanup o id now = do
  reject_if o.write_failed unsaved
  ok (any (λ e. (e.prepared).id == id && is_eligible now e) o.journal.entries)
