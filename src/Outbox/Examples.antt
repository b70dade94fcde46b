-- ===== src/Outbox/Examples.antt =====
-- Histories of an outbox (pubky-transport/src/outbox.rs).
use pubky_swap.Prelude.{
  ℕ, ◌+◌, ◌≡◌, ◌⊎◌, refl, Bool, true, false, String, Option, none, some, List, [], ◌∷◌, ok, err,
  arith,
}
use pubky_swap.Outbox.{
  PreparedMessage, Entry, Journal, Outbox, Reservation, transport_unavailable, validate,
  validate_scope, any, pause_fits, is_retryable, cleanup_due, update, io,
}
use pubky_swap.Outbox.Changes.{fail_entry, reserve, reserve_again, reserve_new, on_entry, complete}
use pubky_swap.Outbox.Operations.{
  Operation, prepare, mark_published, mark_failed, complete_scope, Persist, prepare_with_expiry,
  run, is_due,
}
use pubky_swap.Outbox.Valid.{run-IsValid}
use pubky_swap.Outbox.Lasting.{IsDeleted}
use pubky_swap.Outbox.Again.{prepare_again}
use pubky_swap.Outbox.Schedule.{failed_publication_returns}

-- Every key is canonical, every message authentic, and no journal too long.
abbrev key_of : String → Option String
key_of = some

abbrev authenticates : PreparedMessage → Bool
authenticates message = true

abbrev encoded_len : Journal → ℕ
encoded_len journal = 0

abbrev disk : Persist
disk journal = ok tt

abbrev broken_disk : Persist
broken_disk journal = err io

abbrev message : PreparedMessage
message = record { id = "m1"; owner = "us"; recipient = "peer"; version = 1; payload_len = 40 }

abbrev other : PreparedMessage
other = record message { id = "m2" }

abbrev key : Reservation
key = record { peer = "peer"; scope = "swap:1"; content_digest = 7 }

abbrev empty : Outbox
empty = record {
  journal = record { version = 1; owner = none; entries = [] };
  write_failed = false;
}

abbrev history : List (Operation × Persist)
history =
    (prepare key none (ok message), disk)
    ∷ (mark_failed "m1" 100 transport_unavailable, disk)
    ∷ (mark_published "m1", disk)
    ∷ (complete_scope "peer" "swap:1" 500, broken_disk)
    ∷ []

run-IsValid_example :
    validate key_of authenticates (run key_of authenticates encoded_len empty history).journal
    ≡ ok tt
unfolding validate
run-IsValid_example = run-IsValid key_of authenticates encoded_len empty history refl

abbrev since : List (Operation × Persist)
since = (mark_published "m1", disk) ∷ (complete_scope "peer" "swap:1" 500, disk) ∷ []

prepare_again_example :
    ((prepare_with_expiry key_of authenticates encoded_len disk
        (run key_of authenticates encoded_len
          (prepare_with_expiry key_of authenticates encoded_len disk empty key none (ok message)).1
          since)
        key
        none
        (ok other)).0
      ≡ ok message)
    ⊎ IsDeleted key_of authenticates encoded_len key message
        (prepare_with_expiry key_of authenticates encoded_len disk empty key none (ok message)).1
        since
unfolding prepare_with_expiry validate_scope any update reserve reserve_again reserve_new validate
    pause_fits run on_entry complete
prepare_again_example =
    prepare_again key_of authenticates encoded_len disk disk empty key none none (ok message)
      (ok other) message since refl refl (λ j. refl)

abbrev entry : Entry
entry = record {
  peer = "peer";
  scope = "swap:1";
  content_digest = 7;
  prepared = message;
  published = false;
  attempts = 3;
  next_retry_at = 90;
  cleanup_after = none;
  cleanup_attempts = 0;
  next_cleanup_at = 0;
  publication_failure = none;
  publication_paused = false;
  cleanup_failure = none;
  cleanup_paused = false;
}

failed_publication_returns_example :
    (e' : Entry) × (fail_entry 100 transport_unavailable entry ≡ ok (true, e'))
    × (is_due 100 e' ≡ false)
    × (is_due (100 + 300) e' ≡ true)
unfolding cleanup_due is_retryable
failed_publication_returns_example =
    failed_publication_returns 100 transport_unavailable entry refl refl (omega arith) refl

abbrev two : Outbox
two = record {
  journal = record {
    version = 1;
    owner = some "us";
    entries = record entry { next_retry_at = 95 } ∷ record entry { prepared = other } ∷ [];
  };
  write_failed = false;
}
