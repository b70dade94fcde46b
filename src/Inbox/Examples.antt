-- ===== src/Inbox/Examples.antt =====
-- Histories of a journal of received messages (pubky-transport/src/journal.rs).
use pubky_swap.Prelude.{
  ℕ, ◌≡◌, refl, true, false, String, Option, none, some, List, [], ◌∷◌, ok, err, arith, eqb_refl,
}
use pubky_swap.Map.{lookup}
use pubky_swap.Outbox.{io}
use pubky_swap.Inbox.{
  ReceivedMessage, ReceiveLog, Journal, has_id, has_number, record_of, on_peer, update, check_call,
  canonical_pubky, sift, available,
}
use pubky_swap.Inbox.Operations.{
  Persist, Operation, register_peer, unregister_peer, remember_messages, acknowledge_ids,
  acknowledge, remember, run,
}
use pubky_swap.Inbox.Replays.{IsSpent, acknowledged_for_good}
use pubky_swap.Inbox.Capacity.{Fits, run-Fits}

has_number_head : (n : ℕ) (ns : List ℕ) → has_number (n ∷ ns) n ≡ true
unfolding has_number
has_number_head n ns = ground (arith, eqb_refl n)

has_number_tail : (n id : ℕ) (ns : List ℕ) → has_number ns id ≡ true → has_number (n ∷ ns) id ≡ true
unfolding has_number
has_number_tail n id ns h = ground (arith, h)

-- Receipts noted as the list of their ids.
abbrev id_log : ReceiveLog
id_log = record {
  State = List ℕ;
  fresh = [];
  note = λ s m. m.id ∷ s;
  knows = has_number;
  noted = λ s m. has_number_head m.id s;
  kept = λ s m id. has_number_tail m.id id s;
}

abbrev key_of : String → Option String
key_of = some

abbrev disk : Persist id_log
disk records = ok tt

abbrev broken_disk : Persist id_log
broken_disk records = err io

abbrev message : ℕ → ReceivedMessage
message n = record { id = n; message = some "hello"; etag = none; updated = false }

abbrev empty : Journal id_log
empty = record {
  records = record { version = 2; owner = some "us"; peers = [] };
  write_failed = false;
}

abbrev history : List (Operation × Persist id_log)
history =
    (register_peer "peer" true, disk)
    ∷ (remember_messages "peer" (message 1 ∷ message 2 ∷ message 1 ∷ []), disk)
    ∷ (unregister_peer "peer", disk)
    ∷ (acknowledge_ids "peer" (2 ∷ []), broken_disk)
    ∷ []

run-Fits_example : Fits id_log (run key_of id_log empty history).records
unfolding lookup
run-Fits_example =
    run-Fits id_log key_of empty history
      (record { unique = tt; in_all = omega arith; for_each = λ peer. omega arith })

abbrev waiting : Journal id_log
waiting =
    run key_of id_log empty ((remember_messages "peer" (message 1 ∷ message 2 ∷ []), disk) ∷ [])

abbrev sent_again : List (Operation × Persist id_log)
sent_again =
    (remember_messages "peer" (message 1 ∷ message 3 ∷ []), disk)
    ∷ (acknowledge_ids "peer" (3 ∷ []), broken_disk)
    ∷ []

acknowledged_for_good_example : IsSpent id_log 1 (
    record_of id_log "peer"
      (run key_of id_log
        (acknowledge key_of id_log disk waiting "peer" (1 ∷ [])).1
        sent_again).records)
unfolding acknowledge run has_number check_call canonical_pubky remember update on_peer sift
    available lookup has_id
acknowledged_for_good_example =
    acknowledged_for_good key_of id_log disk waiting "peer" (1 ∷ []) 1 sent_again refl refl
