-- ===== src/Inbox/Operations.antt =====
-- The operations on the journal of received messages (pubky-transport/src/journal.rs).
use pubky_swap.Prelude.{
  ℕ, Bool, true, false, not, ◌&&◌, ◌||◌, String, Option, List, [], ◌∷◌, Result, ok, err, ltb, leb,
  if◌then◌else◌, length,
}
use pubky_swap.Outbox.{TransportError, invalid}
use pubky_swap.Inbox.{
  ReceivedMessage, ReceiveLog, Records, Journal, max_registered_peers, unsaved, record_of,
  pending_len, registered_peers, available, on_peer, on_known, update, enroll, dismiss, sift,
  take_in, settle_ids, check_call,
}

-- Writing the records to disk, by its answer.
abbrev pub Persist : ReceiveLog → Type 0
Persist log = Records log → Result TransportError (Unit {0})

pub data Operation : Type 0 where
  register_peer : String → Bool → Operation
  unregister_peer : String → Operation
  remember_messages : String → List ReceivedMessage → Operation
  acknowledge_ids : String → List ℕ → Operation

module _ (key_of : String → Option String) (log : ReceiveLog) where
  -- The `?` on the first tests of an operation.
  abbrev pub after_check :
      Journal log
      → String
      → Result TransportError (Unit {0}) × Journal log
      → Result TransportError (Unit {0}) × Journal log
  after_check j peer rest = elim (check_call log key_of j peer) [
    | err e ↦ (err e, j)
    | ok fine ↦ rest
  ]

  unfoldable pub register :
      Persist log → Journal log → String → Bool → Result TransportError (Unit {0}) × Journal log
  register persist j peer pinned =
      let r = record_of log peer j.records in
      after_check j peer (
        if r.registered && (not pinned || r.pinned)
        then (ok tt, j)
        else if not r.registered
            && leb max_registered_peers (length (registered_peers log j.records))
        then (err (invalid "receive peer capacity reached"), j)
        else update log persist j (on_peer log peer (enroll log pinned)))

  -- Answers whether the peer is gone: it stays while a message of it waits.
  unfoldable pub unregister :
      Persist log → Journal log → String → Result TransportError Bool × Journal log
  unregister persist j peer =
      if j.write_failed
      then (err unsaved, j)
      else if ltb 0 (pending_len log (record_of log peer j.records))
      then (ok false, j)
      else (let (written, after) = update log persist j (on_known log peer (dismiss log)) in
          (elim written [ err e ↦ err e | ok done ↦ ok true ], after))

  unfoldable pub remember :
      Persist log
      → Journal log
      → String
      → List ReceivedMessage
      → Result TransportError (Unit {0}) × Journal log
  remember persist j peer received =
      let sorted =
        sift log (record_of log peer j.records) (available log peer j.records) ([], []) received in
      after_check j peer (
        if not (ltb 0 (length sorted.0)) && not (ltb 0 (length sorted.1))
        then (ok tt, j)
        else update log persist j (on_peer log peer (take_in log sorted)))

  unfoldable pub acknowledge :
      Persist log → Journal log → String → List ℕ → Result TransportError (Unit {0}) × Journal log
  acknowledge persist j peer ids = after_check j peer (
      if not (ltb 0 (length ids))
      then (ok tt, j)
      else update log persist j (on_peer log peer (settle_ids log ids)))

  -- The journal after an operation, whether it succeeds or not.
  unfoldable pub step : Persist log → Journal log → Operation → Journal log
  step persist j (register_peer peer pinned) = (register persist j peer pinned).1
  step persist j (unregister_peer peer) = (unregister persist j peer).1
  step persist j (remember_messages peer received) = (remember persist j peer received).1
  step persist j (acknowledge_ids peer ids) = (acknowledge persist j peer ids).1

  -- Each operation comes with what the disk answers to it.
  unfoldable pub run : Journal log → List (Operation × Persist log) → Journal log
  unfolding step
  run j [] = j
  run j ((operation, persist) ∷ rest) = run (step persist j operation) rest
