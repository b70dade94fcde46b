-- ===== src/Inbox/Capacity.antt =====
-- The room for received messages (pubky-transport/src/journal.rs).
use pubky_swap.Prelude.{
  ℕ, ◌+◌, ◌≤◌, ◌≡◌, inl, inr, String, Option, List, [], ◌∷◌, arith, not, Bool-cases, Option-cases,
  ◌==◌, string_eq, length, length-append, length-keep-le,
}
use pubky_swap.Map.{
  lookup, remove, Unique, total, lookup-insert, Unique-insert, total-insert, total-remove,
  remove_absent,
}
use pubky_swap.Inbox.{
  ReceivedMessage, ReceiveLog, Records, Journal, PeerRecord, max_pending, max_pending_per_peer,
  record_of, pending_len, available, on_peer, on_known, sift_one, sift, take_in, settle_ids,
  dismiss, enroll, has_number,
}
use pubky_swap.Inbox.Operations.{
  Persist, Operation, register_peer, unregister_peer, remember_messages, acknowledge_ids, step, run,
}
use pubky_swap.Inbox.Steps.{
  either, register_records, unregister_records, remember_records, acknowledge_records,
}

module _ (log : ReceiveLog) where
  -- One entry for a peer, and room for no more than the limits, in all and for each peer.
  pub record Fits (records : Records log) : Type 0 where
    pub unique : Unique records.peers
    pub in_all : total (pending_len log) records.peers ≤ max_pending
    pub for_each :
        (peer : String) → pending_len log (record_of log peer records) ≤ max_pending_per_peer

  one_fits :
      (existing : PeerRecord log) (room : ℕ) (pending discarded : List ReceivedMessage)
      (m : ReceivedMessage)
      → length pending ≤ room
      → length (sift_one log existing room (pending, discarded) m).0 ≤ room
  unfolding sift_one
  one_fits existing room pending discarded m h = ground (arith, h, length-append pending (m ∷ []))

  sift_fits :
      (existing : PeerRecord log) (room : ℕ) (sorted : List ReceivedMessage × List ReceivedMessage)
      (ms : List ReceivedMessage)
      → length sorted.0 ≤ room
      → length (sift log existing room sorted ms).0 ≤ room
  unfolding sift
  sift_fits existing room sorted [] h = h
  sift_fits existing room sorted (m ∷ ms) h =
      sift_fits existing room (sift_one log existing room sorted m) ms
        (one_fits existing room sorted.0 sorted.1 m h)

  -- What waits for a peer, and what waits for the others.
  total_apart :
      (peer : String) (records : Records log)
      → Unique records.peers
      → total (pending_len log) records.peers
        ≡ pending_len log (record_of log peer records)
          + total (pending_len log) (remove peer records.peers)
  total_apart peer records u = elim (Option-cases (lookup peer records.peers)) [
    | inl missing ↦ rw (missing, remove_absent peer records.peers missing) (omega arith)
    | inr (r, there) ↦ rw there (total-remove (pending_len log) peer r records.peers u there)
  ]

  on_peer-Fits :
      (peer : String) (change : PeerRecord log → PeerRecord log) (records : Records log)
      → pending_len log (change (record_of log peer records))
        ≤ pending_len log (record_of log peer records) + available log peer records
      → Fits records
      → Fits (on_peer log peer change records)
  unfolding on_peer available
  on_peer-Fits peer change records more f =
      let new = change (record_of log peer records) in
      record {
        unique = Unique-insert peer new records.peers f.unique;
        in_all = omega (
          arith,
          more,
          f.in_all,
          total-insert (pending_len log) peer new records.peers f.unique,
          total_apart peer records f.unique,
        );
        for_each = λ asked. elim (Bool-cases (peer == asked)) [
          | inl same ↦
              rw (lookup-insert peer asked new records.peers, same)
                (omega (arith, more, f.for_each peer))
          | inr other ↦ rw (lookup-insert peer asked new records.peers, other) (f.for_each asked)
        ];
      }

  on_known-Fits :
      (peer : String) (records : Records log)
      → Fits records
      → Fits (on_known log peer (dismiss log) records)
  unfolding on_known on_peer lookup
  on_known-Fits peer records f = elim (Option-cases (lookup peer records.peers)) [
    | inl missing ↦ rw (on_known, missing) f
    | inr (r, there) ↦
        let fits = on_peer-Fits peer (dismiss log) records (omega arith) f in
        rw (on_known, there) (rw (on_peer, there) at fits)
  ]

  module _ (key_of : String → Option String) where
    step-Fits :
        (persist : Persist log) (j : Journal log) (operation : Operation)
        → Fits j.records
        → Fits (step key_of log persist j operation).records
    unfolding step
    step-Fits persist j (register_peer peer pinned) f =
        either log Fits (register_records log key_of persist j peer pinned) f
          (on_peer-Fits peer (enroll log pinned) j.records (omega arith) f)
    step-Fits persist j (unregister_peer peer) f =
        either log Fits (unregister_records log key_of persist j peer) f
          (on_known-Fits peer j.records f)
    step-Fits persist j (remember_messages peer received) f =
        let existing = record_of log peer j.records in
        let room = available log peer j.records in
        let sorted = sift log existing room ([], []) received in
        either log Fits (remember_records log key_of persist j peer received) f (
          on_peer-Fits peer (take_in log sorted) j.records
            (omega (
              arith,
              length-append existing.pending sorted.0,
              sift_fits existing room ([], []) received (omega arith),
            ))
            f)
    step-Fits persist j (acknowledge_ids peer ids) f =
        let existing = record_of log peer j.records in
        either log Fits (acknowledge_records log key_of persist j peer ids) f (
          on_peer-Fits peer (settle_ids log ids) j.records
            (omega (arith, length-keep-le (λ m. not (has_number ids m.id)) existing.pending)) f)

    -- Whatever operations run on a journal, and whatever the disk answers to them, at most 1,024
    -- messages wait in it, at most 32 for each peer, and no peer has two entries, where that holds
    -- at first.
    pub run-Fits :
        (j : Journal log) (history : List (Operation × Persist log))
        → Fits j.records
        → Fits (run key_of log j history).records
    unfolding run
    run-Fits j [] f = f
    run-Fits j ((operation, persist) ∷ rest) f =
        run-Fits (step key_of log persist j operation) rest (step-Fits persist j operation f)
