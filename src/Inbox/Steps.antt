-- ===== src/Inbox/Steps.antt =====
-- What an operation on the journal of received messages leaves of its records: the same, or the one
-- change that it makes (pubky-transport/src/journal.rs).
use pubky_swap.Prelude.{ℕ, ◌≡◌, ◌⊎◌, inl, inr, Bool, String, Option, List, [], arith}
use pubky_swap.Inbox.{
  ReceivedMessage, ReceiveLog, Records, Journal, record_of, available, on_peer, on_known, update,
  dismiss, enroll, sift, take_in, settle_ids,
}
use pubky_swap.Inbox.Operations.{Persist, register, unregister, remember, acknowledge}

module _ (log : ReceiveLog) where
  abbrev pub IsOneOf : Records log → Records log → Records log → Type 0
  IsOneOf after same changed = (after ≡ same) ⊎ (after ≡ changed)

  -- What holds of both holds of the one.
  pub either :
      (P : Records log → Type 0) {after same changed : Records log}
      → IsOneOf after same changed
      → P same
      → P changed
      → P after
  either P (inl is) s c = rw is s
  either P (inr is) s c = rw is c

  update_records :
      (persist : Persist log) (j : Journal log) (apply : Records log → Records log)
      → IsOneOf (update log persist j apply).1.records j.records (apply j.records)
  unfolding update
  update_records persist j apply = ground arith

  module _ (key_of : String → Option String) (persist : Persist log) (j : Journal log) where
    pub register_records :
        (peer : String) (pinned : Bool)
        → IsOneOf
            (register key_of log persist j peer pinned).1.records
            j.records
            (on_peer log peer (enroll log pinned) j.records)
    unfolding register
    register_records peer pinned =
        ground (arith, update_records persist j (on_peer log peer (enroll log pinned)))

    pub unregister_records :
        (peer : String)
        → IsOneOf
            (unregister key_of log persist j peer).1.records
            j.records
            (on_known log peer (dismiss log) j.records)
    unfolding unregister
    unregister_records peer =
        ground (arith, update_records persist j (on_known log peer (dismiss log)))

    pub remember_records :
        (peer : String) (received : List ReceivedMessage)
        → IsOneOf (remember key_of log persist j peer received).1.records j.records (
            on_peer log peer
              (take_in log (
                sift log
                  (record_of log peer j.records)
                  (available log peer j.records)
                  ([], [])
                  received))
              j.records)
    unfolding remember
    remember_records peer received =
        let sorted =
          sift log (record_of log peer j.records) (available log peer j.records) ([], [])
            received in
        ground (arith, update_records persist j (on_peer log peer (take_in log sorted)))

    pub acknowledge_records :
        (peer : String) (ids : List ℕ)
        → IsOneOf
            (acknowledge key_of log persist j peer ids).1.records
            j.records
            (on_peer log peer (settle_ids log ids) j.records)
    unfolding acknowledge
    acknowledge_records peer ids =
        ground (arith, update_records persist j (on_peer log peer (settle_ids log ids)))
