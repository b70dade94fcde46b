-- ===== src/Inbox/Replays.antt =====
-- An acknowledged message does not come back (pubky-transport/src/journal.rs).
use pubky_swap.Prelude.{
  ℕ, ◌≡◌, refl, inl, inr, Bool, true, false, not, String, Option, List, [], ◌∷◌, ◌++◌, map, ok,
  arith, eqb, eqb_iff, sym, Bool-cases, Option-cases, ◌==◌, string_eq, keep,
}
use pubky_swap.Map.{lookup, lookup-insert}
use pubky_swap.Inbox.{
  ReceivedMessage, ReceiveLog, Records, Journal, PeerRecord, has_id, has_number, bare, record_of,
  available, on_peer, on_known, update, note_all, sift_one, sift, take_in, settle_ids, dismiss,
  enroll,
}
use pubky_swap.Inbox.Steps.{
  either, register_records, unregister_records, remember_records, acknowledge_records,
}
use pubky_swap.Inbox.Operations.{
  Persist, Operation, register_peer, unregister_peer, remember_messages, acknowledge_ids,
  acknowledge, step, run,
}

has_id-append :
    (id : ℕ) (a b : List ReceivedMessage)
    → has_id id a ≡ false
    → has_id id b ≡ false
    → has_id id (a ++ b) ≡ false
unfolding has_id
has_id-append id [] b h k = k
has_id-append id (m ∷ a) b h k = ground (arith, has_id-append id a b, h, k)

has_id-keep :
    (id : ℕ) (p : ReceivedMessage → Bool) (a : List ReceivedMessage)
    → has_id id a ≡ false
    → has_id id (keep p a) ≡ false
unfolding has_id
has_id-keep id p [] h = refl
has_id-keep id p (m ∷ a) h = ground (arith, has_id-keep id p a, h)

gone_if_listed :
    (id : ℕ) (ids : List ℕ) (a : List ReceivedMessage)
    → has_number ids id ≡ true
    → has_id id (keep (λ m. not (has_number ids m.id)) a) ≡ false
unfolding has_id
gone_if_listed id ids [] h = refl
gone_if_listed id ids (m ∷ a) h = elim (Bool-cases (has_number ids m.id)) [
  | inl there ↦ ground (arith, gone_if_listed id ids a h, there)
  | inr missing ↦ ground (arith, gone_if_listed id ids a h, missing, h, eqb_iff m.id id)
]

module _ (log : ReceiveLog) where
  note_all_kept :
      (s : log.State) (ms : List ReceivedMessage) (id : ℕ)
      → log.knows s id ≡ true
      → log.knows (note_all log s ms) id ≡ true
  unfolding note_all
  note_all_kept s [] id h = h
  note_all_kept s (m ∷ ms) id h = note_all_kept (log.note s m) ms id (log.kept s m id h)

  note_all_noted :
      (s : log.State) (ids : List ℕ) (id : ℕ)
      → has_number ids id ≡ true
      → log.knows (note_all log s (map bare ids)) id ≡ true
  unfolding note_all has_number
  note_all_noted s [] id h = cc
  note_all_noted s (n ∷ ids) id h = elim (Bool-cases (eqb n id)) [
    | inl same ↦
        let here : log.knows (log.note s (bare n)) id ≡ true =
          rw (sym ((eqb_iff n id).0 same)) (log.noted s (bare n)) in
        note_all_kept (log.note s (bare n)) (map bare ids) id here
    | inr other ↦ note_all_noted (log.note s (bare n)) ids id (ground (arith, h, other))
  ]

  -- Known as acknowledged, and not waiting.
  pub record IsSpent (id : ℕ) (r : PeerRecord log) : Type 0 where
    pub known : log.knows r.acknowledged id ≡ true
    pub gone : has_id id r.pending ≡ false

  one_gone :
      (existing : PeerRecord log) (room id : ℕ) (pending discarded : List ReceivedMessage)
      (m : ReceivedMessage)
      → log.knows existing.acknowledged id ≡ true
      → has_id id pending ≡ false
      → has_id id (sift_one log existing room (pending, discarded) m).0 ≡ false
  unfolding sift_one has_id
  one_gone existing room id pending discarded m known h = elim (Bool-cases (eqb m.id id)) [
    | inl same ↦
        let is : m.id ≡ id = (eqb_iff m.id id).0 same in
        let seen : log.knows existing.acknowledged m.id ≡ true = rw is known in rw seen h
    | inr other ↦ ground (arith, h, other, has_id-append id pending (m ∷ []))
  ]

  sift_gone :
      (existing : PeerRecord log) (room id : ℕ)
      (sorted : List ReceivedMessage × List ReceivedMessage) (ms : List ReceivedMessage)
      → log.knows existing.acknowledged id ≡ true
      → has_id id sorted.0 ≡ false
      → has_id id (sift log existing room sorted ms).0 ≡ false
  unfolding sift
  sift_gone existing room id sorted [] known h = h
  sift_gone existing room id sorted (m ∷ ms) known h =
      sift_gone existing room id (sift_one log existing room sorted m) ms known
        (one_gone existing room id sorted.0 sorted.1 m known h)

  module _ (id : ℕ) where
    IsSpent-take_in :
        (r : PeerRecord log) (room : ℕ) (received : List ReceivedMessage)
        → IsSpent id r
        → IsSpent id (take_in log (sift log r room ([], []) received) r)
    unfolding has_id
    IsSpent-take_in r room received s = record {
      known = note_all_kept r.acknowledged (sift log r room ([], []) received).1 id s.known;
      gone =
          has_id-append id r.pending (sift log r room ([], []) received).0 s.gone
            (sift_gone r room id ([], []) received s.known refl);
    }

    IsSpent-settle_ids :
        (r : PeerRecord log) (ids : List ℕ) → IsSpent id r → IsSpent id (settle_ids log ids r)
    IsSpent-settle_ids r ids s = record {
      known = note_all_kept r.acknowledged (map bare ids) id s.known;
      gone = has_id-keep id (λ m. not (has_number ids m.id)) r.pending s.gone;
    }

    listed-IsSpent :
        (r : PeerRecord log) (ids : List ℕ)
        → has_number ids id ≡ true
        → IsSpent id (settle_ids log ids r)
    listed-IsSpent r ids h = record {
      known = note_all_noted r.acknowledged ids id h;
      gone = gone_if_listed id ids r.pending h;
    }

    enrolled :
        (pinned : Bool) {r : PeerRecord log} → IsSpent id r → IsSpent id (enroll log pinned r)
    enrolled pinned s = record { known = s.known; gone = s.gone }

    dismissed : {r : PeerRecord log} → IsSpent id r → IsSpent id (dismiss log r)
    dismissed s = record { known = s.known; gone = s.gone }

    module _ (asked : String) where
      abbrev SpentIn : Records log → Type 0
      SpentIn records = IsSpent id (record_of log asked records)

      on_peer_keeps :
          (peer : String) (change : PeerRecord log → PeerRecord log) (records : Records log)
          → (IsSpent id (record_of log peer records)
              → IsSpent id (change (record_of log peer records)))
          → SpentIn records
          → SpentIn (on_peer log peer change records)
      unfolding on_peer
      on_peer_keeps peer change records keeps s =
          let found =
            lookup-insert peer asked (change (record_of log peer records)) records.peers in
          elim (Bool-cases (peer == asked)) [
            | inl same ↦
                let is : peer ≡ asked = (string_eq.beq_iff peer asked).0 same in
                let at_peer : IsSpent id (record_of log peer records) = rw is s in
                rw (found, same) (keeps at_peer)
            | inr other ↦ rw (found, other) s
          ]

      on_known_keeps :
          (peer : String) (records : Records log)
          → SpentIn records
          → SpentIn (on_known log peer (dismiss log) records)
      unfolding on_known on_peer lookup
      on_known_keeps peer records s = elim (Option-cases (lookup peer records.peers)) [
        | inl missing ↦ rw (on_known, missing) s
        | inr (r, there) ↦
            let keeps = on_peer_keeps peer (dismiss log) records dismissed s in
            rw (on_known, there) (rw (on_peer, there) at keeps)
      ]

    module _ (asked : String) (key_of : String → Option String) where
      step_keeps :
          (persist : Persist log) (j : Journal log) (operation : Operation)
          → SpentIn asked j.records
          → SpentIn asked (step key_of log persist j operation).records
      unfolding step
      step_keeps persist j (register_peer peer pinned) s =
          either log (SpentIn asked) (register_records log key_of persist j peer pinned) s
            (on_peer_keeps asked peer (enroll log pinned) j.records (enrolled pinned) s)
      step_keeps persist j (unregister_peer peer) s =
          either log (SpentIn asked) (unregister_records log key_of persist j peer) s
            (on_known_keeps asked peer j.records s)
      step_keeps persist j (remember_messages peer received) s =
          either log (SpentIn asked) (remember_records log key_of persist j peer received) s (
            on_peer_keeps asked peer _ j.records
              (IsSpent-take_in (record_of log peer j.records) (available log peer j.records)
                received)
              s)
      step_keeps persist j (acknowledge_ids peer ids) s =
          either log (SpentIn asked) (acknowledge_records log key_of persist j peer ids) s (
            on_peer_keeps asked peer (settle_ids log ids) j.records
              (λ t. IsSpent-settle_ids (record_of log peer j.records) ids t) s)

      pub run_keeps :
          (j : Journal log) (history : List (Operation × Persist log))
          → SpentIn asked j.records
          → SpentIn asked (run key_of log j history).records
      unfolding run
      run_keeps j [] s = s
      run_keeps j ((operation, persist) ∷ rest) s =
          run_keeps (step key_of log persist j operation) rest (step_keeps persist j operation s)

module _ (key_of : String → Option String) (log : ReceiveLog) (persist : Persist log) where
  acknowledge-ok :
      (j : Journal log) (peer : String) (ids : List ℕ) (id : ℕ)
      → has_number ids id ≡ true
      → (acknowledge key_of log persist j peer ids).0 ≡ ok tt
      → (acknowledge key_of log persist j peer ids).1.records
        ≡ on_peer log peer (settle_ids log ids) j.records
  unfolding acknowledge has_number update
  acknowledge-ok j peer [] id listed done = cc
  acknowledge-ok j peer (n ∷ ids) id listed done = ground (arith, done)

  -- Once a message of a peer has been acknowledged with success, it is known as acknowledged, and
  -- does not wait, whatever operations run on the journal after that, whatever is received again,
  -- and whatever the disk answers.
  pub acknowledged_for_good :
      (j : Journal log) (peer : String) (ids : List ℕ) (id : ℕ)
      (history : List (Operation × Persist log))
      → has_number ids id ≡ true
      → (acknowledge key_of log persist j peer ids).0 ≡ ok tt
      → IsSpent log id (
          record_of log peer
            (run key_of log (acknowledge key_of log persist j peer ids).1 history).records)
  unfolding on_peer
  acknowledged_for_good j peer ids id history listed done =
      let now : IsSpent log id
          (record_of log peer (acknowledge key_of log persist j peer ids).1.records) =
        rw
          (
            acknowledge-ok j peer ids id listed done,
            lookup-insert peer peer (settle_ids log ids (record_of log peer j.records))
                j.records.peers,
            (string_eq.beq_iff peer peer).1 refl,
          )
          (listed-IsSpent log id (record_of log peer j.records) ids listed) in
      run_keeps log id peer key_of (acknowledge key_of log persist j peer ids).1 history now
