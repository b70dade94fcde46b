-- ===== src/Inbox.antt =====
-- pubky-transport/src/journal.rs: the journal of what the transport has received, by peer. A message
-- waits in it until it is acknowledged; an acknowledged one is never taken again. Writing the
-- journal to disk enters by its answer, which is a success where the journal has no file.
pub mod Operations
pub mod Steps
pub mod Replays
pub mod Capacity
mod Examples
use pubky_swap.Prelude.{
  ℕ, ◌+◌, ◌-◌, ◌≡◌, min, Bool, true, false, not, ◌&&◌, ◌||◌, String, Option, none, some, List, [],
  ◌∷◌, ◌++◌, map, Result, ok, err, ◌>>=◌, ◌>>◌, reject_if, is_some, unwrap_or, ltb, leb, eqb,
  if◌then◌else◌, Eq, ◌==◌, string_eq, length, keep, arith,
}
use pubky_swap.Map.{lookup, insert, total}
use pubky_swap.Outbox.{TransportError, invalid, any}

abbrev pub version : ℕ
version = 2

abbrev pub max_pending : ℕ
max_pending = 1_024

abbrev pub max_pending_per_peer : ℕ
max_pending_per_peer = 32

abbrev pub max_registered_peers : ℕ
max_registered_peers = 1_024

abbrev pub unsaved : TransportError
unsaved = invalid "received message state could not be saved; restart the transport to recover"

-- The messenger library's message: no body where it could not be read.
pub record ReceivedMessage : Type 0 where
  pub id : ℕ
  pub message : Option String
  pub etag : Option String
  pub updated : Bool

-- The messenger library's `ReceiveState`, with what the journal relies on: a message whose receipt
-- is noted is known from then on.
pub record ReceiveLog : Type 1 where
  pub State : Type 0
  pub fresh : State
  pub note : State → ReceivedMessage → State
  pub knows : State → ℕ → Bool
  pub noted : (s : State) (m : ReceivedMessage) → knows (note s m) m.id ≡ true
  pub kept :
      (s : State) (m : ReceivedMessage) (id : ℕ) → knows s id ≡ true → knows (note s m) id ≡ true

unfoldable pub has_id : ℕ → List ReceivedMessage → Bool
has_id id [] = false
has_id id (m ∷ rest) = eqb m.id id || has_id id rest

abbrev pub bare : ℕ → ReceivedMessage
bare id = record { id = id; message = none; etag = none; updated = false }

unfoldable pub has_number : List ℕ → ℕ → Bool
has_number [] id = false
has_number (n ∷ rest) id = eqb n id || has_number rest id

module _ (log : ReceiveLog) where
  pub record PeerRecord : Type 0 where
    pub registered : Bool
    pub pinned : Bool
    pub acknowledged : log.State
    pub pending : List ReceivedMessage

  pub record Records : Type 0 where
    pub version : ℕ
    pub owner : Option String
    pub peers : List (String × PeerRecord)

  pub record Journal : Type 0 where
    pub records : Records
    pub write_failed : Bool

  abbrev pub default_record : PeerRecord
  default_record = record {
    registered = false;
    pinned = false;
    acknowledged = log.fresh;
    pending = [];
  }

  -- `record`.
  abbrev pub record_of : String → Records → PeerRecord
  record_of peer records = unwrap_or (lookup peer records.peers) default_record

  abbrev pub pending_len : PeerRecord → ℕ
  pending_len r = length r.pending

  unfoldable pub registered_peers : Records → List (String × Bool)
  registered_peers records =
      map (λ e. (e.0, e.1.pinned))
        (keep (λ e. e.1.registered || ltb 0 (pending_len e.1)) records.peers)

  unfoldable pub available : String → Records → ℕ
  available peer records =
      min (max_pending - total pending_len records.peers)
        (max_pending_per_peer - pending_len (record_of peer records))

  -- A change of the entry of a peer, which is made where it is missing.
  unfoldable pub on_peer : String → (PeerRecord → PeerRecord) → Records → Records
  on_peer peer change records = record records {
    peers = insert peer (change (record_of peer records)) records.peers;
  }

  -- A change of the entry of a peer where it is there.
  unfoldable pub on_known : String → (PeerRecord → PeerRecord) → Records → Records
  on_known peer change records = elim (lookup peer records.peers) [
    | none ↦ records
    | some r ↦ record records { peers = insert peer (change r) records.peers }
  ]

  unfoldable pub update :
      (Records → Result TransportError (Unit {0}))
      → Journal
      → (Records → Records)
      → Result TransportError (Unit {0}) × Journal
  update persist j apply =
      if j.write_failed then (err unsaved, j) else (elim (persist (apply j.records)) [
        | err e ↦ (err e, record j { write_failed = true })
        | ok written ↦ (ok tt, record j { records = apply j.records })
      ])

  abbrev pub enroll : Bool → PeerRecord → PeerRecord
  enroll pinned r = record r { registered = true; pinned = r.pinned || pinned }

  abbrev pub dismiss : PeerRecord → PeerRecord
  dismiss r = record r { registered = false }

  unfoldable pub note_all : log.State → List ReceivedMessage → log.State
  note_all s [] = s
  note_all s (m ∷ rest) = note_all (log.note s m) rest

  -- The loop of `remember`, on one message: those that are to wait, and those without a body.
  unfoldable pub sift_one :
      PeerRecord
      → ℕ
      → List ReceivedMessage × List ReceivedMessage
      → ReceivedMessage
      → List ReceivedMessage × List ReceivedMessage
  sift_one existing room (pending, discarded) m =
      if log.knows existing.acknowledged m.id
        || has_id m.id existing.pending
        || has_id m.id pending
        || has_id m.id discarded
      then (pending, discarded)
      else if not (is_some m.message)
      then (pending, discarded ++ m ∷ [])
      else if ltb (length pending) room
      then (pending ++ m ∷ [], discarded)
      else (pending, discarded)

  unfoldable pub sift :
      PeerRecord
      → ℕ
      → List ReceivedMessage × List ReceivedMessage
      → List ReceivedMessage
      → List ReceivedMessage × List ReceivedMessage
  unfolding sift_one
  sift existing room sorted [] = sorted
  sift existing room sorted (m ∷ rest) = sift existing room (sift_one existing room sorted m) rest

  abbrev pub take_in : List ReceivedMessage × List ReceivedMessage → PeerRecord → PeerRecord
  take_in (pending, discarded) r = record r {
    pending = r.pending ++ pending;
    acknowledged = note_all r.acknowledged discarded;
  }

  abbrev pub settle_ids : List ℕ → PeerRecord → PeerRecord
  settle_ids ids r = record r {
    acknowledged = note_all r.acknowledged (map bare ids);
    pending = keep (λ m. not (has_number ids m.id)) r.pending;
  }

  -- Reading a public key and printing it is the pkarr library's.
  module _ (key_of : String → Option String) where
    unfoldable pub canonical_pubky : String → Result TransportError (Unit {0})
    canonical_pubky value = elim (key_of value) [
      | none ↦ err (invalid "invalid receive journal identity")
      | some text ↦
          reject_if (not (text == value)) (invalid "receive journal identity is not canonical")
    ]

    -- `ensure_healthy` and `canonical_pubky`, each with its `?`.
    unfoldable pub check_call : Journal → String → Result TransportError (Unit {0})
    check_call j peer = do reject_if j.write_failed unsaved; canonical_pubky peer

    unfoldable pub check_peers : List (String × PeerRecord) → Result TransportError (Unit {0})
    check_peers [] = ok tt
    check_peers ((peer, r) ∷ rest) = do
      canonical_pubky peer
      reject_if (ltb max_pending_per_peer (pending_len r))
          (invalid "receive journal exceeds peer pending capacity")
      check_peers rest

    -- The tests of `open`, on the owner at first, and on what it has read.
    unfoldable pub check_records : String → Records → Result TransportError (Unit {0})
    unfolding check_peers
    check_records owner records = do
      canonical_pubky owner
      reject_if (not (eqb records.version version)) (invalid "unsupported receive journal version")
      reject_if (elim records.owner [ none ↦ true | some saved ↦ not (saved == owner) ])
          (invalid "receive journal belongs to another identity")
      reject_if (ltb max_pending (total pending_len records.peers))
          (invalid "receive journal exceeds pending capacity")
      check_peers records.peers
