-- ===== src/Outbox.antt =====
-- pubky-transport/src/outbox.rs: the durable outbox of the transport. It reserves encrypted messages
-- before they are published, and schedules their retries and their deletion. The journal is data;
-- writing it to disk enters by its answer, the encrypted message by what the outbox reads of it.
pub mod Changes
pub mod Operations
pub mod Updates
pub mod Shape
pub mod Valid
pub mod Lasting
pub mod Again
pub mod Schedule
mod Examples
use Prim.Native.Char.{code}
use pubky_swap.Prelude.{
  ℕ, ◌+◌, ◌-◌, ◌*◌, ◌^◌, ◌≤◌, ◌≡◌, ◌↔◌, Bool, true, false, not, ◌&&◌, ◌||◌, String, Option, none,
  some, List, [], ◌∷◌, Result, ok, err, ◌>>=◌, ◌>>◌, reject_if, min, max, arith, ltb, leb, eqb,
  eqb_iff, if◌then◌else◌, Eq, ◌==◌, string_eq, contains, length, saturating_add, u32_max, u64_max,
}

abbrev pub version : ℕ
version = 1

abbrev pub max_entries : ℕ
max_entries = 1_024

abbrev pub max_ephemeral_entries : ℕ
max_ephemeral_entries = 768

abbrev pub max_batch : ℕ
max_batch = 64

abbrev pub max_bytes : ℕ
max_bytes = 16_777_216

abbrev pub max_payload : ℕ
max_payload = 131_072

pub data DeliveryFailure : Type 0 where
  temporary_http authentication permanent_http : ℕ → DeliveryFailure
  transport_unavailable timed_out invalid_request : DeliveryFailure

-- The derived `PartialEq`.
abbrev pub failure_beq : DeliveryFailure → DeliveryFailure → Bool
failure_beq (temporary_http a) (temporary_http b) = eqb a b
failure_beq (authentication a) (authentication b) = eqb a b
failure_beq (permanent_http a) (permanent_http b) = eqb a b
failure_beq transport_unavailable transport_unavailable = true
failure_beq timed_out timed_out = true
failure_beq invalid_request invalid_request = true
failure_beq _ _ = false

abbrev pub eqb_bool : Bool → Bool → Bool
eqb_bool true b = b
eqb_bool false b = not b

unfoldable pub is_retryable : DeliveryFailure → Bool
is_retryable (temporary_http status) = true
is_retryable transport_unavailable = true
is_retryable timed_out = true
is_retryable _ = false

pub data DeliveryOperation : Type 0 where
  publication cleanup : DeliveryOperation

-- The variants of `TransportError` that the outbox returns.
pub data TransportError : Type 0 where
  messenger : String → TransportError
  delivery : DeliveryOperation → DeliveryFailure → TransportError
  io : TransportError

abbrev pub invalid : String → TransportError
invalid = messenger

-- What the outbox reads of a `PreparedMessage` of the messenger library.
pub record PreparedMessage : Type 0 where
  pub id : String
  pub owner : String
  pub recipient : String
  pub version : ℕ
  pub payload_len : ℕ

pub record Entry : Type 0 where
  pub peer : String
  pub scope : String
  pub content_digest : ℕ
  pub prepared : PreparedMessage
  pub published : Bool
  pub attempts : ℕ
  pub next_retry_at : ℕ
  pub cleanup_after : Option ℕ
  pub cleanup_attempts : ℕ
  pub next_cleanup_at : ℕ
  pub publication_failure : Option DeliveryFailure
  pub publication_paused : Bool
  pub cleanup_failure : Option DeliveryFailure
  pub cleanup_paused : Bool

pub record Journal : Type 0 where
  pub version : ℕ
  pub owner : Option String
  pub entries : List Entry

-- `State`. The lock on it, and a poisoned lock, are left out.
pub record Outbox : Type 0 where
  pub journal : Journal
  pub write_failed : Bool

abbrev pub unsaved : TransportError
unsaved = invalid "message delivery state could not be saved; restart to recover"

-- `update`: the change is made on a copy, which is kept only once it is on disk. The change also
-- says whether there is anything to write.
unfoldable pub update {ℓ} :
    {T : Type ℓ}
    → (Journal → Result TransportError (Unit {0}))
    → Outbox
    → (Journal → Result TransportError (T × Bool × Journal))
    → Result TransportError T × Outbox
update persist o change = if o.write_failed then (err unsaved, o) else (elim (change o.journal) [
  | err e ↦ (err e, o)
  | ok (value, false, candidate) ↦ (ok value, o)
  | ok (value, true, candidate) ↦ elim (persist candidate) [
    | err e ↦ (err e, record o { write_failed = true })
    | ok written ↦ (ok value, record o { journal = candidate })
  ]
])

-- `cleanup_due`.
unfoldable pub cleanup_due : Entry → ℕ → Bool
cleanup_due entry now = elim entry.cleanup_after [ none ↦ false | some deadline ↦ leb deadline now ]

-- The delay of the nth attempt in seconds: `1 << (n - 1)`, at most 300.
unfoldable pub delay : ℕ → ℕ
delay attempts = min (if ltb (attempts - 1) 64 then 2 ^ (attempts - 1) else u64_max) 300

abbrev pub next_attempt : ℕ → ℕ
next_attempt attempts = saturating_add u32_max attempts 1

abbrev pub next_time : ℕ → ℕ → ℕ
next_time attempts now = saturating_add u64_max now (delay (next_attempt attempts))

-- The code points of a text, and their length in UTF-8.
abbrev pub codes : String → List ℕ
codes String.[] = []
codes (String.◌∷◌ c s) = code c ∷ codes s

unfoldable pub utf8_len : List ℕ → ℕ
utf8_len [] = 0
utf8_len (c ∷ cs) =
    let rest = utf8_len cs in
    (if ltb c 0x80 then 1 else if ltb c 0x800 then 2 else if ltb c 0x10000 then 3 else 4) + rest

abbrev pub is_control : ℕ → Bool
is_control c = ltb c 0x20 || leb 0x7F c && leb c 0x9F

abbrev pub is_id_byte : ℕ → Bool
is_id_byte c =
    leb b'0' c && leb c b'9' || leb b'A' c && leb c b'Z' || leb b'a' c && leb c b'z' || eqb c b'-'

unfoldable pub any {ℓ} : {A : Type ℓ} → (A → Bool) → List A → Bool
any p [] = false
any p (c ∷ cs) = p c || any p cs

-- The key that a peer and a scope share for one content, as the source's tuple.
pub record Reservation : Type 0 where
  pub peer : String
  pub scope : String
  pub content_digest : ℕ

abbrev pub reservation_beq : Reservation → Reservation → Bool
reservation_beq a b =
    a.peer == b.peer && a.scope == b.scope && eqb a.content_digest b.content_digest

pub reservation_beq_iff : (a b : Reservation) → (reservation_beq a b ≡ true) ↔ (a ≡ b)
reservation_beq_iff a b = ground (
  arith,
  string_eq.beq_iff a.peer b.peer,
  string_eq.beq_iff a.scope b.scope,
  eqb_iff a.content_digest b.content_digest,
)

instance abbrev pub reservation_eq : Eq Reservation
reservation_eq = record { beq = reservation_beq; beq_iff = reservation_beq_iff }

abbrev pub reservation : Entry → Reservation
reservation e = record { peer = e.peer; scope = e.scope; content_digest = e.content_digest }

-- A pause stands for a failure that a retry does not mend.
unfoldable pub pause_fits : Bool → Option DeliveryFailure → Bool
pause_fits false failure = true
pause_fits true none = false
pause_fits true (some failure) = not (is_retryable failure)

abbrev pub is_owned_by : Option String → String → Bool
is_owned_by none text = false
is_owned_by (some owner) text = text == owner

-- The tests of `validate` on one entry, but for the two sets.
unfoldable pub is_associated : Option String → Entry → Bool
is_associated owner e =
    let p = e.prepared in
    eqb p.version 1
    && p.recipient == e.peer
    && is_owned_by owner p.owner
    && ltb 0 p.payload_len
    && leb p.payload_len max_payload
    && ltb 0 (utf8_len (codes p.id))
    && leb (utf8_len (codes p.id)) 128
    && not (any (λ c. not (is_id_byte c)) (codes p.id))

-- Reading a public key and printing it is the pkarr library's.
module _ (key_of : String → Option String) where
  unfoldable pub canonical_peer : String → Result TransportError (Unit {0})
  canonical_peer peer = elim (key_of peer) [
    | none ↦ err (invalid "invalid outbox identity")
    | some text ↦ reject_if (not (text == peer)) (invalid "noncanonical outbox identity")
  ]

  unfoldable pub validate_scope : String → String → Result TransportError (Unit {0})
  unfolding canonical_peer utf8_len
  validate_scope peer scope = do
    let length = utf8_len (codes scope)
    reject_if (eqb length 0 || ltb 512 length || any is_control (codes scope))
        (invalid "invalid outbox scope")
    canonical_peer peer

  unfoldable pub check_owner_text : Option String → Result TransportError (Unit {0})
  unfolding canonical_peer
  check_owner_text none = ok tt
  check_owner_text (some owner) = canonical_peer owner

  -- The authentication of a prepared message is the messenger library's.
  module _ (authenticates : PreparedMessage → Bool) where
    unfoldable pub check_entry :
        Option String → Entry → List String → List Reservation → Result TransportError (Unit {0})
    unfolding validate_scope is_associated
    check_entry owner e ids reservations = do
      validate_scope e.peer e.scope
      reject_if (not (pause_fits e.publication_paused e.publication_failure))
          (invalid "invalid paused outbox failure")
      reject_if (not (pause_fits e.cleanup_paused e.cleanup_failure))
          (invalid "invalid paused outbox failure")
      reject_if (not (authenticates e.prepared))
          (invalid "saved encrypted message authentication failed")
      reject_if
          (not (is_associated owner e)
            || contains ids (e.prepared).id
            || contains reservations (reservation e))
          (invalid "invalid outbox resource association")

    -- The loop of `validate`, with the sets of the ids and the reservations seen.
    unfoldable pub check_entries :
        Option String
        → List Entry
        → List String
        → List Reservation
        → Result TransportError (Unit {0})
    unfolding check_entry
    check_entries owner [] ids reservations = ok tt
    check_entries owner (e ∷ rest) ids reservations = do
      check_entry owner e ids reservations
      check_entries owner rest ((e.prepared).id ∷ ids) (reservation e ∷ reservations)

    unfoldable pub validate : Journal → Result TransportError (Unit {0})
    unfolding check_entries check_owner_text
    validate journal = do
      reject_if (not (eqb journal.version version) || ltb max_entries (length journal.entries))
          (invalid "unsupported or oversized outbox journal")
      check_owner_text journal.owner
      check_entries journal.owner journal.entries [] []
