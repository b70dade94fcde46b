-- ===== src/Quoting/Redeemed.antt =====
-- Who may redeem a quote, and how often (swap-provider/src/lib.rs).
use pubky_swap.Prelude.{
  ℕ, ◌≤◌, ◌≡◌, ◌≢◌, inl, inr, refl, true, false, ◌||◌, String, Option, none, some, List, [], ◌∷◌,
  ok, err, arith, nat_eq, eqb_iff, is_some, Bool-cases, Option-cases, Result-cases, ap,
}
use pubky_swap.Map.{lookup, remove, lookup-insert, lookup-remove}
use pubky_swap.Swap.{SwapDirection, direction_eq, direction_beq_iff}
use pubky_swap.Messages.{Uuid, RejectCode}
use pubky_swap.Quoting.{
  IssuedQuote, QuoteBook, is_live, prune, holds, evict, compact, insert_quote, restore_quote,
  same_pubky, check_redeemer, redeem, take_valid_quote,
}
use pubky_swap.Quoting.Expiry.{keep-absent, keep-found, kept, prune_twice}

-- The quote is gone, and its redemption is remembered until `expires_at`.
pub record IsSpent (id : Uuid) (expires_at : ℕ) (book : QuoteBook) : Type 0 where
  pub gone : lookup id book.quotes ≡ none
  pub remembered : lookup id book.redeemed ≡ some expires_at

prune-IsSpent :
    (id : Uuid) (expires_at now : ℕ) (book : QuoteBook)
    → is_live now expires_at ≡ true
    → IsSpent id expires_at book
    → IsSpent id expires_at (prune book now)
unfolding prune
prune-IsSpent id expires_at now book live s = record {
  gone = keep-absent (λ q. is_live now q.expires_at_unix) id book.quotes s.gone;
  remembered = keep-found (is_live now) id expires_at book.redeemed s.remembered live;
}

evict-absent :
    (id : Uuid) (order : List Uuid) (quotes : List (Uuid × IssuedQuote))
    → lookup id quotes ≡ none
    → lookup id (evict order quotes).1 ≡ none
unfolding evict
evict-absent id [] quotes h = h
evict-absent id (oldest ∷ order) quotes h =
    ground (arith, lookup-remove oldest id quotes, evict-absent id order (remove oldest quotes))

pub insert_quote-IsSpent :
    (id : Uuid) (expires_at : ℕ) (book : QuoteBook) (j : Uuid) (quote : IssuedQuote) (now : ℕ)
    → j ≢ id
    → is_live now expires_at ≡ true
    → IsSpent id expires_at book
    → IsSpent id expires_at (insert_quote book j quote now)
unfolding insert_quote
insert_quote-IsSpent id expires_at book j quote now other live s =
    let pruned = prune-IsSpent id expires_at now book live s in
    let room = evict (compact (prune book now)) (prune book now).quotes in
    record {
      gone = ground (
        arith,
        evict-absent id (compact (prune book now)) (prune book now).quotes pruned.gone,
        lookup-insert j id quote room.1,
        eqb_iff j id,
      );
      remembered = pruned.remembered;
    }

spent_not_back :
    (id j : Uuid) (expires_at : ℕ) (book : QuoteBook)
    → (holds book j || is_some (lookup j book.redeemed)) ≡ false
    → IsSpent id expires_at book
    → j ≢ id
spent_not_back id j expires_at book h s e =
    let same : lookup j book.redeemed ≡ some expires_at = rw e s.remembered in ground (arith, same)

pub restore_quote-IsSpent :
    (id : Uuid) (expires_at : ℕ) (book : QuoteBook) (j : Uuid) (quote : IssuedQuote) (now : ℕ)
    → is_live now expires_at ≡ true
    → IsSpent id expires_at book
    → IsSpent id expires_at (restore_quote book j quote now).0
unfolding restore_quote
restore_quote-IsSpent id expires_at book j quote now live s =
    let pruned = prune-IsSpent id expires_at now book live s in
    elim (Bool-cases (holds (prune book now) j || is_some (lookup j (prune book now).redeemed))) [
      | inl known ↦ rw (known, restore_quote) pruned
      | inr unknown ↦
          rw (unknown, restore_quote)
            (insert_quote-IsSpent id expires_at (prune book now) j quote now
              (spent_not_back id j expires_at (prune book now) unknown pruned) live pruned)
    ]

pub spent_not_restored :
    (id : Uuid) (expires_at : ℕ) (book : QuoteBook) (quote : IssuedQuote) (now : ℕ)
    → is_live now expires_at ≡ true
    → IsSpent id expires_at book
    → (restore_quote book id quote now).1 ≡ false
unfolding restore_quote
spent_not_restored id expires_at book quote now live s =
    ground (arith, prune-IsSpent id expires_at now book live s)

module _ (key_of : String → Option ℕ) where
  pub take-IsSpent :
      (id : Uuid) (expires_at : ℕ) (book : QuoteBook) (j : Uuid) (peer : String)
      (direction : SwapDirection) (now : ℕ)
      → is_live now expires_at ≡ true
      → IsSpent id expires_at book
      → IsSpent id expires_at (take_valid_quote key_of book j peer direction now).0
  unfolding take_valid_quote
  take-IsSpent id expires_at book j peer direction now live s =
      let pruned = prune-IsSpent id expires_at now book live s in
      elim (Option-cases (lookup j (prune book now).quotes)) [
        | inl absent ↦ rw (absent, take_valid_quote, redeem) pruned
        | inr (q, held) ↦ elim (Result-cases (check_redeemer key_of q peer direction)) [
          | inr (code, refused) ↦ rw (held, refused, take_valid_quote, redeem) pruned
          | inl (done, passed) ↦ ground (
            arith,
            pruned,
            held,
            passed,
            eqb_iff j id,
            lookup-remove j id (prune book now).quotes,
            lookup-insert j id q.expires_at_unix (prune book now).redeemed,
          )
        ]
      ]

  pub spent_not_taken :
      (id : Uuid) (expires_at : ℕ) (book : QuoteBook) (peer : String) (direction : SwapDirection)
      (now : ℕ)
      → is_live now expires_at ≡ true
      → IsSpent id expires_at book
      → (take_valid_quote key_of book id peer direction now).1 ≡ err RejectCode.quote_expired
  unfolding take_valid_quote
  spent_not_taken id expires_at book peer direction now live s =
      ground (arith, prune-IsSpent id expires_at now book live s)

  check_redeemer-ok :
      (q : IssuedQuote) (peer : String) (direction : SwapDirection)
      → check_redeemer key_of q peer direction ≡ ok tt
      → (same_pubky key_of q.peer peer ≡ true) × (q.direction ≡ direction)
  check_redeemer-ok q peer direction h =
      unfold check_redeemer in ground (arith, direction_beq_iff q.direction direction)

  -- A redemption that succeeds takes a quote that the book held and that has not expired, was
  -- issued to this peer's key and for this direction; the book then remembers it as redeemed.
  pub take_valid_quote-ok :
      (book : QuoteBook) (id : Uuid) (peer : String) (direction : SwapDirection) (now : ℕ)
      (quote : IssuedQuote)
      → (take_valid_quote key_of book id peer direction now).1 ≡ ok quote
      → (lookup id (prune book now).quotes ≡ some quote)
        × (is_live now quote.expires_at_unix ≡ true)
        × (same_pubky key_of quote.peer peer ≡ true)
        × (quote.direction ≡ direction)
        × IsSpent id quote.expires_at_unix (take_valid_quote key_of book id peer direction now).0
  unfolding take_valid_quote
  take_valid_quote-ok book id peer direction now quote h =
      elim (Option-cases (lookup id (prune book now).quotes)) [
        | inl absent ↦ ground (arith, absent)
        | inr (q, held) ↦ elim (Result-cases (check_redeemer key_of q peer direction)) [
          | inr (code, refused) ↦ ground (arith, held, refused)
          | inl (done, passed) ↦
              let live =
                kept (λ x. is_live now x.expires_at_unix) id q book.quotes (unfold prune in held) in
              ground (
                arith,
                held,
                passed,
                live,
                check_redeemer-ok q peer direction passed,
                eqb_iff id id,
                lookup-remove id id (prune book now).quotes,
                lookup-insert id id q.expires_at_unix (prune book now).redeemed,
              )
        ]
      ]

  refused_take :
      (book : QuoteBook) (id : Uuid) (peer : String) (direction : SwapDirection) (now : ℕ)
      (code : RejectCode)
      → (take_valid_quote key_of book id peer direction now).1 ≡ err code
      → (take_valid_quote key_of book id peer direction now).0 ≡ prune book now
  unfolding take_valid_quote
  refused_take book id peer direction now code h =
      elim (Option-cases (lookup id (prune book now).quotes)) [
        | inl absent ↦ rw (absent, take_valid_quote, redeem) refl
        | inr (q, held) ↦ elim (Result-cases (check_redeemer key_of q peer direction)) [
          | inr (refusal, refused) ↦ rw (held, refused, take_valid_quote, redeem) refl
          | inl (done, passed) ↦ ground (arith, held, passed)
        ]
      ]

  -- A refused redemption burns nothing: whoever tried, for whichever quote and direction, any
  -- redemption afterwards ends as it would have without the attempt.
  pub refused_take_burns_nothing :
      (book : QuoteBook) (id : Uuid) (thief : String) (wrong : SwapDirection) (now : ℕ)
      (code : RejectCode) (other : Uuid) (peer : String) (direction : SwapDirection) (later : ℕ)
      → (take_valid_quote key_of book id thief wrong now).1 ≡ err code
      → now ≤ later
      → take_valid_quote key_of
          (take_valid_quote key_of book id thief wrong now).0
          other
          peer
          direction
          later
        ≡ take_valid_quote key_of book other peer direction later
  unfolding take_valid_quote
  refused_take_burns_nothing book id thief wrong now code other peer direction later h k =
      let after = (take_valid_quote key_of book id thief wrong now).0 in
      let same : prune after later ≡ prune book later =
        rw (refused_take book id thief wrong now code h) (prune_twice book now later k) in
      ap (λ b. redeem key_of b other peer direction) same
