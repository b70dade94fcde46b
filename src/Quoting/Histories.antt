-- ===== src/Quoting/Histories.antt =====
-- Whole histories of the quote book: any sequence of its operations (swap-provider/src/lib.rs).
use pubky_swap.Prelude.{
  ℕ, ◌≤◌, ◌≡◌, ◌≢◌, inl, inr, refl, true, false, String, Option, List, [], ◌∷◌, ok, err, arith,
  nat_eq, Option-cases, Result-cases, All, length,
}
use pubky_swap.Map.{lookup, lookup-remove}
use pubky_swap.Swap.{SwapDirection}
use pubky_swap.Messages.{Uuid, RejectCode}
use pubky_swap.Quoting.{
  IssuedQuote, QuoteBook, empty_book, max_tracked_quotes, is_live, prune, insert_quote,
  restore_quote, check_redeemer, redeem, take_valid_quote,
}
use pubky_swap.Quoting.Redeemed.{
  IsSpent, insert_quote-IsSpent, restore_quote-IsSpent, take-IsSpent, spent_not_taken,
  spent_not_restored, take_valid_quote-ok,
}
use pubky_swap.Quoting.Order.{
  IsBounded, prune-IsBounded, insert_quote-IsOrdered, length-remove-le, restore_quote-IsBounded,
}

-- The calls that change the book: a quote issued, redeemed, or taken back.
pub data Event : Type 0 where
  issues : Uuid → IssuedQuote → ℕ → Event
  takes : Uuid → String → SwapDirection → ℕ → Event
  takes_back : Uuid → IssuedQuote → ℕ → Event

-- An event before the expiry, that does not issue a new quote under the same id.
abbrev pub IsBefore : Uuid → ℕ → Event → Type 0
IsBefore id expires_at (issues j quote now) = (j ≢ id) × (is_live now expires_at ≡ true)
IsBefore id expires_at (takes j peer direction now) = is_live now expires_at ≡ true
IsBefore id expires_at (takes_back j quote now) = is_live now expires_at ≡ true

module _ (key_of : String → Option ℕ) where
  pub book_step : QuoteBook → Event → QuoteBook
  book_step book (issues id quote now) = insert_quote book id quote now
  book_step book (takes id peer direction now) =
      (take_valid_quote key_of book id peer direction now).0
  book_step book (takes_back id quote now) = (restore_quote book id quote now).0

  pub book_run : QuoteBook → List Event → QuoteBook
  book_run book [] = book
  book_run book (e ∷ es) = book_run (book_step book e) es

  take-IsBounded :
      (book : QuoteBook) (id : Uuid) (peer : String) (direction : SwapDirection) (now : ℕ)
      → IsBounded book
      → IsBounded (take_valid_quote key_of book id peer direction now).0
  unfolding take_valid_quote
  take-IsBounded book id peer direction now b =
      let pruned = prune-IsBounded book now b in
      elim (Option-cases (lookup id (prune book now).quotes)) [
        | inl absent ↦ rw (absent, take_valid_quote, redeem) pruned
        | inr (q, held) ↦ elim (Result-cases (check_redeemer key_of q peer direction)) [
          | inr (code, refused) ↦ rw (held, refused, take_valid_quote, redeem) pruned
          | inl (done, passed) ↦
              rw (held, passed, take_valid_quote, redeem)
                (record {
                  ordered = record {
                    covers = λ j. ground (
                      arith,
                      pruned.ordered.covers j,
                      lookup-remove id j (prune book now).quotes,
                    );
                  };
                  fits = omega (arith, length-remove-le id (prune book now).quotes, pruned.fits);
                })
        ]
      ]

  book_step-IsBounded :
      (book : QuoteBook) (e : Event) → IsBounded book → IsBounded (book_step book e)
  unfolding book_step
  book_step-IsBounded book (issues id quote now) b =
      let (ordered, fits) = insert_quote-IsOrdered book id quote now b.ordered in
      record { ordered = ordered; fits = fits }
  book_step-IsBounded book (takes id peer direction now) b =
      take-IsBounded book id peer direction now b
  book_step-IsBounded book (takes_back id quote now) b = restore_quote-IsBounded book id quote now b

  book_run-IsBounded :
      (book : QuoteBook) (es : List Event) → IsBounded book → IsBounded (book_run book es)
  unfolding book_run
  book_run-IsBounded book [] b = b
  book_run-IsBounded book (e ∷ es) b =
      book_run-IsBounded (book_step book e) es (book_step-IsBounded book e b)

  -- After any history from an empty book it holds ten thousand quotes at most: each new quote
  -- finds room, since every quote that is held stands in the order that is evicted from.
  pub book_run_fits :
      (es : List Event) → length (book_run empty_book es).quotes ≤ max_tracked_quotes
  book_run_fits es =
      (book_run-IsBounded empty_book es (
        unfold lookup in
        record { ordered = record { covers = λ id. inl refl }; fits = omega arith })).fits

  book_run-IsSpent :
      (id : Uuid) (expires_at : ℕ) (book : QuoteBook) (es : List Event)
      → All (IsBefore id expires_at) es
      → IsSpent id expires_at book
      → IsSpent id expires_at (book_run book es)
  unfolding book_run book_step
  book_run-IsSpent id expires_at book [] h s = s
  book_run-IsSpent id expires_at book (issues j quote now ∷ es) h s =
      book_run-IsSpent id expires_at (insert_quote book j quote now) es h.1
        (insert_quote-IsSpent id expires_at book j quote now h.0.0 h.0.1 s)
  book_run-IsSpent id expires_at book (takes j peer direction now ∷ es) h s =
      book_run-IsSpent id expires_at (take_valid_quote key_of book j peer direction now).0 es h.1
        (take-IsSpent key_of id expires_at book j peer direction now h.0 s)
  book_run-IsSpent id expires_at book (takes_back j quote now ∷ es) h s =
      book_run-IsSpent id expires_at (restore_quote book j quote now).0 es h.1
        (restore_quote-IsSpent id expires_at book j quote now h.0 s)

  -- A quote is redeemed once: after a redemption that succeeded, and any later events before the
  -- quote's expiry that do not issue another quote under its id, nobody redeems it again, and a
  -- signed copy of it is not taken back.
  pub redeemed_once :
      (book : QuoteBook) (id : Uuid) (peer other : String) (direction again : SwapDirection)
      (now later : ℕ) (quote copy : IssuedQuote) (es : List Event)
      → (take_valid_quote key_of book id peer direction now).1 ≡ ok quote
      → All (IsBefore id quote.expires_at_unix) es
      → is_live later quote.expires_at_unix ≡ true
      → ((take_valid_quote key_of
            (book_run (take_valid_quote key_of book id peer direction now).0 es)
            id
            other
            again
            later).1
          ≡ err RejectCode.quote_expired)
        × ((restore_quote
              (book_run (take_valid_quote key_of book id peer direction now).0 es)
              id
              copy
              later).1
            ≡ false)
  redeemed_once book id peer other direction again now later quote copy es h before live =
      let after = (take_valid_quote key_of book id peer direction now).0 in
      let (held, alive, key, way, redeemed) =
        take_valid_quote-ok key_of book id peer direction now quote h in
      let spent = book_run-IsSpent id quote.expires_at_unix after es before redeemed in
      (
        spent_not_taken key_of id quote.expires_at_unix (book_run after es) other again later live
            spent,
        spent_not_restored id quote.expires_at_unix (book_run after es) copy later live spent,
      )
