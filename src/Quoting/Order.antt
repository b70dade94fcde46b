-- ===== src/Quoting/Order.antt =====
-- The book never holds more than its bound (swap-provider/src/lib.rs).
use pubky_swap.Prelude.{
  ℕ, suc, ◌≤◌, ◌<◌, ◌≡◌, ◌⊎◌, inl, inr, refl, Bool, true, ◌||◌, none, List, [], ◌∷◌, ◌++◌, arith,
  nat_eq, ◌==◌, eqb_iff, keep, contains, is_some, Bool-cases, length, length-keep-le, leb,
}
use pubky_swap.Map.{lookup, insert, remove, lookup-insert, lookup-remove}
use pubky_swap.Messages.{Uuid}
use pubky_swap.Quoting.{
  IssuedQuote, QuoteBook, max_tracked_quotes, is_live, prune, holds, evict, compact, insert_quote,
  restore_quote,
}
use pubky_swap.Quoting.Expiry.{keep-absent}

-- Every quote that is held stands in the order, so that it can be evicted.
pub record IsOrdered (order : List Uuid) (quotes : List (Uuid × IssuedQuote)) : Type 0 where
  pub covers : (id : Uuid) → (lookup id quotes ≡ none) ⊎ (contains order id ≡ true)

evict-IsOrdered :
    (order : List Uuid) (quotes : List (Uuid × IssuedQuote))
    → IsOrdered order quotes
    → IsOrdered (evict order quotes).0 (evict order quotes).1
unfolding evict
evict-IsOrdered [] quotes o = o
evict-IsOrdered (oldest ∷ order) quotes o =
    let smaller : IsOrdered order (remove oldest quotes) = record {
      covers = λ id. ground (arith, o.covers id, lookup-remove oldest id quotes, eqb_iff oldest id);
    } in
    let rest = evict-IsOrdered order (remove oldest quotes) smaller in
    elim (Bool-cases (leb max_tracked_quotes (length quotes))) [
      | inl full ↦ rw (full, evict) rest
      | inr room ↦ rw (room, evict) o
    ]

none_held : (quotes : List (Uuid × IssuedQuote)) → IsOrdered [] quotes → length quotes ≡ 0
unfolding lookup
none_held [] o = refl
none_held ((id, quote) ∷ m) o = ground (arith, o.covers id, eqb_iff id id)

length-evict :
    (order : List Uuid) (quotes : List (Uuid × IssuedQuote))
    → IsOrdered order quotes
    → length (evict order quotes).1 < max_tracked_quotes
unfolding evict
length-evict [] quotes o = omega (arith, none_held quotes o)
length-evict (oldest ∷ order) quotes o =
    let smaller : IsOrdered order (remove oldest quotes) = record {
      covers = λ id. ground (arith, o.covers id, lookup-remove oldest id quotes, eqb_iff oldest id);
    } in
    ground (arith, length-evict order (remove oldest quotes) smaller)

length-insert :
    (id : Uuid) (quote : IssuedQuote) (m : List (Uuid × IssuedQuote))
    → length (insert id quote m) ≤ suc (length m)
unfolding insert
length-insert id quote [] = omega arith
length-insert id quote ((j, w) ∷ m) = ground (arith, length-insert id quote m)

contains-append :
    (order : List Uuid) (new id : Uuid)
    → contains (order ++ new ∷ []) id ≡ (contains order id || new == id)
contains-append [] new id = ground arith
contains-append (j ∷ order) new id = ground (arith, contains-append order new id)

contains-keep :
    (p : Uuid → Bool) (order : List Uuid) (id : Uuid)
    → contains order id ≡ true
    → p id ≡ true
    → contains (keep p order) id ≡ true
contains-keep p [] id h k = cc
contains-keep p (j ∷ order) id h k = ground (arith, contains-keep p order id, eqb_iff j id)

prune-IsOrdered :
    (book : QuoteBook) (now : ℕ)
    → IsOrdered book.order book.quotes
    → IsOrdered (prune book now).order (prune book now).quotes
unfolding prune
prune-IsOrdered book now o = record {
  covers = λ id.
      ground (arith, o.covers id, keep-absent (λ q. is_live now q.expires_at_unix) id book.quotes);
}

compact-IsOrdered :
    (book : QuoteBook) → IsOrdered book.order book.quotes → IsOrdered (compact book) book.quotes
unfolding compact
compact-IsOrdered book o = record {
  covers = λ id. ground (arith, o.covers id, contains-keep (holds book) book.order id);
}

pub insert_quote-IsOrdered :
    (book : QuoteBook) (id : Uuid) (quote : IssuedQuote) (now : ℕ)
    → IsOrdered book.order book.quotes
    → IsOrdered (insert_quote book id quote now).order (insert_quote book id quote now).quotes
      × (length (insert_quote book id quote now).quotes ≤ max_tracked_quotes)
unfolding insert_quote
insert_quote-IsOrdered book id quote now o =
    let pruned = prune book now in
    let ordered = compact-IsOrdered pruned (prune-IsOrdered book now o) in
    let room = evict (compact pruned) pruned.quotes in
    let kept = evict-IsOrdered (compact pruned) pruned.quotes ordered in
    let fits = length-evict (compact pruned) pruned.quotes ordered in
    (
      record {
        covers = λ j. ground (
          arith,
          kept.covers j,
          lookup-insert id j quote room.1,
          contains-append room.0 id j,
          eqb_iff id j,
        );
      },
      omega (arith, length-insert id quote room.1, fits),
    )

-- The order covers the book, and the book is within its bound.
pub record IsBounded (book : QuoteBook) : Type 0 where
  pub ordered : IsOrdered book.order book.quotes
  pub fits : length book.quotes ≤ max_tracked_quotes

pub length-remove-le : (id : Uuid) (m : List (Uuid × IssuedQuote)) → length (remove id m) ≤ length m
unfolding remove
length-remove-le id [] = omega arith
length-remove-le id ((j, q) ∷ m) = ground (arith, length-remove-le id m)

pub prune-IsBounded : (book : QuoteBook) (now : ℕ) → IsBounded book → IsBounded (prune book now)
prune-IsBounded book now b = record {
  ordered = prune-IsOrdered book now b.ordered;
  fits =
      unfold prune in
      omega (
        arith,
        length-keep-le (λ entry. is_live now (entry.1).expires_at_unix) book.quotes,
        b.fits,
      );
}

pub restore_quote-IsBounded :
    (book : QuoteBook) (id : Uuid) (quote : IssuedQuote) (now : ℕ)
    → IsBounded book
    → IsBounded (restore_quote book id quote now).0
unfolding restore_quote
restore_quote-IsBounded book id quote now b =
    let pruned = prune-IsBounded book now b in
    let (ordered, fits) = insert_quote-IsOrdered (prune book now) id quote now pruned.ordered in
    elim (Bool-cases (holds (prune book now) id || is_some (lookup id (prune book now).redeemed))) [
      | inl known ↦ rw (known, restore_quote) pruned
      | inr unknown ↦ rw (unknown, restore_quote) (record { ordered = ordered; fits = fits })
    ]
