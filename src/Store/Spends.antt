-- ===== src/Store/Spends.antt =====
-- The list of our own transactions on a record (swap-common/src/store.rs).
use pubky_swap.Prelude.{
  ℕ, suc, ◌≤◌, ◌≡◌, refl, inl, inr, true, false, ◌||◌, List, [], ◌∷◌, ◌++◌, arith, contains, nat_eq,
  eqb_iff, eqb_refl, ltb, length, length-append, drop, Bool-cases,
}
use pubky_swap.Chain.{Txid}
use pubky_swap.Store.{SwapRecord, max_tracked_our_spends, push_spend, note_our_spend, our_spends}

-- No transaction stands in the list twice.
abbrev pub Distinct : List Txid → Type 0
Distinct [] = Unit
Distinct (x ∷ xs) = (contains xs x ≡ false) × Distinct xs

-- Within the bound, and free of repeats.
abbrev pub IsTracked : List Txid → Type 0
IsTracked txids = (length txids ≤ max_tracked_our_spends) × Distinct txids

contains-append :
    (xs ys : List Txid) (x : Txid) → contains (xs ++ ys) x ≡ contains xs x || contains ys x
contains-append [] ys x = refl
contains-append (y ∷ xs) ys x = ground (arith, contains-append xs ys x)

Distinct-push :
    (xs : List Txid) (x : Txid) → contains xs x ≡ false → Distinct xs → Distinct (xs ++ x ∷ [])
Distinct-push [] x h d = (refl, tt)
Distinct-push (y ∷ xs) x h d = (
  ground (arith, contains-append xs (x ∷ []) y, h, d.0, eqb_iff x y, eqb_iff y x),
  Distinct-push xs x (ground (arith, h)) d.1,
)

Distinct-drop : (xs : List Txid) → Distinct xs → Distinct (drop 1 xs)
Distinct-drop [] d = tt
Distinct-drop (x ∷ xs) d = d.1

length-drop : (xs : List Txid) (n : ℕ) → length xs ≤ suc n → length (drop 1 xs) ≤ n
length-drop [] n h = omega arith
length-drop (x ∷ xs) n h = omega (arith, h)

push_spend-IsTracked :
    (txids : List Txid) (txid : Txid) → IsTracked txids → IsTracked (push_spend txids txid)
unfolding push_spend
push_spend-IsTracked txids txid (short, distinct) = elim (Bool-cases (contains txids txid)) [
  | inl known ↦ rw known (short, distinct)
  | inr new ↦
      let longer = length-append txids (txid ∷ []) in
      let pushed = Distinct-push txids txid new distinct in
      rw new (elim (Bool-cases (ltb max_tracked_our_spends (length (txids ++ txid ∷ [])))) [
        | inl full ↦ rw full (
          length-drop (txids ++ txid ∷ []) max_tracked_our_spends (omega (arith, longer, short)),
          Distinct-drop (txids ++ txid ∷ []) pushed,
        )
        | inr room ↦ rw room (ground (arith, room), pushed)
      ])
]

contains-last : (xs : List Txid) (x : Txid) → contains (xs ++ x ∷ []) x ≡ true
contains-last [] x = ground (arith, eqb_refl x)
contains-last (y ∷ xs) x = ground (arith, contains-last xs x)

-- Noting a spend keeps the list of our transactions within its bound of sixteen and free of
-- repeats; and the spend is then among those that a resumed driver takes for its own.
pub note_our_spend-IsTracked :
    (rec : SwapRecord) (txid : Txid)
    → IsTracked rec.our_spend_txids
    → IsTracked (note_our_spend rec txid).our_spend_txids
      × (contains (our_spends (note_our_spend rec txid)) txid ≡ true)
unfolding note_our_spend our_spends
note_our_spend-IsTracked rec txid h = (
  push_spend-IsTracked rec.our_spend_txids txid h,
  contains-last (push_spend rec.our_spend_txids txid) txid,
)
