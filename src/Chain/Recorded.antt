-- ===== src/Chain/Recorded.antt =====
-- `select_recorded_funding` of swap-common/src/chain.rs: which output of a script's history a
-- resumed driver takes for its own funding. `sort_by` is the standard library's stable sort, by
-- the source's comparison.
use pubky_swap.Prelude.{
  ℕ, ◌≡◌, ◌↔◌, ◌⊎◌, inl, inr, Bool, true, false, ◌&&◌, ◌||◌, String, Option, none, some, List, [],
  ◌∷◌, arith, Result, ok, ◌>>=◌, keep, eqb, ltb, leb, eqb_iff, if◌then◌else◌, is_some, unwrap_or,
  Any, Bool-cases, Option-cases, Result-cases,
}
use pubky_swap.Chain.{Txid, OutPoint}
use pubky_swap.Onchain.Preimages.{Transaction, PaymentHash, Bytes, extract_preimage}

pub record HistoricalOutput : Type 0 where
  pub outpoint : OutPoint
  pub value_sat : ℕ
  pub confirmations : ℕ
  pub spent_by : Option Txid

-- `a` comes before `b`, or ties with it: deepest first, then by transaction and index.
unfoldable pub stands_before : HistoricalOutput → HistoricalOutput → Bool
stands_before a b =
    ltb b.confirmations a.confirmations
    || eqb a.confirmations b.confirmations
      && (ltb a.outpoint.txid b.outpoint.txid
          || eqb a.outpoint.txid b.outpoint.txid && leb a.outpoint.vout b.outpoint.vout)

unfoldable pub place : HistoricalOutput → List HistoricalOutput → List HistoricalOutput
place a [] = a ∷ []
place a (b ∷ rest) = if stands_before a b then a ∷ b ∷ rest else b ∷ place a rest

unfoldable pub sort_by_depth : List HistoricalOutput → List HistoricalOutput
sort_by_depth [] = []
sort_by_depth (a ∷ rest) = place a (sort_by_depth rest)

-- `find_spend` of the chain backend, by outpoint.
abbrev pub FindSpend : Type 0
FindSpend = OutPoint → Result String (Option Transaction)

module _ (sha256 : Bytes → PaymentHash) where
  unfoldable pub is_claimed_by : Option Transaction → OutPoint → PaymentHash → Bool
  is_claimed_by none outpoint payment_hash = false
  is_claimed_by (some tx) outpoint payment_hash =
      is_some (extract_preimage sha256 tx outpoint payment_hash)

  -- The first candidate whose spend reveals the preimage.
  unfoldable pub find_claimed :
      FindSpend → PaymentHash → List HistoricalOutput → Result String (Option OutPoint)
  find_claimed find_spend payment_hash [] = ok none
  find_claimed find_spend payment_hash (c ∷ rest) = do
    spend ← find_spend c.outpoint
    let later = find_claimed find_spend payment_hash rest
    if is_claimed_by spend c.outpoint payment_hash then ok (some c.outpoint) else later

  unfoldable pub choose :
      FindSpend → PaymentHash → List HistoricalOutput → Result String (Option OutPoint)
  unfolding find_claimed
  choose find_spend payment_hash [] = ok none
  choose find_spend payment_hash (c ∷ []) = ok (some c.outpoint)
  choose find_spend payment_hash (c ∷ d ∷ rest) = do
    claimed ← find_claimed find_spend payment_hash (c ∷ d ∷ rest)
    ok (some (unwrap_or claimed c.outpoint))

  unfoldable pub select_recorded_funding :
      FindSpend → PaymentHash → ℕ → List HistoricalOutput → Result String (Option OutPoint)
  unfolding choose
  select_recorded_funding find_spend payment_hash expected history =
      choose find_spend payment_hash (sort_by_depth (keep (λ h. eqb h.value_sat expected) history))

  -- The output's spend reveals the preimage.
  abbrev pub IsClaimed : FindSpend → PaymentHash → OutPoint → Type 0
  IsClaimed find_spend h op =
      (tx : Transaction) × (find_spend op ≡ ok (some tx))
      × (is_some (extract_preimage sha256 tx op h) ≡ true)

  find_claimed_sound :
      (find_spend : FindSpend) (h : PaymentHash) (op : OutPoint) (cs : List HistoricalOutput)
      → find_claimed find_spend h cs ≡ ok (some op)
      → IsClaimed find_spend h op × Any (λ c. c.outpoint ≡ op) cs
  unfolding find_claimed is_claimed_by
  find_claimed_sound find_spend h op [] e = cc
  find_claimed_sound find_spend h op (c ∷ cs) e = elim (Result-cases (find_spend c.outpoint)) [
    | inr (x, lost) ↦ ground (arith, lost)
    | inl (none, unspent) ↦ ground (arith, unspent, find_claimed_sound find_spend h op cs)
    | inl (some tx, spent) ↦ elim (Option-cases (extract_preimage sha256 tx c.outpoint h)) [
      | inl hidden ↦ ground (arith, spent, hidden, find_claimed_sound find_spend h op cs)
      | inr (p, shown) ↦
          let same : c.outpoint ≡ op = ground (arith, spent, shown) in
          let shows : IsClaimed find_spend h c.outpoint = (tx, spent, ground (arith, shown)) in
          (rw same at shows, inl same)
    ]
  ]

  find_claimed_complete :
      (find_spend : FindSpend) (h : PaymentHash) (cs : List HistoricalOutput)
      → find_claimed find_spend h cs ≡ ok none
      → Any (λ c. IsClaimed find_spend h c.outpoint) cs
      → ⊥
  unfolding find_claimed is_claimed_by
  find_claimed_complete find_spend h [] e a = a
  find_claimed_complete find_spend h (c ∷ cs) e (inl (tx, spent, shown)) =
      ground (arith, spent, shown)
  find_claimed_complete find_spend h (c ∷ cs) e (inr a) =
      elim (Result-cases (find_spend c.outpoint)) [
        | inr (x, lost) ↦ ground (arith, lost)
        | inl (spend, found) ↦ elim (Bool-cases (is_claimed_by spend c.outpoint h)) [
          | inl claimed ↦ ground (arith, found, claimed)
          | inr other ↦ ground (arith, found, other, find_claimed_complete find_spend h cs)
        ]
      ]

module _ (Q : HistoricalOutput → Type 0) where
  Any-place :
      (a : HistoricalOutput) (xs : List HistoricalOutput) → Any Q (place a xs) ↔ (Q a ⊎ Any Q xs)
  unfolding place
  Any-place a [] = ground arith
  Any-place a (x ∷ xs) = elim (Bool-cases (stands_before a x)) [
    | inl before ↦ ground (arith, before)
    | inr after ↦ ground (arith, after, Any-place a xs)
  ]

  Any-sort_by_depth : (xs : List HistoricalOutput) → Any Q (sort_by_depth xs) ↔ Any Q xs
  unfolding sort_by_depth
  Any-sort_by_depth [] = ground arith
  Any-sort_by_depth (x ∷ xs) = ground (arith, Any-place x (sort_by_depth xs), Any-sort_by_depth xs)

  -- What survives the filter pays the expected amount.
  Any-keep :
      (expected : ℕ) (xs : List HistoricalOutput)
      → Any Q (keep (λ h. eqb h.value_sat expected) xs)
        ↔ Any (λ h. Q h × (h.value_sat ≡ expected)) xs
  Any-keep expected [] = ground arith
  Any-keep expected (x ∷ xs) = elim (Bool-cases (eqb x.value_sat expected)) [
    | inl pays ↦ ground (arith, pays, eqb_iff x.value_sat expected, Any-keep expected xs)
    | inr other ↦ ground (arith, other, eqb_iff x.value_sat expected, Any-keep expected xs)
  ]

Any-twice :
    (P : HistoricalOutput → Type 0) (xs : List HistoricalOutput)
    → Any P xs
    → Any (λ x. P x × P x) xs
Any-twice P [] a = a
Any-twice P (x ∷ xs) (inl p) = inl (p, p)
Any-twice P (x ∷ xs) (inr a) = inr (Any-twice P xs a)

module _ (sha256 : Bytes → PaymentHash) (find_spend : FindSpend) (h : PaymentHash) where
  choose-some :
      (op : OutPoint) (cs : List HistoricalOutput)
      → choose sha256 find_spend h cs ≡ ok (some op)
      → Any (λ c. c.outpoint ≡ op) cs
        × (Any (λ c. IsClaimed sha256 find_spend h c.outpoint) cs
            → IsClaimed sha256 find_spend h op)
  unfolding choose
  choose-some op [] e = cc
  choose-some op (c ∷ []) e =
      let same : c.outpoint ≡ op = cc in
      (inl same, λ a. elim a [ inl claimed ↦ rw same at claimed | inr beyond ↦ absurd beyond ])
  choose-some op (c ∷ d ∷ rest) e =
      let cs = c ∷ d ∷ rest in
      elim (Result-cases (find_claimed sha256 find_spend h cs)) [
        | inr (x, lost) ↦ ground (arith, lost)
        | inl (some claimed, found) ↦
            let same : claimed ≡ op = ground (arith, found) in
            let (is, at) = find_claimed_sound sha256 find_spend h op cs (rw same at found) in
            (at, λ a. is)
        | inl (none, silent) ↦
            let same : c.outpoint ≡ op = ground (arith, silent) in
            (inl same, λ a. absurd (find_claimed_complete sha256 find_spend h cs silent a))
      ]

  choose-none :
      (P : HistoricalOutput → Type 0) (cs : List HistoricalOutput)
      → choose sha256 find_spend h cs ≡ ok none
      → Any P cs
      → ⊥
  unfolding choose
  choose-none P [] e a = a
  choose-none P (c ∷ []) e a = cc
  choose-none P (c ∷ d ∷ rest) e a =
      elim (Result-cases (find_claimed sha256 find_spend h (c ∷ d ∷ rest))) [
        | inr (x, lost) ↦ ground (arith, lost)
        | inl (claimed, found) ↦ ground (arith, found)
      ]

  -- A selected output stands in the history and pays the expected amount; it is one whose spend
  -- reveals the preimage whenever the history has such an output among those that pay the amount;
  -- and nothing is selected only where no output of the history pays it.
  pub select_recorded_funding_lem :
      (op : OutPoint) (expected : ℕ) (history : List HistoricalOutput)
      → let selected = select_recorded_funding sha256 find_spend h expected history in
        (selected ≡ ok (some op)
          → Any (λ c. (c.outpoint ≡ op) × (c.value_sat ≡ expected)) history
            × (Any
                  (λ c. IsClaimed sha256 find_spend h c.outpoint × (c.value_sat ≡ expected))
                  history
                → IsClaimed sha256 find_spend h op))
        × (selected ≡ ok none → ¬ Any (λ c. c.value_sat ≡ expected) history)
  unfolding select_recorded_funding
  select_recorded_funding_lem op expected history =
      let cs = keep (λ c. eqb c.value_sat expected) history in
      (
        λ e.
            let (names, claims) = choose-some op (sort_by_depth cs) e in
            (
              (Any-keep (λ c. c.outpoint ≡ op) expected history).0
                  ((Any-sort_by_depth (λ c. c.outpoint ≡ op) cs).0 names),
              λ a. claims (
                  (Any-sort_by_depth (λ c. IsClaimed sha256 find_spend h c.outpoint) cs).1 (
                    (Any-keep (λ c. IsClaimed sha256 find_spend h c.outpoint) expected history).1
                      a)),
            ),
        λ e a.
            choose-none (λ c. c.value_sat ≡ expected) (sort_by_depth cs) e
              ((Any-sort_by_depth (λ c. c.value_sat ≡ expected) cs).1 (
                (Any-keep (λ c. c.value_sat ≡ expected) expected history).1
                  (Any-twice (λ c. c.value_sat ≡ expected) history a))),
      )
