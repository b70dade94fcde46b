-- ===== src/Onchain/Preimages.antt =====
-- `extract_preimage` of swap-common/src/onchain.rs: the preimage that a claim reveals. A
-- transaction enters by what the function reads of it; SHA-256 is not part of the source.
use pubky_swap.Prelude.{
  ℕ, ◌≡◌, ◌↔◌, inl, inr, Bool, true, ◌&&◌, Option, none, some, List, [], ◌∷◌, arith, length, eqb,
  if◌then◌else◌, Eq, ◌==◌, eqb_iff, Bool-cases, Option-cases, Any, is_some,
}
use pubky_swap.Chain.{Txid, OutPoint}

abbrev pub outpoint_beq : OutPoint → OutPoint → Bool
outpoint_beq a b = eqb a.txid b.txid && eqb a.vout b.vout

pub outpoint_beq_iff : (a b : OutPoint) → (outpoint_beq a b ≡ true) ↔ (a ≡ b)
outpoint_beq_iff a b = ground (arith, eqb_iff a.txid b.txid, eqb_iff a.vout b.vout)

instance abbrev pub outpoint_eq : Eq OutPoint
outpoint_eq = record { beq = outpoint_beq; beq_iff = outpoint_beq_iff }

-- A byte string, by its bytes.
abbrev pub Bytes : Type 0
Bytes = List ℕ

-- A hash is its 256-bit number.
abbrev pub PaymentHash : Type 0
PaymentHash = ℕ

pub record TxIn : Type 0 where
  pub previous_output : OutPoint
  pub witness : List Bytes

pub record Transaction : Type 0 where
  pub txid : Txid
  pub input : List TxIn

module _ (sha256 : Bytes → PaymentHash) where
  unfoldable pub is_preimage : PaymentHash → Bytes → Bool
  is_preimage payment_hash element = eqb (length element) 32 && eqb (sha256 element) payment_hash

  unfoldable pub find_element : PaymentHash → List Bytes → Option Bytes
  find_element payment_hash [] = none
  find_element payment_hash (element ∷ rest) =
      if is_preimage payment_hash element then some element else find_element payment_hash rest

  unfoldable pub find_in_inputs : OutPoint → PaymentHash → List TxIn → Option Bytes
  find_in_inputs htlc payment_hash [] = none
  find_in_inputs htlc payment_hash (i ∷ rest) =
      let later = find_in_inputs htlc payment_hash rest in
      if i.previous_output == htlc
      then (elim (find_element payment_hash i.witness) [ some p ↦ some p | none ↦ later ])
      else later

  unfoldable pub extract_preimage : Transaction → OutPoint → PaymentHash → Option Bytes
  unfolding find_in_inputs
  extract_preimage tx htlc payment_hash = find_in_inputs htlc payment_hash tx.input

  -- The input spends the HTLC and shows the preimage.
  abbrev pub Reveals : OutPoint → PaymentHash → TxIn → Type 0
  Reveals htlc h i = (i.previous_output ≡ htlc) × Any (λ e. is_preimage h e ≡ true) i.witness

  find_element_sound :
      (h : PaymentHash) (p : Bytes) (xs : List Bytes)
      → find_element h xs ≡ some p
      → is_preimage h p ≡ true
  unfolding find_element
  find_element_sound h p [] e = cc
  find_element_sound h p (x ∷ xs) e = elim (Bool-cases (is_preimage h x)) [
    | inl here ↦ ground (arith, here)
    | inr later ↦ ground (arith, later, find_element_sound h p xs)
  ]

  find_element_complete :
      (h : PaymentHash) (xs : List Bytes)
      → Any (λ e. is_preimage h e ≡ true) xs
      → is_some (find_element h xs) ≡ true
  unfolding find_element
  find_element_complete h [] a = absurd a
  find_element_complete h (x ∷ xs) a = elim (Bool-cases (is_preimage h x)) [
    | inl here ↦ ground (arith, here)
    | inr later ↦ ground (arith, later, find_element_complete h xs)
  ]

  find_in_inputs_sound :
      (htlc : OutPoint) (h : PaymentHash) (p : Bytes) (is : List TxIn)
      → find_in_inputs htlc h is ≡ some p
      → is_preimage h p ≡ true
  unfolding find_in_inputs
  find_in_inputs_sound htlc h p [] e = cc
  find_in_inputs_sound htlc h p (i ∷ is) e = elim (Option-cases (find_element h i.witness)) [
    | inl hidden ↦ ground (arith, hidden, find_in_inputs_sound htlc h p is)
    | inr (q, shown) ↦
        ground (arith, shown, find_element_sound h q i.witness, find_in_inputs_sound htlc h p is)
  ]

  find_in_inputs_complete :
      (htlc : OutPoint) (h : PaymentHash) (is : List TxIn)
      → Any (Reveals htlc h) is
      → is_some (find_in_inputs htlc h is) ≡ true
  unfolding find_in_inputs
  find_in_inputs_complete htlc h [] a = absurd a
  find_in_inputs_complete htlc h (i ∷ is) a = elim (Option-cases (find_element h i.witness)) [
    | inl hidden ↦ ground (
      arith,
      hidden,
      outpoint_beq_iff i.previous_output htlc,
      find_element_complete h i.witness,
      find_in_inputs_complete htlc h is,
    )
    | inr (q, shown) ↦
        ground
          (arith, shown, outpoint_beq_iff i.previous_output htlc, find_in_inputs_complete htlc h is)
  ]

  -- What is extracted is a preimage of the payment hash, of 32 bytes; and a transaction with an
  -- input that spends the HTLC and shows one in its witness always yields one.
  pub extract_preimage_lem :
      (tx : Transaction) (htlc : OutPoint) (h : PaymentHash) (p : Bytes)
      → (extract_preimage tx htlc h ≡ some p → (length p ≡ 32) × (sha256 p ≡ h))
        × (Any (Reveals htlc h) tx.input → is_some (extract_preimage tx htlc h) ≡ true)
  unfolding extract_preimage is_preimage
  extract_preimage_lem tx htlc h p = (
    λ e. ground (
      arith,
      find_in_inputs_sound htlc h p tx.input e,
      eqb_iff (length p) 32,
      eqb_iff (sha256 p) h,
    ),
    find_in_inputs_complete htlc h tx.input,
  )

  pub extract_preimage-is_preimage :
      (tx : Transaction) (htlc : OutPoint) (h : PaymentHash) (p : Bytes)
      → extract_preimage tx htlc h ≡ some p
      → is_preimage h p ≡ true
  unfolding extract_preimage
  extract_preimage-is_preimage tx htlc h p e = find_in_inputs_sound htlc h p tx.input e
