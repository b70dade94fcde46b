-- ===== src/Submarine/Create.antt =====
-- Creating a submarine swap (swap-provider/src/submarine.rs) from the client's invoice.
use pubky_swap.Prelude.{
  ℕ, ◌+◌, ◌-◌, ◌*◌, ◌/◌, ◌%◌, ◌≤◌, ◌<◌, ◌≡◌, inl, inr, Bool, true, not, String, some, Result, ok,
  ◌>>=◌, ◌>>◌, reject_if, ok_or, map_err, checked_add, u64_max, eqb, arith, Result-cases,
}
use pubky_swap.Onchain.Preimages.{PaymentHash}
use pubky_swap.Timelock.{
  TimelockParams, check_submarine_invoice_cltv, check_submarine_before_pay, submarine_cltv_budget,
}
use pubky_swap.Timelock.Submarine.{checked_invoice_can_be_paid}
use pubky_swap.Messages.{RejectCode, invalid_destination}
use pubky_swap.Submarine.{SubmarineSwap}

-- `DecodedInvoice` of lightning/src/lib.rs.
pub record DecodedInvoice : Type 0 where
  pub payment_hash : PaymentHash
  pub amount_msat : ℕ
  pub min_final_cltv_expiry : ℕ
  pub amount_is_explicit : Bool
  pub expires_at_unix : ℕ

-- The reasons of a refusal are left out.
pub data CreateError : Type 0 where
  decode_invoice : String → CreateError
  refusal : RejectCode → CreateError
  amount_overflows : CreateError

abbrev pub refuse_invoice : CreateError
refuse_invoice = refusal invalid_destination

-- The node's decoding of the invoice is an argument.
unfoldable pub init_submarine_swap :
    Result String DecodedInvoice
    → ℕ
    → ℕ
    → ℕ
    → ℕ
    → ℕ
    → ℕ
    → TimelockParams
    → Result CreateError SubmarineSwap
init_submarine_swap decoding quoted provider_fee fee_rate max_routing_fee tip timeout timelock = do
  decoded ← map_err decode_invoice decoding
  reject_if (not decoded.amount_is_explicit) refuse_invoice
  reject_if (not (eqb (decoded.amount_msat % 1_000) 0)) refuse_invoice
  let amount = decoded.amount_msat / 1_000
  reject_if (not (eqb amount quoted)) refuse_invoice
  map_err (λ violation. refuse_invoice)
      (check_submarine_invoice_cltv tip timeout decoded.min_final_cltv_expiry timelock)
  onchain ← ok_or (checked_add u64_max amount provider_fee) amount_overflows
  ok (record {
    payment_hash = decoded.payment_hash;
    onchain_amount_sat = onchain;
    fee_rate_sat_vb = fee_rate;
    timeout_height = timeout;
    max_routing_fee_msat = max_routing_fee;
    timelock = timelock;
  })

-- What an invoice that is taken agrees with, and what becomes of it.
taken_terms :
    (decoded : DecodedInvoice) (swap : SubmarineSwap) (quoted fee rate max_fee tip timeout : ℕ)
    (timelock : TimelockParams)
    → init_submarine_swap (ok decoded) quoted fee rate max_fee tip timeout timelock ≡ ok swap
    → (decoded.amount_is_explicit ≡ true)
      × (decoded.amount_msat ≡ quoted * 1_000)
      × (swap.onchain_amount_sat ≡ quoted + fee)
      × (quoted + fee ≤ u64_max)
      × (swap.payment_hash ≡ decoded.payment_hash)
      × (swap.timeout_height ≡ timeout)
      × (swap.timelock ≡ timelock)
      × (check_submarine_invoice_cltv tip timeout decoded.min_final_cltv_expiry timelock ≡ ok tt)
unfolding init_submarine_swap
taken_terms decoded swap quoted fee rate max_fee tip timeout p e =
    elim (Result-cases (check_submarine_invoice_cltv tip timeout decoded.min_final_cltv_expiry p)) [
      | inr (violation, bad) ↦ ground (arith, bad)
      | inl (fits, good) ↦ ground (arith, good)
    ]

-- A swap is created only from an invoice for exactly the quoted amount, to the millisatoshi; it
-- locks that amount and the fee, without overflow, on the invoice's hash; and at the tip of its
-- creation the gate before the payment passes, with a limit on the outgoing HTLC that is above
-- what the invoice demands.
pub init_submarine_swap-ok :
    (decoded : DecodedInvoice) (swap : SubmarineSwap) (quoted fee rate max_fee tip timeout : ℕ)
    (timelock : TimelockParams)
    → init_submarine_swap (ok decoded) quoted fee rate max_fee tip timeout timelock ≡ ok swap
    → (decoded.amount_is_explicit ≡ true)
      × (decoded.amount_msat ≡ quoted * 1_000)
      × (swap.onchain_amount_sat ≡ quoted + fee)
      × (quoted + fee ≤ u64_max)
      × (swap.payment_hash ≡ decoded.payment_hash)
      × (check_submarine_before_pay tip swap.timeout_height swap.timelock ≡ ok tt)
      × ((limit : ℕ) × (submarine_cltv_budget tip swap.timeout_height swap.timelock ≡ some limit)
          × (decoded.min_final_cltv_expiry < limit))
init_submarine_swap-ok decoded swap quoted fee rate max_fee tip timeout p e =
    let (explicit, amount, locked, fits, hash, height, params, taken) =
      taken_terms decoded swap quoted fee rate max_fee tip timeout p e in
    let (gate, budget, above) =
      checked_invoice_can_be_paid tip timeout decoded.min_final_cltv_expiry p taken in
    (
      explicit,
      amount,
      locked,
      fits,
      hash,
      rw (height, params) gate,
      (timeout - tip - p.min_claim_window_blocks, rw (height, params) budget, above),
    )
