-- ===== src/Validate/Invoices.antt =====
-- The hold invoice of a reverse swap, and the expiry that a provider gives it
-- (swap-common/src/validate.rs, swap-common/src/timelock.rs).
use pubky_swap.Prelude.{ℕ, ◌+◌, ◌*◌, ◌≤◌, ◌<◌, max, ◌≡◌, ◌↔◌, ◌⊎◌, true, ok, err, arith, u64_max}
use pubky_swap.Timelock.{reverse_invoice_min_expiry_secs}
use pubky_swap.Messages.{Quote}
use pubky_swap.Validate.{
  ClientPolicy, DecodedHoldInvoice, validate_hold_invoice, invoice_expires_too_soon,
}

-- An invoice passes exactly when it is locked to the client's hash, asks for exactly the quoted
-- total, and either states no expiry or outlives the confirmations that the client waits for and
-- its claim window, at ten minutes a block. Times are below 2^64.
pub validate_hold_invoice-ok :
    (invoice : DecodedHoldInvoice) (quote : Quote) (hash now : ℕ) (policy : ClientPolicy)
    → now + (max quote.required_confirmations policy.min_required_confirmations + 18) * 600
      ≤ u64_max
    → quote.total_sat * 1000 ≤ u64_max
    → (validate_hold_invoice invoice quote hash now policy ≡ ok tt) ↔ (
        (invoice.payment_hash ≡ hash)
        × (invoice.amount_is_explicit ≡ true)
        × (invoice.amount_msat ≡ quote.total_sat * 1000)
        × ((invoice.expires_at_unix ≡ 0)
            ⊎ (now + (max quote.required_confirmations policy.min_required_confirmations + 18) * 600
                ≤ invoice.expires_at_unix)))
unfolding validate_hold_invoice
validate_hold_invoice-ok invoice quote hash now policy hn ht = ground arith

-- The expiry floor of the provider meets the client's rule while the client checks the invoice
-- within the slack that the confirmations below twelve leave: an invoice for the right hash and
-- amount, issued at `issued` with the floor as its expiry, passes at every time up to
-- `(12 - confirmations) * 600` seconds later.
pub floor_expiry_passes :
    (invoice : DecodedHoldInvoice) (quote : Quote) (hash issued now : ℕ) (policy : ClientPolicy)
    → invoice.payment_hash ≡ hash
    → invoice.amount_is_explicit ≡ true
    → invoice.amount_msat ≡ quote.total_sat * 1000
    → invoice.amount_msat ≤ u64_max
    → invoice.expires_at_unix
      ≡ issued + reverse_invoice_min_expiry_secs quote.required_confirmations
    → invoice.expires_at_unix ≤ u64_max
    → quote.required_confirmations ≤ 12
    → policy.min_required_confirmations ≤ quote.required_confirmations
    → now + quote.required_confirmations * 600 ≤ issued + 12 * 600
    → validate_hold_invoice invoice quote hash now policy ≡ ok tt
unfolding validate_hold_invoice reverse_invoice_min_expiry_secs
floor_expiry_passes invoice quote hash issued now policy hh he ha hm hx hu h12 hp ht = ground arith

-- At the twelve confirmations that the protocol allows at most the floor leaves no slack: an
-- invoice with the floor as its expiry is refused as soon as a second has passed since its issue.
pub floor_expiry_too_short :
    (invoice : DecodedHoldInvoice) (quote : Quote) (hash issued now : ℕ) (policy : ClientPolicy)
    → invoice.payment_hash ≡ hash
    → invoice.amount_is_explicit ≡ true
    → invoice.amount_msat ≡ quote.total_sat * 1000
    → invoice.amount_msat ≤ u64_max
    → invoice.expires_at_unix
      ≡ issued + reverse_invoice_min_expiry_secs quote.required_confirmations
    → quote.required_confirmations ≡ 12
    → policy.min_required_confirmations ≤ 12
    → issued < now
    → now + 18_000 ≤ u64_max
    → validate_hold_invoice invoice quote hash now policy
      ≡ err (invoice_expires_too_soon (issued + 18_000) (now + 18_000))
unfolding validate_hold_invoice reverse_invoice_min_expiry_secs
floor_expiry_too_short invoice quote hash issued now policy hh he ha hm hx h12 hp late hu =
    ground arith
