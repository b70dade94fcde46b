-- ===== src/Store/Progress.antt =====
-- `StoreProgress` of swap-provider/src/lib.rs: what a driver's calls write to its record.
use pubky_swap.Prelude.{
  ℕ, Bool, true, false, none, some, if◌then◌else◌, saturating_add, u32_max, string_eq, ◌==◌,
}
use pubky_swap.Chain.{Txid, OutPoint}
use pubky_swap.Swap.{
  SwapState, created, lockup_pending, lockup_confirmed, invoice_pending, invoice_paid,
  claim_pending, claimed, refunded, expired, failed,
}
use pubky_swap.Store.{SwapRecord, progressed, note_our_spend}

-- The derived `PartialEq`.
abbrev pub state_beq : SwapState → SwapState → Bool
state_beq created created = true
state_beq lockup_pending lockup_pending = true
state_beq lockup_confirmed lockup_confirmed = true
state_beq invoice_pending invoice_pending = true
state_beq invoice_paid invoice_paid = true
state_beq claim_pending claim_pending = true
state_beq claimed claimed = true
state_beq refunded refunded = true
state_beq expired expired = true
state_beq (failed a) (failed b) = a == b
state_beq _ _ = false

-- The change to the record that `try_update` makes and then writes: only one that moves the state
-- clears the retry metadata.
unfoldable pub try_update : ℕ → (SwapRecord → SwapRecord) → SwapRecord → SwapRecord
try_update now f rec =
    let changed = f rec in
    let kept = if state_beq changed.state rec.state then changed else progressed changed in
    record kept { updated_at_unix = now }

abbrev pub intend : ℕ → SwapRecord → SwapRecord
intend tip rec = record rec {
  funding_intent_at_height = some tip;
  funding_attempts = saturating_add u32_max rec.funding_attempts 1;
  state = lockup_pending;
}

unfoldable pub note_funding_intent : ℕ → ℕ → SwapRecord → SwapRecord
unfolding try_update
note_funding_intent now tip = try_update now (intend tip)

abbrev pub fund_at : OutPoint → SwapRecord → SwapRecord
fund_at outpoint rec = record rec {
  funding_txid = some outpoint.txid;
  funding_vout = some outpoint.vout;
  funding_intent_at_height = none;
  state = lockup_confirmed;
}

unfoldable pub note_funded : ℕ → OutPoint → SwapRecord → SwapRecord
unfolding try_update
note_funded now outpoint = try_update now (fund_at outpoint)

abbrev pub start_paying : ℕ → SwapRecord → SwapRecord
start_paying now rec = record rec {
  invoice_pay_started_at_unix = some now;
  state = invoice_pending;
}

unfoldable pub note_pay_started : ℕ → SwapRecord → SwapRecord
unfolding try_update
note_pay_started now = try_update now (start_paying now)

abbrev pub be_paid : SwapRecord → SwapRecord
be_paid rec = record rec { state = invoice_paid }

unfoldable pub note_paid : ℕ → SwapRecord → SwapRecord
unfolding try_update
note_paid now = try_update now be_paid

abbrev pub observe_claim : Txid → SwapRecord → SwapRecord
observe_claim txid rec = record rec { claim_observed_txid = some txid; state = invoice_paid }

unfoldable pub note_claim : ℕ → Txid → SwapRecord → SwapRecord
unfolding try_update
note_claim now txid = try_update now (observe_claim txid)

unfoldable pub note_broadcast : ℕ → Txid → SwapRecord → SwapRecord
unfolding try_update note_our_spend
note_broadcast now txid = try_update now (λ rec. note_our_spend rec txid)

abbrev pub be_claimable : ℕ → SwapRecord → SwapRecord
be_claimable now rec = record rec { claimable_at_unix = some now }

unfoldable pub note_claimable : ℕ → SwapRecord → SwapRecord
unfolding try_update
note_claimable now = try_update now (be_claimable now)
