-- ===== src/Store.antt =====
-- swap-common/src/store.rs: the record that a swap's driver resumes from. The fields are those
-- that the operations here read or write; a transaction id is its number, so the text that the
-- source stores always reads back.
pub mod Progress
pub mod Recovery
pub mod Spends
pub mod Crashes
mod Examples
use pubky_swap.Prelude.{
  ℕ, suc, Bool, true, false, not, ◌&&◌, ◌||◌, String, Option, none, some, List, [], ◌∷◌, ◌++◌, eqb,
  ltb, if◌then◌else◌, is_some, length, drop, contains, nat_eq,
}
use pubky_swap.Chain.{Txid, OutPoint}
use pubky_swap.Swap.{
  SwapDirection, submarine, reverse, SwapState, claimed, refunded, expired, failed,
}
use pubky_swap.Reverse.{Resume}

pub data SwapRole : Type 0 where
  provider client : SwapRole

abbrev pub max_tracked_our_spends : ℕ
max_tracked_our_spends = 16

pub record SwapRecord : Type 0 where
  pub role : SwapRole
  pub direction : SwapDirection
  -- Whether a hold invoice's creation is pending.
  pub pending_hold_invoice : Bool
  pub state : SwapState
  pub funding_txid : Option Txid
  pub funding_vout : Option ℕ
  pub funding_intent_at_height : Option ℕ
  pub funding_attempts : ℕ
  pub invoice_pay_started_at_unix : Option ℕ
  pub claim_observed_txid : Option Txid
  pub spend_txid : Option Txid
  pub our_spend_txids : List Txid
  pub claimable_at_unix : Option ℕ
  pub reorg_seen_at_height : Option ℕ
  pub last_error : Option String
  pub retry_count : ℕ
  pub next_retry_at_unix : Option ℕ
  pub updated_at_unix : ℕ

-- The oldest makes room: `push`, and `remove(0)` beyond the bound.
unfoldable pub push_spend : List Txid → Txid → List Txid
push_spend txids txid =
    if contains txids txid
    then txids
    else if ltb max_tracked_our_spends (length (txids ++ txid ∷ []))
    then drop 1 (txids ++ txid ∷ [])
    else txids ++ txid ∷ []

unfoldable pub note_our_spend : SwapRecord → Txid → SwapRecord
unfolding push_spend
note_our_spend rec txid = record rec {
  our_spend_txids = push_spend rec.our_spend_txids txid;
  spend_txid = some txid;
}

abbrev pub option_list : Option Txid → List Txid
option_list none = []
option_list (some txid) = txid ∷ []

unfoldable pub our_spends : SwapRecord → List Txid
our_spends rec = rec.our_spend_txids ++ option_list rec.spend_txid

abbrev pub outpoint_of : Option Txid → Option ℕ → Option OutPoint
outpoint_of (some txid) (some vout) = some (record { txid = txid; vout = vout })
outpoint_of _ _ = none

unfoldable pub funding_outpoint : SwapRecord → Option OutPoint
funding_outpoint rec = outpoint_of rec.funding_txid rec.funding_vout

unfoldable pub resume : SwapRecord → Resume
unfolding our_spends funding_outpoint
resume rec = record {
  invoice_pay_started_at_unix = rec.invoice_pay_started_at_unix;
  funding = funding_outpoint rec;
  funding_intent_at_height = rec.funding_intent_at_height;
  our_spends = our_spends rec;
  reorg_seen_at_height = rec.reorg_seen_at_height;
}

unfoldable pub progressed : SwapRecord → SwapRecord
progressed rec = record rec { retry_count = 0; next_retry_at_unix = none; last_error = none }

-- Whether this side funds the HTLC.
abbrev pub we_fund_onchain : SwapRole → SwapDirection → Bool
we_fund_onchain provider reverse = true
we_fund_onchain client submarine = true
we_fund_onchain _ _ = false

abbrev pub is_empty : List Txid → Bool
is_empty [] = true
is_empty (txid ∷ txids) = false

unfoldable pub funds_at_risk : SwapRecord → Bool
unfolding funding_outpoint
funds_at_risk rec =
    let committed =
      if we_fund_onchain rec.role rec.direction
      then is_some rec.funding_intent_at_height || is_some (funding_outpoint rec)
      else is_some rec.invoice_pay_started_at_unix in
    committed || not (is_empty rec.our_spend_txids) || is_some rec.spend_txid

unfoldable pub prunes_state : SwapRecord → SwapState → Bool
unfolding funds_at_risk
prunes_state rec claimed = true
prunes_state rec refunded = true
prunes_state rec expired = not (funds_at_risk rec)
prunes_state rec _ = false

unfoldable pub safe_to_prune : SwapRecord → Bool
unfolding prunes_state
safe_to_prune rec =
    if eqb rec.updated_at_unix 0 || rec.pending_hold_invoice
    then false
    else prunes_state rec rec.state
