-- ===== src/Store/Crashes.antt =====
-- A reverse swap over any number of driver runs, each on the record that the one before it left,
-- and each cut short anywhere, by a crash or by an error (swap-provider/src/lib.rs, reverse.rs).
use pubky_swap.Prelude.{
  ℕ, ◌+◌, ◌≤◌, ◌<◌, ◌≡◌, refl, inl, inr, Bool, true, false, ◌&&◌, ◌||◌, some, List, [], ◌∷◌, ◌++◌,
  arith, is_some, if◌then◌else◌, take, ltb, Bool-cases, ◌∙◌, ltb→lt,
}
use pubky_swap.Onchain.Preimages.{Bytes, PaymentHash}
use pubky_swap.Driver.Traces.{follow, follow-take}
use pubky_swap.Driver.Counts.{count}
use pubky_swap.Reverse.{
  ReverseSwap, Call, funding_intent, funded, claimable, claim_observed, spend_broadcast, Answers,
}
use pubky_swap.Reverse.Establish.{may_have_funded}
use pubky_swap.Reverse.Watch.{drive_reverse_swap}
use pubky_swap.Reverse.Protocol.{Phase, advance, funds, funds_once}
use pubky_swap.Reverse.Settles.{opening, Follows-drive}
use pubky_swap.Reverse.Promises.{from_opening, may_opening}
use pubky_swap.Store.{SwapRecord, funding_outpoint, resume, note_our_spend, progressed}
use pubky_swap.Store.Progress.{
  try_update, intend, fund_at, observe_claim, be_claimable, state_beq, note_funding_intent,
  note_funded, note_claim, note_broadcast, note_claimable,
}

-- What a call writes to the record.
unfoldable pub apply : ℕ → Call → SwapRecord → SwapRecord
unfolding note_funding_intent note_funded note_claim note_broadcast note_claimable
apply now (funding_intent tip) rec = note_funding_intent now tip rec
apply now (funded outpoint) rec = note_funded now outpoint rec
apply now (claim_observed txid) rec = note_claim now txid rec
apply now (spend_broadcast txid) rec = note_broadcast now txid rec
apply now (claimable outpoint) rec = note_claimable now rec
apply now _ rec = rec

-- Which calls write at all.
abbrev pub writes : Call → Bool
writes (funding_intent tip) = true
writes (funded outpoint) = true
writes (claim_observed txid) = true
writes (spend_broadcast txid) = true
writes (claimable outpoint) = true
writes _ = false

-- An intent is on the log only where its write landed; every other write may fail.
abbrev pub must_land : Call → Bool
must_land (funding_intent tip) = true
must_land _ = false

-- The record in memory, and the one on disk.
pub record Kept : Type 0 where
  pub memory : SwapRecord
  pub disk : SwapRecord

unfoldable pub write : ℕ → Bool → Call → Kept → Kept
unfolding apply
write now landed c kept =
    let memory = apply now c kept.memory in
    record {
      memory = memory;
      disk = if must_land c || writes c && landed then memory else kept.disk;
    }

-- A run: its answers, how many of its calls it got to make, which writes landed, and whether the
-- process died with it.
pub record Life : Type 0 where
  pub answers : Answers
  pub made : ℕ
  pub landed : Call → Bool
  pub now : ℕ
  pub crashed : Bool

unfoldable pub write_all : Life → List Call → Kept → Kept
unfolding write
write_all life [] kept = kept
write_all life (c ∷ cs) kept = write_all life cs (write life.now (life.landed c) c kept)

-- After a crash only the disk is left.
abbrev pub restart : Bool → Kept → Kept
restart true kept = record { memory = kept.disk; disk = kept.disk }
restart false kept = kept

-- The record says that a funding may exist.
unfoldable pub is_marked : SwapRecord → Bool
unfolding funding_outpoint
is_marked rec = is_some (funding_outpoint rec) || is_some rec.funding_intent_at_height

abbrev pub both_marked : Kept → Bool
both_marked kept = is_marked kept.memory && is_marked kept.disk

module _ (sha256 : Bytes → PaymentHash) (swap : ReverseSwap) (required : ℕ) where
  -- The calls that a life makes.
  unfoldable pub calls : Kept → Life → List Call
  calls kept life =
      take life.made (drive_reverse_swap sha256 swap (resume kept.memory) required life.answers).log

  -- The calls of the wallet to fund, in all of a swap's lives.
  unfoldable pub total_funds : Kept → List Life → ℕ
  unfolding calls
  total_funds kept [] = 0
  total_funds kept (life ∷ lives) =
      let made = calls kept life in
      count funds made + total_funds (restart life.crashed (write_all life made kept)) lives

try_update-marked :
    (now : ℕ) (f : SwapRecord → SwapRecord) (rec : SwapRecord)
    → is_marked (try_update now f rec) ≡ is_marked (f rec)
unfolding is_marked try_update progressed
try_update-marked now f rec = elim (Bool-cases (state_beq (f rec).state rec.state)) [
  | inl same ↦ rw (same, try_update) refl
  | inr moved ↦ rw (moved, try_update) refl
]

apply-marked :
    (now : ℕ) (c : Call) (rec : SwapRecord)
    → is_marked rec ≡ true
    → is_marked (apply now c rec) ≡ true
unfolding is_marked apply note_our_spend
apply-marked now (funding_intent tip) rec h = try_update-marked now (intend tip) rec ∙ ground arith
apply-marked now (funded outpoint) rec h = try_update-marked now (fund_at outpoint) rec
apply-marked now (claim_observed txid) rec h = try_update-marked now (observe_claim txid) rec ∙ h
apply-marked now (spend_broadcast txid) rec h =
    try_update-marked now (λ r. note_our_spend r txid) rec ∙ h
apply-marked now (claimable outpoint) rec h = try_update-marked now (be_claimable now) rec ∙ h
apply-marked now c rec h = h

intent-marked :
    (now tip : ℕ) (rec : SwapRecord) → is_marked (apply now (funding_intent tip) rec) ≡ true
unfolding is_marked apply
intent-marked now tip rec = try_update-marked now (intend tip) rec ∙ ground arith

write-marked :
    (now : ℕ) (landed : Bool) (c : Call) (kept : Kept)
    → both_marked kept ≡ true
    → both_marked (write now landed c kept) ≡ true
unfolding write
write-marked now landed c kept h =
    let memory = apply-marked now c kept.memory (ground (arith, h)) in
    elim (Bool-cases (must_land c || writes c && landed)) [
      | inl lands ↦ rw (lands, memory) refl
      | inr lost ↦ ground (arith, lost, memory, h)
    ]

write_all-marked :
    (life : Life) (cs : List Call) (kept : Kept)
    → both_marked kept ≡ true
    → both_marked (write_all life cs kept) ≡ true
unfolding write_all
write_all-marked life [] kept h = h
write_all-marked life (c ∷ cs) kept h =
    write_all-marked life cs (write life.now (life.landed c) c kept)
      (write-marked life.now (life.landed c) c kept h)

-- Once an intent is among the calls, both records say so from then on.
intended-marked :
    (life : Life) (a b : Call) (tip : ℕ) (before after : List Call) (kept : Kept)
    → both_marked (write_all life (before ++ a ∷ b ∷ funding_intent tip ∷ after) kept) ≡ true
unfolding write_all write
intended-marked life a b tip [] after kept =
    write_all-marked life after _ (rw (intent-marked life.now tip _) refl)
intended-marked life a b tip (c ∷ before) after kept =
    intended-marked life a b tip before after (write life.now (life.landed c) c kept)

restart-marked :
    (crashed : Bool) (kept : Kept)
    → both_marked kept ≡ true
    → both_marked (restart crashed kept) ≡ true
restart-marked true kept h = ground (arith, h)
restart-marked false kept h = h

at_most_one : (n : ℕ) (b : Bool) → n ≤ (if b then 0 else 1) → n ≤ 1
at_most_one n true h = omega (arith, h)
at_most_one n false h = h

none_below : (n : ℕ) → ltb 0 n ≡ false → n ≡ 0
none_below n h = ground arith

resume-marked : (rec : SwapRecord) → may_have_funded (resume rec) ≡ is_marked rec
unfolding may_have_funded resume is_marked
resume-marked rec = refl

module _ (sha256 : Bytes → PaymentHash) (swap : ReverseSwap) (required : ℕ) where
  -- The calls of a life follow the protocol, however it was cut short.
  cut :
      (kept : Kept) (life : Life)
      → (q : Phase) × (follow
            (advance sha256 swap)
            (opening (is_marked kept.memory))
            (calls sha256 swap required kept life)
          ≡ some q)
  unfolding calls
  cut kept life =
      let f = Follows-drive sha256 swap (resume kept.memory) required life.answers in
      rw (← resume-marked kept.memory)
        (follow-take (advance sha256 swap) _ f.phase life.made _ f.path)

  cut_once :
      (kept : Kept) (life : Life)
      → count funds (calls sha256 swap required kept life)
        ≤ (if is_marked kept.memory then 0 else 1)
  cut_once kept life =
      let (q, path) = cut kept life in
      omega (
        arith,
        funds_once sha256 swap (opening (is_marked kept.memory)) q _ path,
        (may_opening (is_marked kept.memory)).0,
      )

  cut_marks :
      (kept : Kept) (life : Life)
      → 0 < count funds (calls sha256 swap required kept life)
      → both_marked (write_all life (calls sha256 swap required kept life) kept) ≡ true
  cut_marks kept life k =
      let (q, path) = cut kept life in
      let g = from_opening sha256 swap (is_marked kept.memory) q _ path k in
      rw g.split (intended-marked life _ _ g.tip g.before _ kept)

  bounded :
      (kept : Kept) (lives : List Life)
      → total_funds sha256 swap required kept lives ≤ (if both_marked kept then 0 else 1)
  unfolding total_funds
  bounded kept [] = omega arith
  bounded kept (life ∷ lives) =
      let made = calls sha256 swap required kept life in
      let after = write_all life made kept in
      let rest = bounded (restart life.crashed after) lives in
      let once = cut_once kept life in
      let marks = cut_marks kept life in
      elim (Bool-cases (both_marked kept)) [
        | inl safe ↦
            let still = restart-marked life.crashed after (write_all-marked life made kept safe) in
            let memory : is_marked kept.memory ≡ true = ground (arith, safe) in
            rw safe (omega (arith, rw still at rest, rw memory at once))
        | inr open_still ↦ rw open_still (elim (Bool-cases (ltb 0 (count funds made))) [
          | inl paid ↦
              let still = restart-marked life.crashed after (marks (ltb→lt 0 _ paid)) in
              omega (arith, rw still at rest, at_most_one _ _ once)
          | inr unpaid_still ↦ omega (arith, at_most_one _ _ rest, none_below _ unpaid_still)
        ])
      ]

  -- Over any number of runs of a reverse swap, each on the record that the last one left, and
  -- each cut short after any number of its calls by an error or by a crash that leaves only what
  -- reached the disk, the wallet is asked to fund the HTLC once at most. Every write but the
  -- intent's may fail to land.
  pub funded_once_across_crashes :
      (kept : Kept) (lives : List Life) → total_funds sha256 swap required kept lives ≤ 1
  funded_once_across_crashes kept lives = at_most_one _ _ (bounded kept lives)
