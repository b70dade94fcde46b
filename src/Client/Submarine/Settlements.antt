-- ===== src/Client/Submarine/Settlements.antt =====
-- The wait for the settlement and the refund of a submarine swap's client concern the outpoint that
-- the run relies on, and so does the whole run (swap-client/src/submarine.rs).
use pubky_swap.Prelude.{
  ◌≡◌, refl, inl, inr, String, Option, none, some, List, [], ◌∷◌, map, Result, ok, leb, All, Any,
  Bool-cases,
}
use pubky_swap.Chain.{Txid, OutPoint}
use pubky_swap.Onchain.Preimages.{Bytes, PaymentHash}
use pubky_swap.FeeBump.{
  SpendOutcome, confirmed, conflicting_spend, deadline_exceeded, Spend, confirm_or_bump,
}
use pubky_swap.FeeBump.Built.{IsBuilt, confirm_or_bump-AllBuilt}
use pubky_swap.Swap.{SwapState}
use pubky_swap.Driver.{Ends, running, fails, returns, Run, unfinished, chain, ◌>>=◌}
use pubky_swap.Driver.Logs.{All-append, done-All, tell-All, tell_all-All, ask-All}
use pubky_swap.Reverse.{Resume, InvoiceState, «open», accepted, settled, cancelled}
use pubky_swap.Submarine.Claim.{told, oldest_first}
use pubky_swap.Client.Submarine.{
  SubmarineFunding, Call, tip_height, invoice_state, find_spend, spend_broadcast, refund_confirmed,
  conflicted, SettleTurn, Answers, establish_funding, refund_watch, is_claim, is_claimed,
  close_refund, refund, at_timeout, on_state, await_settlement, with_funding,
  execute_submarine_swap,
}
use pubky_swap.Client.Submarine.Refunds.{IsAt}
use pubky_swap.Client.Submarine.Outpoints.{Concerns, Fits, Finds, Finds-establish_from}

All-oldest_first :
    (P : Txid → Type 0) (older later : List Txid)
    → All P older
    → All P later
    → All P (oldest_first older later)
unfolding oldest_first
All-oldest_first P [] later h k = k
All-oldest_first P (txid ∷ older) later h k = All-oldest_first P older (txid ∷ later) h.1 (h.0, k)

module _ (sha256 : Bytes → PaymentHash) (funding : SubmarineFunding) (resume : Resume)
    (answers : Answers) where
  module _ (outpoint : OutPoint) where
    all_refunds :
        (txids : List Txid)
        → All (IsBuilt (answers.build outpoint)) txids
        → All (Concerns sha256 funding resume answers outpoint) (map spend_broadcast txids)
    all_refunds [] h = tt
    all_refunds (txid ∷ rest) h = (inl h.0, all_refunds rest h.1)

    refunds_built :
        (turn : SettleTurn) (result : Result String SpendOutcome) (spend : Option Spend)
        → confirm_or_bump
            (answers.build outpoint)
            (refund_watch sha256 funding resume answers.refund_vsize)
            turn.refund_opening
            turn.refund_turns
          ≡ some (result, spend)
        → All (Concerns sha256 funding resume answers outpoint) (map spend_broadcast (told spend))
    unfolding told
    refunds_built turn result none ended = tt
    refunds_built turn result (some s) ended =
        let built =
          confirm_or_bump-AllBuilt (answers.build outpoint)
            (refund_watch sha256 funding resume answers.refund_vsize) turn.refund_opening
            turn.refund_turns result s ended in
        all_refunds (oldest_first s.told [])
          (All-oldest_first (IsBuilt (answers.build outpoint)) s.told [] built tt)

    close_refund-All :
        (turn : SettleTurn) (rest : Run Call SwapState) (outcome : SpendOutcome)
        (spend : Option Spend)
        → All (Concerns sha256 funding resume answers outpoint) rest.log
        → confirm_or_bump
            (answers.build outpoint)
            (refund_watch sha256 funding resume answers.refund_vsize)
            turn.refund_opening
            turn.refund_turns
          ≡ some (ok outcome, spend)
        → All
            (Concerns sha256 funding resume answers outpoint)
            (close_refund sha256 funding answers outpoint rest outcome).log
    unfolding close_refund
    close_refund-All turn rest (confirmed txid) spend h ended =
        tell-All (Concerns sha256 funding resume answers outpoint) (refund_confirmed txid) _ tt
          (done-All (Concerns sha256 funding resume answers outpoint) _)
    close_refund-All turn rest (conflicting_spend txid) spend h ended =
        tell-All (Concerns sha256 funding resume answers outpoint)
          (conflicted (answers.transaction txid)) _ tt
          (elim (Bool-cases (is_claim sha256 funding outpoint (answers.transaction txid))) [
            | inl theirs ↦ rw theirs (done-All (Concerns sha256 funding resume answers outpoint) _)
            | inr ours ↦ rw ours (
                tell-All (Concerns sha256 funding resume answers outpoint) (spend_broadcast txid) _
                  (inr (turn, spend, ended))
                  (done-All (Concerns sha256 funding resume answers outpoint) _))
          ])
    close_refund-All turn rest (deadline_exceeded txid tip) spend h ended = h

    refund-All :
        (turn : SettleTurn) (rest : Run Call SwapState)
        (end : Option (Result String SpendOutcome × Option Spend))
        → All (Concerns sha256 funding resume answers outpoint) rest.log
        → confirm_or_bump
            (answers.build outpoint)
            (refund_watch sha256 funding resume answers.refund_vsize)
            turn.refund_opening
            turn.refund_turns
          ≡ end
        → All
            (Concerns sha256 funding resume answers outpoint)
            (refund sha256 funding answers outpoint end rest).log
    unfolding refund unfinished
    refund-All turn rest none h ended = tt
    refund-All turn rest (some (result, spend)) h ended =
        tell_all-All (Concerns sha256 funding resume answers outpoint)
          (map spend_broadcast (told spend)) _ (refunds_built turn result spend ended)
          (ask-All (Concerns sha256 funding resume answers outpoint) result _
            λ outcome is. close_refund-All turn rest outcome spend h (rw is at ended))

    at_timeout-All :
        (turn : SettleTurn) (rest : Run Call SwapState)
        → All (Concerns sha256 funding resume answers outpoint) rest.log
        → All
            (Concerns sha256 funding resume answers outpoint)
            (at_timeout sha256 funding resume answers outpoint turn rest).log
    unfolding at_timeout
    at_timeout-All turn rest h =
        ask-All (Concerns sha256 funding resume answers outpoint) turn.spend _ λ spend answered.
          tell-All (Concerns sha256 funding resume answers outpoint) (find_spend spend) _ tt
            (elim (Bool-cases (is_claimed sha256 funding outpoint spend)) [
              | inl theirs ↦
                  rw theirs (done-All (Concerns sha256 funding resume answers outpoint) _)
              | inr unclaimed ↦ rw unclaimed (refund-All turn rest _ h refl)
            ])

    open_state-All :
        (turn : SettleTurn) (rest : Run Call SwapState)
        → All (Concerns sha256 funding resume answers outpoint) rest.log
        → All
            (Concerns sha256 funding resume answers outpoint)
            (on_state sha256 funding resume answers outpoint turn rest «open»).log
    unfolding on_state
    open_state-All turn rest h =
        ask-All (Concerns sha256 funding resume answers outpoint) turn.tip _ λ tip answered.
          tell-All (Concerns sha256 funding resume answers outpoint) (tip_height tip) _ tt
            (elim (Bool-cases (leb funding.timeout_height tip)) [
              | inl past ↦ rw past (at_timeout-All turn rest h)
              | inr early ↦ rw early h
            ])

    on_state-All :
        (turn : SettleTurn) (rest : Run Call SwapState) (state : InvoiceState)
        → All (Concerns sha256 funding resume answers outpoint) rest.log
        → All
            (Concerns sha256 funding resume answers outpoint)
            (on_state sha256 funding resume answers outpoint turn rest state).log
    unfolding on_state
    on_state-All turn rest settled h = done-All (Concerns sha256 funding resume answers outpoint) _
    on_state-All turn rest «open» h = open_state-All turn rest h
    on_state-All turn rest accepted h = open_state-All turn rest h
    on_state-All turn rest cancelled h = open_state-All turn rest h

    await-All :
        (turns : List SettleTurn)
        → All
            (Concerns sha256 funding resume answers outpoint)
            (await_settlement sha256 funding resume answers outpoint turns).log
    unfolding await_settlement unfinished
    await-All [] = tt
    await-All (turn ∷ turns) =
        ask-All (Concerns sha256 funding resume answers outpoint) turn.state _ λ state answered.
          tell-All (Concerns sha256 funding resume answers outpoint) (invoice_state state) _ tt
            (on_state-All turn _ state (await-All turns))

  with_funding-All :
      (outpoint : OutPoint)
      → All
          (Concerns sha256 funding resume answers outpoint)
          (with_funding sha256 funding resume answers (some outpoint)).log
  unfolding with_funding
  with_funding-All outpoint = await-All outpoint answers.settle_turns

  IsAbout : Run Call SwapState → Type 0
  IsAbout m = (outpoint : OutPoint) × All (Concerns sha256 funding resume answers outpoint) m.log

  expired_at :
      (outpoint : OutPoint)
      → All
          (Concerns sha256 funding resume answers outpoint)
          (with_funding sha256 funding resume answers none).log
  unfolding with_funding
  expired_at outpoint = done-All (Concerns sha256 funding resume answers outpoint) _

  IsAbout-ends :
      (outpoint : OutPoint) (ends : Ends (Option OutPoint)) (log : List Call)
      → All (Concerns sha256 funding resume answers outpoint) log
      → Fits sha256 funding resume answers outpoint ends
      → IsAbout (chain log ends (with_funding sha256 funding resume answers))
  unfolding chain IsAbout Fits
  IsAbout-ends outpoint running log h k = (outpoint, h)
  IsAbout-ends outpoint (fails e) log h k = (outpoint, h)
  IsAbout-ends outpoint (returns none) log h k = (
    outpoint,
    All-append (Concerns sha256 funding resume answers outpoint) log _ h (expired_at outpoint),
  )
  IsAbout-ends outpoint (returns (some other)) log h k = (
    outpoint,
    All-append (Concerns sha256 funding resume answers outpoint) log _ h
        (rw k (with_funding-All outpoint)),
  )

  IsAbout-chain :
      (m : Run Call (Option OutPoint))
      → Finds sha256 funding resume answers m
      → IsAbout (m >>= with_funding sha256 funding resume answers)
  unfolding ◌>>=◌
  IsAbout-chain m h = IsAbout-ends h.outpoint m.ends m.log h.calls h.found

  -- A run relies on one outpoint, and puts nothing on the wire that does not refund that one.
  pub execute-All :
      (outpoint : OutPoint) × All
        (Concerns sha256 funding resume answers outpoint)
        (execute_submarine_swap sha256 funding resume answers).log
  unfolding execute_submarine_swap establish_funding IsAbout
  execute-All = IsAbout-chain _ (Finds-establish_from sha256 funding resume answers _ _ _ _)

  -- So the outpoint that its log shows it to rely on is that one.
  pub all_at :
      (outpoint other : OutPoint) (log : List Call)
      → All (Concerns sha256 funding resume answers outpoint) log
      → Any (IsAt other) log
      → other ≡ outpoint
  all_at outpoint other [] h k = absurd k
  all_at outpoint other (c ∷ cs) h (inl (inl is)) = rw is at h.0
  all_at outpoint other (c ∷ cs) h (inl (inr is)) = rw is at h.0
  all_at outpoint other (c ∷ cs) h (inr k) = all_at outpoint other cs h.1 k
