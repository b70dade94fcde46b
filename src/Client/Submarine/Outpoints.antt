-- ===== src/Client/Submarine/Outpoints.antt =====
-- What it is for the calls of the client of a submarine swap to concern one outpoint, and that its
-- funding finds one outpoint at most (swap-client/src/submarine.rs).
use pubky_swap.Prelude.{
  ℕ, ◌≡◌, ◌⊎◌, refl, inl, inr, String, Option, none, some, List, [], ◌∷◌, Result, ok, err, leb,
  is_some, All, Bool-cases, Option-cases, Result-cases,
}
use pubky_swap.Chain.{Txid, OutPoint}
use pubky_swap.Onchain.Preimages.{Bytes, PaymentHash}
use pubky_swap.FeeBump.{conflicting_spend, Spend, confirm_or_bump}
use pubky_swap.FeeBump.Built.{IsBuilt}
use pubky_swap.Timelock.{claim_start_is_safe}
use pubky_swap.Driver.{Ends, returns, Run, done, unfinished, ask, tell, chain, ◌>>=◌, ◌>>◌}
use pubky_swap.Reverse.{Resume, RecordedTurn}
use pubky_swap.Client.Submarine.{
  SubmarineFunding, Call, tip_height, funding_intent, fund_htlc, funded, relied_on, spend_broadcast,
  Establishing, SettleTurn, Answers, adopt, rely_on, await_recorded_funding, fund, commit,
  establish_fresh, establish_from, refund_watch,
}

module _ (sha256 : Bytes → PaymentHash) (funding : SubmarineFunding) (resume : Resume)
    (answers : Answers) where
  -- A refund that is built over the outpoint, or another spend that the watch over it has met.
  abbrev pub IsRefundOf : OutPoint → Txid → Type 0
  IsRefundOf outpoint txid =
      IsBuilt (answers.build outpoint) txid
      ⊎ ((turn : SettleTurn) × (spend : Option Spend) × (confirm_or_bump (answers.build outpoint)
              (refund_watch sha256 funding resume answers.refund_vsize) turn.refund_opening
              turn.refund_turns
            ≡ some (ok (conflicting_spend txid), spend)))

  -- The call relies on no other outpoint, and puts nothing on the wire that does not refund it.
  abbrev pub Concerns : OutPoint → Call → Type 0
  Concerns outpoint (funded other) = other ≡ outpoint
  Concerns outpoint (relied_on other) = other ≡ outpoint
  Concerns outpoint (spend_broadcast txid) = IsRefundOf outpoint txid
  Concerns outpoint _ = Unit

  unfoldable pub Fits : OutPoint → Ends (Option OutPoint) → Type 0
  Fits outpoint (returns (some other)) = other ≡ outpoint
  Fits outpoint _ = Unit

  -- A run that finds at most this outpoint, and calls about no other.
  pub record Finds (m : Run Call (Option OutPoint)) : Type 0 where
    pub outpoint : OutPoint
    pub calls : All (Concerns outpoint) m.log
    pub found : Fits outpoint m.ends

  abbrev any_outpoint : OutPoint
  any_outpoint = record { txid = 0; vout = 0 }

  Finds-adopt : (outpoint : OutPoint) → Finds (adopt outpoint)
  unfolding adopt tell done ◌>>◌ ◌>>=◌ chain Fits
  Finds-adopt outpoint = record { outpoint = outpoint; calls = (refl, tt); found = refl }

  Finds-rely_on : (outpoint : OutPoint) → Finds (rely_on outpoint)
  unfolding rely_on tell done ◌>>◌ ◌>>=◌ chain Fits
  Finds-rely_on outpoint = record { outpoint = outpoint; calls = (refl, tt); found = refl }

  Finds-none : Finds (done none)
  unfolding done Fits
  Finds-none = record { outpoint = any_outpoint; calls = tt; found = tt }

  Finds-unfinished : Finds unfinished
  unfolding unfinished Fits
  Finds-unfinished = record { outpoint = any_outpoint; calls = tt; found = tt }

  Finds-fail : (e : String) → Finds (ask (err e))
  unfolding ask Fits
  Finds-fail e = record { outpoint = any_outpoint; calls = tt; found = tt }

  Finds-ask :
      {A : Type 0} (r : Result String A) (f : A → Run Call (Option OutPoint))
      → ((a : A) → Finds (f a))
      → Finds (ask r >>= f)
  unfolding ask done ◌>>=◌ chain Fits
  Finds-ask (ok a) f h = record {
    outpoint = (h a).outpoint;
    calls = (h a).calls;
    found = (h a).found;
  }
  Finds-ask (err e) f h = record { outpoint = any_outpoint; calls = tt; found = tt }

  Finds-tell :
      (c : Call) (m : Run Call (Option OutPoint))
      → ((outpoint : OutPoint) → Concerns outpoint c)
      → Finds m
      → Finds (tell c >> m)
  unfolding tell ◌>>◌ ◌>>=◌ chain
  Finds-tell c m h k = record {
    outpoint = k.outpoint;
    calls = (h k.outpoint, k.calls);
    found = k.found;
  }

  Finds-await_recorded :
      (turns : List RecordedTurn) → Finds (await_recorded_funding sha256 funding turns)
  unfolding await_recorded_funding
  Finds-await_recorded [] = Finds-unfinished
  Finds-await_recorded (turn ∷ turns) = Finds-ask turn.find_funding _ λ visible.
      elim (Option-cases visible) [
        | inr (u, there) ↦ rw there (Finds-adopt u.outpoint)
        | inl missing ↦ rw missing (
            Finds-ask turn.history _ λ history. Finds-ask _ _ λ recorded.
              elim (Option-cases recorded) [
                | inr (outpoint, there) ↦ rw there (Finds-adopt outpoint)
                | inl nowhere ↦ rw nowhere (
                    Finds-ask turn.tip _ λ tip.
                      Finds-tell (tip_height tip) _ (λ outpoint. tt)
                        (elim (Bool-cases (leb funding.timeout_height tip)) [
                          | inl past ↦ rw past Finds-none
                          | inr early ↦ rw early (Finds-await_recorded turns)
                        ]))
              ])
      ]

  Finds-fund :
      (asked : Establishing) (turns : List RecordedTurn) → Finds (fund sha256 funding asked turns)
  unfolding fund
  Finds-fund asked turns =
      Finds-tell (fund_htlc funding.onchain_amount_sat) _ (λ outpoint. tt)
        (elim (Result-cases asked.fund_htlc) [
          | inl (outpoint, made) ↦ rw made (Finds-adopt outpoint)
          | inr (e, lost) ↦ rw lost (Finds-await_recorded turns)
        ])

  Finds-commit :
      (asked : Establishing) (turns : List RecordedTurn) → Finds (commit sha256 funding asked turns)
  unfolding commit
  Finds-commit asked turns = Finds-ask asked.tip _ λ tip.
      Finds-tell (tip_height tip) _ (λ outpoint. tt)
        (elim (Bool-cases (claim_start_is_safe tip funding.timeout_height)) [
          | inr late ↦ rw late (Finds-fail _)
          | inl early ↦ rw early (
              Finds-ask asked.funding_intent _ λ written.
                Finds-tell (funding_intent tip) _ (λ outpoint. tt) (Finds-fund asked turns))
        ])

  Finds-establish_fresh :
      (intent : Option ℕ) (asked : Establishing) (turns : List RecordedTurn)
      → Finds (establish_fresh sha256 funding intent asked turns)
  unfolding establish_fresh
  Finds-establish_fresh intent asked turns = Finds-ask asked.find_funding _ λ visible.
      elim (Option-cases visible) [
        | inr (u, there) ↦ rw there (Finds-adopt u.outpoint)
        | inl missing ↦ elim (Bool-cases (is_some intent)) [
          | inl before ↦ rw (missing, before) (Finds-await_recorded turns)
          | inr never ↦ rw (missing, never) (Finds-commit asked turns)
        ]
      ]

  pub Finds-establish_from :
      (recorded : Option OutPoint) (intent : Option ℕ) (asked : Establishing)
      (turns : List RecordedTurn)
      → Finds (establish_from sha256 funding recorded intent asked turns)
  unfolding establish_from
  Finds-establish_from (some outpoint) intent asked turns = Finds-rely_on outpoint
  Finds-establish_from none intent asked turns = Finds-establish_fresh intent asked turns
