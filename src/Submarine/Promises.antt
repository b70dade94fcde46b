-- ===== src/Submarine/Promises.antt =====
-- What the driver of a submarine swap promises (swap-provider/src/submarine.rs), by way of the
-- protocol that it keeps to.
use pubky_swap.Prelude.{
  ℕ, ◌≤◌, ◌<◌, ◌≡◌, refl, Bool, true, false, some, arith, if◌then◌else◌, String, is_some,
}
use pubky_swap.Onchain.Preimages.{Bytes, PaymentHash}
use pubky_swap.Swap.{SwapState, failed}
use pubky_swap.Driver.{Ends, running, fails, returns}
use pubky_swap.Driver.Traces.{follow, Post}
use pubky_swap.Driver.Counts.{count}
use pubky_swap.Reverse.{Resume}
use pubky_swap.Submarine.{SubmarineSwap, Answers}
use pubky_swap.Submarine.Claim.{drive_submarine_swap}
use pubky_swap.Submarine.Protocol.{
  Phase, seeking, found, advance, reports, pays, may_pay, pays_once,
}
use pubky_swap.Submarine.Refines.{first_phase}
use pubky_swap.Submarine.Pays.{Reports, IsRecorded, Follows-drive}
use pubky_swap.Submarine.Orders.{IsSafe, IsAnsweredAfter, from_start, answered}

may_start :
    (funding attempted : Bool)
    → may_pay attempted (if funding then found else seeking) ≡ (if attempted then 0 else 1)
may_start true attempted = refl
may_start false attempted = refl

failed-Post :
    (attempted : Bool) (reason : String) (ends : Ends SwapState) (q : Phase)
    → ends ≡ returns (failed reason)
    → Post (Reports attempted) ends q
    → reports attempted (failed reason) q ≡ true
failed-Post attempted reason running q e fits = cc
failed-Post attempted reason (fails x) q e fits = cc
failed-Post attempted reason (returns state) q e fits =
    let same : state ≡ failed reason = cc in rw same at fits

module _ (sha256 : Bytes → PaymentHash) (swap : SubmarineSwap) (resume : Resume) (required : ℕ)
    (attempted : Bool) (answers : Answers) (recorded : IsRecorded resume.funding attempted) where
  -- Whatever the node and the chain answer, a run makes only the calls that the protocol allows,
  -- in an order that it allows; and where the run returns, the state that it reports is one that
  -- the swap may report in the phase then reached. An attempted payment stands on the record only
  -- beside the funding.
  pub drive_submarine_swap_refines :
      let run = drive_submarine_swap sha256 swap resume required attempted answers in
      (q : Phase) × (follow
          (advance sha256 swap required attempted)
          (first_phase resume.funding)
          run.log
        ≡ some q)
      × Post (Reports attempted) run.ends q
  drive_submarine_swap_refines =
      let f = Follows-drive sha256 swap required resume attempted answers recorded in
      (f.phase, f.path, f.post)

  -- The invoice is paid once at most in a run, and not at all in a run that resumes with an
  -- attempted payment on the record. An attempted payment stands on the record only beside the
  -- funding.
  pub drive_submarine_swap_once :
      let run = drive_submarine_swap sha256 swap resume required attempted answers in
      count pays run.log ≤ (if attempted then 0 else 1)
  drive_submarine_swap_once =
      let f = Follows-drive sha256 swap required resume attempted answers recorded in
      omega (
        arith,
        pays_once sha256 swap required attempted (first_phase resume.funding) f.phase _ f.path,
        may_start (is_some resume.funding) attempted,
      )

  -- A run that pays the invoice does so once, and right after two calls: a tip is read at which the
  -- claim window is open, and the marker is recorded. The payment has the swap's cap on the routing
  -- fee and the limit on the expiry that this tip leaves. Before these calls, and before any
  -- payment, the chain has shown the funding at the required depth. An attempted payment stands on
  -- the record only beside the funding.
  pub drive_submarine_swap_guarded :
      let run = drive_submarine_swap sha256 swap resume required attempted answers in
      0 < count pays run.log → IsSafe sha256 swap required attempted run.log
  drive_submarine_swap_guarded k =
      let f = Follows-drive sha256 swap required resume attempted answers recorded in
      from_start sha256 swap required attempted (is_some resume.funding) f.phase _ f.path k

  -- A run that paid the invoice reports a failure only where the node, after the payment, has said
  -- that it failed, or with what preimage it succeeded: never while the payment may be out. An
  -- attempted payment stands on the record only beside the funding.
  pub drive_submarine_swap_fails :
      (reason : String)
      → let run = drive_submarine_swap sha256 swap resume required attempted answers in
        run.ends ≡ returns (failed reason)
        → 0 < count pays run.log
        → IsAnsweredAfter sha256 swap required attempted run.log
  drive_submarine_swap_fails reason e k =
      let f = Follows-drive sha256 swap required resume attempted answers recorded in
      answered sha256 swap required attempted reason (first_phase resume.funding) f.phase _ f.path
        (failed-Post attempted reason _ f.phase e f.post) k
