-- ===== src/Outbox/Schedule.antt =====
-- When the outbox tries again (pubky-transport/src/outbox.rs).
use pubky_swap.Prelude.{
  ℕ, ◌+◌, ◌-◌, ◌≤◌, ◌≡◌, true, false, not, some, ok, arith, u64_max, pow_pos, List, [], ◌∷◌, All,
}
use mathlib.Core.List.{Perm}
use mathlib.Core.List.Perm
use pubky_swap.Outbox.{
  Outbox, DeliveryFailure, is_retryable, Entry, cleanup_due, delay, next_attempt, next_time,
}
use pubky_swap.Outbox.Changes.{fail_entry}
use pubky_swap.Outbox.Operations.{is_due}

delay_bounds : (n : ℕ) → (1 ≤ delay n) × (delay n ≤ 300)
unfolding delay
delay_bounds n = ground (arith, pow_pos (n - 1))

-- A publication that was due and has failed for a reason that passes is not tried again at once,
-- and is due again 300 seconds later at the latest, unless its deletion has come due by then.
pub failed_publication_returns :
    (now : ℕ) (failure : DeliveryFailure) (e : Entry)
    → is_due now e ≡ true
    → is_retryable failure ≡ true
    → now + 300 ≤ u64_max
    → cleanup_due e (now + 300) ≡ false
    → (e' : Entry) × (fail_entry now failure e ≡ ok (true, e'))
      × (is_due now e' ≡ false)
      × (is_due (now + 300) e' ≡ true)
unfolding cleanup_due
failed_publication_returns now failure e due passing room later = (
  record e {
    publication_failure = some failure;
    publication_paused = not (is_retryable failure);
    attempts = next_attempt e.attempts;
    next_retry_at = next_time e.attempts now;
  },
  ground (arith, due),
  ground (arith, due, delay_bounds (next_attempt e.attempts)),
  ground (arith, due, passing, later, delay_bounds (next_attempt e.attempts)),
)

module _ (order : Entry → ℕ) where
  abbrev pub IsSorted : List Entry → Type 0
  IsSorted [] = Unit
  IsSorted (e ∷ es) = All (λ x. order e ≤ order x) es × IsSorted es
