-- ===== src/Store/Recovery.antt =====
-- swap-provider/src/recovery.rs: what a driver run that ended in an error earns its swap. Delays
-- are in milliseconds; the random number is an argument.
use pubky_swap.Prelude.{
  ℕ, ◌+◌, ◌-◌, ◌*◌, ◌/◌, ◌%◌, ◌^◌, ◌≤◌, ◌<◌, true, min, ◌≡◌, ◌⊎◌, Bool, false, ◌&&◌, String, Option,
  none, some, ltb, eqb, if◌then◌else◌, saturating_add, u32_max, u64_max,
}
use pubky_swap.Store.{SwapRecord, funds_at_risk}
use pubky_swap.Store.Progress.{try_update}

abbrev pub max_driver_retries : ℕ
max_driver_retries = 10

abbrev pub backoff_base : ℕ
backoff_base = 2_000

abbrev pub backoff_max : ℕ
backoff_max = 300_000

pub data Recovery : Type 0 where
  retry : ℕ → Recovery
  give_up : Recovery

unfoldable pub jitter : ℕ → ℕ → ℕ
jitter random millis =
    let spread = millis / 4 in
    if eqb spread 0 then millis else millis - spread + random % (spread * 2 + 1)

-- A duration of at most five minutes does not saturate.
unfoldable pub backoff : ℕ → ℕ → ℕ
unfolding jitter
backoff random attempt =
    let doublings = min (attempt - 1) 16 in
    let base = min (backoff_base * 2 ^ doublings) backoff_max in
    min (jitter random base) backoff_max

unfoldable pub after_failure : ℕ → SwapRecord → Bool → Recovery
unfolding backoff
after_failure random rec transient =
    if funds_at_risk rec
    then retry (backoff random rec.retry_count)
    else if transient && ltb rec.retry_count max_driver_retries
    then retry (backoff random rec.retry_count)
    else give_up

-- `as_secs` of the delay, from now.
abbrev pub due : ℕ → Recovery → Option ℕ
due now (retry delay) = some (saturating_add u64_max now (delay / 1_000))
due now give_up = none

-- The failure on the record, and what it earns.
unfoldable pub count_failure : SwapRecord → String → SwapRecord
count_failure rec e = record rec {
  last_error = some e;
  retry_count = saturating_add u32_max rec.retry_count 1;
}

unfoldable pub record_failure : ℕ → ℕ → SwapRecord → String → Bool → SwapRecord × Recovery
unfolding count_failure after_failure try_update
record_failure random now rec e transient =
    let recovery = after_failure random (count_failure rec e) transient in
    (
      try_update now (λ r. record (count_failure r e) { next_retry_at_unix = due now recovery })
          rec,
      recovery,
    )

-- Two seconds, doubled for each failure after the first, sixteen times at most, and five minutes at
-- most.
abbrev pub plain_delay : ℕ → ℕ
plain_delay failures = min (2_000 * 2 ^ min (failures - 1) 16) 300_000

-- What a swap earns by its failures so far, by whether its funds are at risk and whether the last
-- error may pass.
abbrev pub IsEarned : ℕ → Bool → Bool → Recovery → Type 0
IsEarned failures at_risk transient give_up =
    (at_risk ≡ false) × ((transient ≡ false) ⊎ (10 ≤ failures))
IsEarned failures at_risk transient (retry delay) =
    ((at_risk ≡ true) ⊎ ((transient ≡ true) × (failures < 10)))
    × (1_500 ≤ delay)
    × (delay ≤ 300_000)
    × (plain_delay failures ≤ delay + plain_delay failures / 4)
    × (delay ≤ plain_delay failures + plain_delay failures / 4)
