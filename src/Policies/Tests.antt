-- ===== src/Policies/Tests.antt =====
-- An exponential delay that is capped.
use nest_batch.Prelude.{◌≤◌, ◌≡◌, refl, none, some, arith}
use nest_batch.Policies.{BackoffConfig, exponential}
use nest_batch.Policies.Retry.{backoff_ms}
use nest_batch.Policies.Delays.{longest, WithinCap, backoff_ms_mono}

abbrev capped : BackoffConfig
capped = exponential 100 (some 1000) none

capped-delays :
    (backoff_ms capped 1 ≡ 100) × (backoff_ms capped 3 ≡ 400) × (backoff_ms capped 7 ≡ 1000)
unfolding backoff_ms
capped-delays = (refl, refl, refl)

later_waits_longer :
    (backoff_ms capped 2 ≤ backoff_ms capped 5) × WithinCap (longest capped) (backoff_ms capped 5)
later_waits_longer = backoff_ms_mono capped 2 5 tt (omega arith)
