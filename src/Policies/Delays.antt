-- ===== src/Policies/Delays.antt =====
-- The delays that packages/core/src/policies/retry-policy.ts puts between attempts.
use native.Mathlib.Nat.{pow-le-pow_right, mul-le-mul_left}
use nest_batch.Prelude.{ℕ, ◌-◌, ◌*◌, ◌^◌, ◌≤◌, ◌<◌, Option, none, some, arith}
use nest_batch.Policies.{BackoffConfig, fixed, exponential, no_backoff}
use nest_batch.Policies.Retry.{backoff_ms}

-- No factor of an exponential delay is zero.
abbrev pub Grows : BackoffConfig → Type 0
Grows (exponential initial_ms max_ms (some factor)) = 0 < factor
Grows _ = Unit {0}

-- The longest delay that the configuration admits, if it names one
unfoldable pub longest : BackoffConfig → Option ℕ
longest no_backoff = some 0
longest (fixed ms) = some ms
longest (exponential initial_ms max_ms factor) = max_ms

abbrev pub WithinCap : Option ℕ → ℕ → Type 0
WithinCap none ms = Unit {0}
WithinCap (some top) ms = ms ≤ top

power_mono :
    (initial factor : ℕ) {a b : ℕ}
    → 0 < factor
    → a ≤ b
    → initial * factor ^ (a - 1) ≤ initial * factor ^ (b - 1)
power_mono initial factor pos h = mul-le-mul_left initial (pow-le-pow_right pos (omega arith))

-- Where no factor is zero, a later attempt waits no shorter than an earlier one, and none waits
-- longer than the longest delay that the configuration names.
pub backoff_ms_mono :
    (config : BackoffConfig) (a b : ℕ)
    → Grows config
    → a ≤ b
    → (backoff_ms config a ≤ backoff_ms config b) × WithinCap (longest config) (backoff_ms config b)
unfolding backoff_ms longest
backoff_ms_mono no_backoff a b grows h = (omega arith, omega arith)
backoff_ms_mono (fixed ms) a b grows h = (omega arith, omega arith)
backoff_ms_mono (exponential initial none none) a b grows h =
    (power_mono initial 2 (omega arith) h, tt)
backoff_ms_mono (exponential initial none (some factor)) a b grows h =
    (power_mono initial factor grows h, tt)
backoff_ms_mono (exponential initial (some limit) none) a b grows h =
    (omega (arith, power_mono initial 2 (omega arith) h), omega arith)
backoff_ms_mono (exponential initial (some limit) (some factor)) a b grows h =
    (omega (arith, power_mono initial factor grows h), omega arith)
