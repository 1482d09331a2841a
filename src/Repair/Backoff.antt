-- ===== src/Repair/Backoff.antt =====
-- gateway/repair/backoff.py. The policy's seconds are in milliseconds and its ratio in
-- thousandths; a delay is in nanoseconds. So the products below are exact, where the source rounds
-- floats.
use mcp_gateway.Base.{ℕ, ◌+◌, ◌-◌, ◌*◌, ◌^◌, min, Bool, if◌then◌else◌}

pub record BackoffPolicy : Type 0 where
  pub max_attempts : ℕ
  pub base_seconds : ℕ
  pub max_seconds : ℕ
  pub max_total_seconds : ℕ
  pub jitter_ratio : ℕ

abbrev pub default_policy : BackoffPolicy
default_policy = record {
  max_attempts = 3;
  base_seconds = 250;
  max_seconds = 5000;
  max_total_seconds = 30000;
  jitter_ratio = 200;
}

-- A draw of `random.uniform(-1.0, 1.0)`, in thousandths with its sign.
pub record Draw : Type 0 where
  pub negative : Bool
  pub size : ℕ

abbrev pub nanoseconds : ℕ → ℕ
nanoseconds t = t * 1000000

-- The delay before jitter, in milliseconds. Retries are numbered from 1.
unfoldable pub raw_delay : BackoffPolicy → ℕ → ℕ
raw_delay p retry_number = min p.max_seconds (p.base_seconds * 2 ^ (retry_number - 1))

-- The subtraction that stops at 0 is the `max(0.0, …)`.
unfoldable pub delay : BackoffPolicy → ℕ → Draw → ℕ
delay p retry_number u =
    let raw = raw_delay p retry_number in
    let jitter = raw * p.jitter_ratio * u.size in
    if u.negative then nanoseconds raw - jitter else nanoseconds raw + jitter
