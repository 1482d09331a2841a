-- ===== src/Repair/DelayBounds.antt =====
-- The range of the delays of gateway/repair/backoff.py.
use mcp_gateway.Base.{ℕ, ◌+◌, ◌-◌, ◌*◌, ◌≤◌, ◌≡◌, ap, arith}
use mcp_gateway.Repair.Backoff.{BackoffPolicy, Draw, raw_delay, delay}

jitter_le : (raw r size : ℕ) → size ≤ 1000 → raw * r * size ≤ raw * r * 1000
jitter_le raw r size h = grind arith

-- The jitter at its largest, beside what is left of the delay.
split_le : (raw r : ℕ) → r ≤ 1000 → raw * 1000 * (1000 - r) + raw * r * 1000 ≡ raw * 1000000
split_le raw r h = omega (arith, ap (λ (t : ℕ). raw * 1000 * t) (whole r h))
  where
    whole : (r : ℕ) → r ≤ 1000 → (1000 - r) + r ≡ 1000
    whole r h = omega arith

-- With a ratio and a draw of at most 1, the delay lies within the ratio around the delay before
-- jitter, which is at most `max_seconds`: all in nanoseconds, so a thousandth of a thousandth of a
-- millisecond is 1.
pub delay_bounds :
    (p : BackoffPolicy) (n : ℕ) (u : Draw)
    → p.jitter_ratio ≤ 1000
    → u.size ≤ 1000
    → let raw = raw_delay p n in
      (raw * 1000 * (1000 - p.jitter_ratio) ≤ delay p n u)
      × (delay p n u ≤ raw * 1000 * (1000 + p.jitter_ratio))
      × (raw ≤ p.max_seconds)
unfolding delay raw_delay
delay_bounds p n u r s =
    let raw = raw_delay p n in
    (
      ground (arith, jitter_le raw p.jitter_ratio u.size s, split_le raw p.jitter_ratio r),
      ground (arith, jitter_le raw p.jitter_ratio u.size s),
      ground arith,
    )
