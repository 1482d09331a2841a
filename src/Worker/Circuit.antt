-- ===== src/Worker/Circuit.antt =====
-- gateway/workers/circuit.py: the breaker in front of the worker pool. Instants and the time to reset
-- are in microseconds.
use mcp_gateway.Base.{ℕ, suc, ◌+◌, max, ◌≡◌, refl, Bool, false, ◌&&◌, Option, none, some, arith}
use mcp_gateway.Base.{List, [], ◌∷◌, ◌++◌, length, ltb, leb, if◌then◌else◌}
use mcp_gateway.Errors.{other}
use mcp_gateway.Effect.{Result, ok, raise, Exec}

pub record CircuitBreaker : Type 0 where
  pub failure_threshold : ℕ
  pub reset_timeout : ℕ
  pub failures : ℕ
  pub opened_at : Option ℕ

unfoldable pub new_breaker : ℕ → ℕ → CircuitBreaker
new_breaker failure_threshold reset_timeout = record {
  failure_threshold = max 1 failure_threshold;
  reset_timeout = reset_timeout;
  failures = 0;
  opened_at = none;
}

-- `elapsed < reset_timeout`, also where the clock was set back
unfoldable pub is_open : ℕ → CircuitBreaker → Bool
is_open now b = elim b.opened_at [ none ↦ false | some t ↦ ltb now (t + b.reset_timeout) ]

abbrev circuit_open : {A : Type 0} → Result A
circuit_open = raise (other "Execution worker circuit is open")

unfoldable pub allow : ℕ → Exec CircuitBreaker (Unit {0})
unfolding is_open
allow now b = if is_open now b then (circuit_open, b) else elim b.opened_at [
  | none ↦ (ok tt, b)
  | some t ↦ (ok tt, record b { opened_at = none; failures = 0 })
]

unfoldable pub record_success : CircuitBreaker → CircuitBreaker
record_success b = record b { failures = 0; opened_at = none }

unfoldable pub record_failure : ℕ → CircuitBreaker → CircuitBreaker
record_failure now b = record b {
  failures = suc b.failures;
  opened_at = if leb b.failure_threshold (suc b.failures) then some now else b.opened_at;
}

-- Failures at the given instants, with no success between them.
abbrev pub record_failures : List ℕ → CircuitBreaker → CircuitBreaker
record_failures [] b = b
record_failures (t ∷ ts) b = record_failures ts (record_failure t b)

abbrev pub refused_if : Bool → Result (Unit {0})
refused_if refuses = if refuses then circuit_open else ok tt

-- Below the threshold a breaker is closed.
abbrev IsCounting : CircuitBreaker → Type 0
IsCounting b = leb b.failure_threshold b.failures ≡ false → b.opened_at ≡ none

record_failure-IsCounting :
    (now : ℕ) (b : CircuitBreaker) → IsCounting b → IsCounting (record_failure now b)
unfolding record_failure
record_failure-IsCounting now b h e = ground (arith, e, h)

allow-record_failure :
    (b : CircuitBreaker) (t now : ℕ)
    → IsCounting b
    → (allow now (record_failure t b)).0
      ≡ refused_if (leb b.failure_threshold (suc b.failures) && ltb now (t + b.reset_timeout))
unfolding allow is_open record_failure
allow-record_failure b t now h = ground (arith, h)

later_failures :
    (b : CircuitBreaker) (ts : List ℕ) (t now : ℕ)
    → IsCounting b
    → (allow now (record_failures (ts ++ t ∷ []) b)).0
      ≡ refused_if
          (leb b.failure_threshold (suc (b.failures + length ts)) && ltb now (t + b.reset_timeout))
unfolding record_failure
later_failures b [] t now h = ground (arith, allow-record_failure b t now h)
later_failures b (u ∷ us) t now h =
    ground (arith, later_failures (record_failure u b) us t now (record_failure-IsCounting u b h))

-- After consecutive failures, the last one at `t`, a new breaker refuses a submission at `now` exactly
-- if there were as many as the threshold, at least one, and the time to reset has not passed since
-- `t`; else it lets the submission through.
pub allow-record_failures :
    (failure_threshold reset_timeout : ℕ) (earlier : List ℕ) (t now : ℕ)
    → (allow now
        (record_failures (earlier ++ t ∷ []) (new_breaker failure_threshold reset_timeout))).0
      ≡ refused_if
          (leb (max 1 failure_threshold) (suc (length earlier)) && ltb now (t + reset_timeout))
unfolding new_breaker
allow-record_failures failure_threshold reset_timeout earlier t now =
    ground
      (arith, later_failures (new_breaker failure_threshold reset_timeout) earlier t now λ e. refl)
