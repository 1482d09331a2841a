-- ===== src/Tests/Repair.antt =====
-- Inputs for gateway/repair: a clock that stands still, and executors that count their calls.
use mcp_gateway.Base.{
  ℕ, zero, suc, ◌*◌, ◌≤◌, max, ◌≡◌, refl, ◌↔◌, ◌⊎◌, Bool, true, false, Option, none, arith,
}
use mcp_gateway.Base.{string_eq}
use mcp_gateway.Base.Json.{Fields, end}
use mcp_gateway.Models.{mutating, read_only, risk_class_eq, repair_failure_eq, policy_denied}
use mcp_gateway.Errors.{gateway, sandbox_timeout_error, policy_unavailable_error}
use mcp_gateway.Effect
use mcp_gateway.Effect.{Result, ok, raise, cut_off, Exec, pure, throw}
use mcp_gateway.Effect.Ends.{Ends}
use mcp_gateway.Effect.Grows.{Grows}
use mcp_gateway.Repair.Diagnose.{FailureDiagnosis, diagnose}
use mcp_gateway.Repair.Denials.{IsDenial, diagnose-IsDenial}
use mcp_gateway.Repair.Backoff.{Draw, default_policy, delay, raw_delay}
use mcp_gateway.Repair.DelayBounds.{delay_bounds}
use mcp_gateway.Repair.Loop
use mcp_gateway.Repair.Loop.{RepairContext, Timing, run, attempts_from, mutates}
use mcp_gateway.Repair.Loop.Ends.{run-Ends}
use mcp_gateway.Repair.Loop.Once.{denied-attempts_from, mutation-run, once}
use mcp_gateway.Repair.Loop.Count.{LeavesCount, run-Grows}

-- The state counts the calls of the executor.
abbrev still : Timing ℕ
still = record {
  monotonic = λ s. (7, s);
  uniform = λ s. (record { negative = false; size = 500 }, s);
  sleep = λ t s. s;
}

abbrev reading : RepairContext
reading = record { risk_class = read_only; idempotent = false }

abbrev writing : RepairContext
writing = record { risk_class = mutating; idempotent = false }

abbrev times_out : Fields → Exec ℕ Bool
times_out c s = (raise (gateway sandbox_timeout_error), suc s)

abbrev denies : Fields → Exec ℕ Bool
denies c s = (raise (gateway policy_unavailable_error), suc s)

-- It succeeds at its second call.
abbrev recovers : Fields → Exec ℕ Bool
recovers c zero = (raise (gateway sandbox_timeout_error), 1)
recovers c (suc s) = (ok true, suc (suc s))

abbrev nobody : Option (Fields → FailureDiagnosis → Exec ℕ Fields)
nobody = none

times_out-Ends : (c : Fields) → Ends (times_out c)
times_out-Ends c = record { at = λ s. refl }

times_out-Grows : (c : Fields) → Grows (λ (s : ℕ). s) 1 (times_out c)
times_out-Grows c = record { at = λ s. omega arith }

still-leaves : LeavesCount (λ (s : ℕ). s) still
still-leaves = record { monotonic = λ s. refl; uniform = λ s. refl; sleep = λ t s. refl }

-- The second attempt of a call that reads succeeds.
second_attempt : run default_policy still reading recovers nobody end 0 ≡ (ok (true, 2), 2)
unfolding run risk_class_eq repair_failure_eq Effect.◌>>=◌ Effect.reads Loop.recover Loop.can_retry
    diagnose string_eq pure Loop.repair delay raw_delay Effect.modify
second_attempt = refl

diagnose-IsDenial_example :
    ((diagnose (gateway policy_unavailable_error)).category ≡ policy_denied)
    ↔ IsDenial (gateway policy_unavailable_error)
diagnose-IsDenial_example = diagnose-IsDenial (gateway policy_unavailable_error)

abbrev draw : Draw
draw = record { negative = true; size = 1000 }

delay_bounds_example :
    (500 * 1000 * 800 ≤ delay default_policy 2 draw)
    × (delay default_policy 2 draw ≤ 500 * 1000 * 1200)
    × (500 ≤ 5000)
unfolding raw_delay
delay_bounds_example = delay_bounds default_policy 2 draw (omega arith) (omega arith)

run-Ends_example : Ends (run default_policy still reading times_out nobody end)
run-Ends_example = run-Ends default_policy still reading times_out nobody times_out-Ends tt end

denied-attempts_from_example :
    attempts_from default_policy still reading denies nobody 3 end 1 7 0
    ≡ (raise (gateway policy_unavailable_error), 1)
denied-attempts_from_example =
    denied-attempts_from default_policy still reading denies nobody 2 end 1 7 0 1
      (gateway policy_unavailable_error) refl
      ((diagnose-IsDenial (gateway policy_unavailable_error)).1 tt)

mutation : mutates writing ≡ true
unfolding risk_class_eq
mutation = refl

mutation-run_example :
    ((run default_policy still writing times_out nobody end 0).0
      ≡ once (raise (gateway sandbox_timeout_error)))
    × (((run default_policy still writing times_out nobody end 0).1 ≡ 1)
        ⊎ ((run default_policy still writing times_out nobody end 0).1 ≡ 1))
mutation-run_example =
    mutation-run default_policy still writing times_out nobody mutation refl end 0

run-Grows_example :
    Grows (λ (s : ℕ). s) (max 1 3) (run default_policy still reading times_out nobody end)
run-Grows_example =
    run-Grows default_policy still reading times_out nobody (λ s. s) still-leaves tt times_out-Grows
      end
