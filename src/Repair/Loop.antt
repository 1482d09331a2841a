-- ===== src/Repair/Loop.antt =====
-- gateway/repair/loop.py: run a tool, and repair and retry it within bounds. The clock, the random
-- draws and `sleep` are parameters, as they are the loop's injectable dependencies.
pub mod Ends
pub mod Once
pub mod Count
pub mod Guarded
use mcp_gateway.Base.{ℕ, zero, suc, ◌+◌, String, Bool, true, false, not, ◌&&◌, Option, none, some}
use mcp_gateway.Base.{List, [], ◌∷◌, ◌==◌, contains, ltb, leb, if◌then◌else◌}
use mcp_gateway.Base.Json.{Fields}
use mcp_gateway.Models.{RiskClass, RepairFailure, risk_class_eq, repair_failure_eq}
use mcp_gateway.Models.{schema_mismatch, malformed_json, missing_required_field, type_coercion}
use mcp_gateway.Models.{timeout, sandbox_crash, policy_denied, tool_error}
use mcp_gateway.Errors.{Exn, gateway, needs_review_error}
use mcp_gateway.Effect.{Result, ok, raise, cut_off, Exec, pure, throw, lift, reads}
use mcp_gateway.Effect.{modify, ◌>>=◌, ◌>>◌}
use mcp_gateway.Repair.Diagnose.{FailureDiagnosis, diagnose}
use mcp_gateway.Repair.Backoff.{BackoffPolicy, Draw, delay, nanoseconds}

-- What the loop reads of a tool.
pub record RepairContext : Type 0 where
  pub risk_class : RiskClass
  pub idempotent : Bool

pub record Timing (S : Type 0) : Type 0 where
  pub monotonic : S → ℕ × S
  pub uniform : S → Draw × S
  pub sleep : ℕ → S → S

abbrev pub transient : RepairFailure → Bool
transient c = contains (timeout ∷ sandbox_crash ∷ []) c

abbrev pub retryable : RepairFailure → Bool
retryable c =
    contains
      (schema_mismatch ∷ malformed_json ∷ missing_required_field ∷ type_coercion ∷ timeout
        ∷ sandbox_crash ∷ tool_error ∷ [])
      c

abbrev pub mutates : RepairContext → Bool
mutates context = not (context.risk_class == RiskClass.read_only)

abbrev pub review_message : String
review_message = "A mutating call may have partially executed and needs review"

-- `if repairer is None: raise`, and the call of the repairer otherwise.
unfoldable pub ask :
    {S : Type 0}
    → Option (Fields → FailureDiagnosis → Exec S Fields)
    → Fields
    → FailureDiagnosis
    → Exn
    → Exec S Fields
ask none current diagnosis error = throw error
ask (some propose) current diagnosis error = propose current diagnosis

module _ {S Output : Type 0} (policy : BackoffPolicy) (timing : Timing S) (context : RepairContext)
    (executor : Fields → Exec S Output)
    (repairer : Option (Fields → FailureDiagnosis → Exec S Fields)) where
  unfoldable pub can_retry : FailureDiagnosis → ℕ → ℕ → Exec S Bool
  can_retry diagnosis attempt started =
      if diagnosis.category == policy_denied
      then pure false
      else if leb policy.max_attempts attempt
      then pure false
      else (do
        now ← reads timing.monotonic
        if leb (nanoseconds policy.max_total_seconds + started) now
            then pure false
            else if mutates context && not context.idempotent
            then pure false
            else pure (retryable diagnosis.category))

  -- The error of a call that is not retried.
  unfoldable pub give_up : FailureDiagnosis → Exn → Exec S (Output × ℕ)
  give_up diagnosis error =
      if transient diagnosis.category && mutates context
      then throw (gateway (needs_review_error review_message))
      else throw error

  unfoldable pub repair : Fields → FailureDiagnosis → Exn → Exec S Fields
  repair current diagnosis error =
      if transient diagnosis.category then pure current else ask repairer current diagnosis error

  -- The `except` block. `again` is the next round of the `while`.
  unfoldable pub recover :
      (Fields → ℕ → Exec S (Output × ℕ)) → Fields → ℕ → ℕ → Exn → Exec S (Output × ℕ)
  recover again current attempt started error = do
    let diagnosis = diagnose error
    retry ← can_retry diagnosis attempt started
    if not retry then give_up diagnosis error else (do
      repaired ← repair current diagnosis error
      draw ← reads timing.uniform
      let pause = delay policy attempt draw
      now ← reads timing.monotonic
      if ltb (nanoseconds policy.max_total_seconds + started) (now + pause)
          then throw error
          else (do modify (timing.sleep pause); again repaired (suc attempt)))

  abbrev pub settle :
      (Fields → ℕ → Exec S (Output × ℕ)) → Fields → ℕ → ℕ → Result Output → Exec S (Output × ℕ)
  settle again current attempt started (ok output) = pure (output, attempt)
  settle again current attempt started (raise error) = recover again current attempt started error
  settle again current attempt started cut_off = lift cut_off

  -- `while True`, with fuel.
  unfoldable pub attempts_from : ℕ → Fields → ℕ → ℕ → Exec S (Output × ℕ)
  attempts_from zero current attempt started s = (cut_off, s)
  attempts_from (suc fuel) current attempt started s =
      let (r, s') = executor current s in
      settle (λ c n. attempts_from fuel c n started) current attempt started r s'

  -- The attempts are numbered from 1 and end at `max_attempts`.
  unfoldable pub run : Fields → Exec S (Output × ℕ)
  unfolding attempts_from
  run arguments = do
    started ← reads timing.monotonic
    attempts_from (suc policy.max_attempts) arguments 1 started
