-- ===== src/Pipeline/Attempts.antt =====
-- The nested `execute_attempt` and `repair_arguments` of gateway/server.py.
use mcp_gateway.Base.{ℕ, suc, Option, none, some, ltb, ◌==◌, string_eq}
use mcp_gateway.Base.{if◌then◌else◌}
use mcp_gateway.Base.Json.{Fields}
use mcp_gateway.Models.{ToolCallState}
use mcp_gateway.Errors.{Exn, gateway, message, policy_denied_error}
use mcp_gateway.Effect.{
  Exec, pure, throw, lift, gets, reads, catch, finally, modify, on_gateway, ◌>>=◌, ◌>>◌,
}
use mcp_gateway.Policy.{allow}
use mcp_gateway.Registry
use mcp_gateway.Registry.Tool.{ToolDefinition}
use mcp_gateway.Repair.Backoff.{default_policy}
use mcp_gateway.Repair.Diagnose.{FailureDiagnosis}
use mcp_gateway.Repair.Loop.{RepairContext, Timing, run}
use mcp_gateway.Pipeline.Services.{Services, RepairAdvisor}
use mcp_gateway.Pipeline.Call.{Request, Call, on_world, change_repair, input_of}
use mcp_gateway.Pipeline.Phases.{transition, finish_attempt, check_proposal}

module _ {W : Type 0} (services : Services W) (call : Request) where
  open services use {store, registry}

  abbrev pub denied_repair : {A : Type 0} → Exec (Call W) A
  denied_repair = do
    modify (change_repair λ r. record r { outcome = "policy_denied" })
    throw (gateway (policy_denied_error "Repaired arguments were denied by policy"))

  -- The policy decision on the arguments of a later attempt.
  unfoldable pub recheck : ToolDefinition → Fields → Exec (Call W) (Unit {0})
  recheck t arguments = do
    request ← lift (Registry.validate registry call.tool_name arguments)
    decision ← on_world (services.evaluate (input_of call t request))
    modify (change_repair λ r. record r { policy_outcome = some decision.outcome })
    if decision.outcome == allow then pure tt else denied_repair

  -- The run of the tool. The worker context that is set around it is an argument of the tool's
  -- handler.
  unfoldable pub run_tool : Fields → Exec (Call W) Fields
  run_tool arguments = do
    validated ← lift (Registry.validate registry call.tool_name arguments)
    number ← on_world (reads (services.start_tool call.tool_name validated))
    lift (Registry.execute_validated registry number call.tool_name validated)

  -- The `try` of an attempt.
  unfoldable pub attempt_body : ToolDefinition → ℕ → Fields → Exec (Call W) Fields
  unfolding recheck run_tool finish_attempt
  attempt_body t attempt arguments = do
    if ltb 1 attempt then recheck t arguments else pure tt
    result ← run_tool arguments
    finish_attempt services call attempt "succeeded" none
    pure result

  abbrev pub failed_attempt : ℕ → Exn → Exec (Call W) Fields
  failed_attempt attempt =
      on_gateway λ e. (do
        finish_attempt services call attempt "failed" (some (message e))
        throw (gateway e))

  -- The `finally` of an attempt.
  abbrev pub count_attempt : ℕ → Call W → Call W
  count_attempt attempt c = record c {
    last_finished_attempt = attempt;
    latest_attempt = suc c.latest_attempt;
  }

  unfoldable pub execute_attempt : ToolDefinition → Fields → Exec (Call W) Fields
  unfolding attempt_body transition finish_attempt
  execute_attempt t arguments = do
    attempt ← gets (λ c. c.latest_attempt)
    if ltb 1 attempt then on_world (store.start_attempt call.call_id attempt) else pure tt
    transition services call ToolCallState.executing none
    finally (catch (attempt_body t attempt arguments) (failed_attempt attempt))
        (count_attempt attempt)

  -- What the loop is given to repair with: the proposal, once it is valid.
  unfoldable pub repair_arguments :
      ToolDefinition → RepairAdvisor W → Fields → FailureDiagnosis → Exec (Call W) Fields
  unfolding check_proposal
  repair_arguments t advise current d = do
    proposed ← on_world (advise call.tool_name current t.input_schema d)
    check_proposal services call d current proposed
    pure proposed

  abbrev pub loop_repairer :
      ToolDefinition
      → Option (RepairAdvisor W)
      → Option (Fields → FailureDiagnosis → Exec (Call W) Fields)
  loop_repairer t none = none
  loop_repairer t (some advise) = some (repair_arguments t advise)

  abbrev pub loop_timing : Timing (Call W)
  loop_timing = record {
    monotonic = λ c. let (t, w) = services.monotonic c.world in (t, record c { world = w });
    uniform = λ c. let (u, w) = services.uniform c.world in (u, record c { world = w });
    sleep = λ t c. record c { world = services.sleep t c.world };
  }

  abbrev pub loop_context : ToolDefinition → RepairContext
  loop_context t = record { risk_class = t.risk_class; idempotent = t.idempotent }

  -- `RepairLoop().run(…)`
  unfoldable pub run_loop : ToolDefinition → Fields → Exec (Call W) (Fields × ℕ)
  unfolding execute_attempt repair_arguments
  run_loop t request =
      run default_policy loop_timing (loop_context t) (execute_attempt t)
        (loop_repairer t services.advisor) request
