-- ===== src/Pipeline/Tracked/Attempts.antt =====
-- The attempts of gateway/server.py and the loop around them: a tool runs in the state EXECUTING.
use mcp_gateway.Base.{ℕ, Option, none, some, ◌⊎◌, inl, inr, ltb}
use mcp_gateway.Base.Json.{Fields}
use mcp_gateway.Models.{ToolCallState, executing}
use mcp_gateway.Errors.{Exn, gateway, other}
use mcp_gateway.Effect.{Exec}
use mcp_gateway.Effect.Keeps.{
  Keeps, Keeps-bind, Keeps-modify, Keeps-lift, Keeps-throw, Keeps-pure, Keeps-gets, Keeps-if,
  Keeps-catch, Keeps-finally,
}
use mcp_gateway.Effect.Guards.{Guards, post, Guards-bind, Guards-weaken, Guards-throw}
use mcp_gateway.Registry.Tool.{ToolDefinition}
use mcp_gateway.Repair.Backoff.{default_policy}
use mcp_gateway.Repair.Diagnose.{FailureDiagnosis}
use mcp_gateway.Repair.Loop.{ask}
use mcp_gateway.Repair.Loop.Guarded.{IsTimeless, run-Guards}
use mcp_gateway.Pipeline.Services.{Services, RepairAdvisor}
use mcp_gateway.Pipeline.Call.{Request, Call}
use mcp_gateway.Pipeline.Attempts.{
  recheck, run_tool, attempt_body, failed_attempt, execute_attempt, repair_arguments, loop_repairer,
  loop_timing, loop_context, run_loop,
}
use mcp_gateway.Pipeline.Answered.{IfThere}
use mcp_gateway.Pipeline.Tracked.{IsReady, executes, IsTracked, IsSteadyAdvisor}
use mcp_gateway.Pipeline.Tracked.Blocks.{
  In, Somewhere, Ready, reaches, held, on_world-steady, on_world-still,
}
use mcp_gateway.Pipeline.Tracked.Phases.{
  transition-lands, finish_attempt-Keeps, check_proposal-Keeps,
}

module _ {W : Type 0} (services : Services W) (call : Request) (At : ToolCallState → W → Type 0)
    (tracked : IsTracked At services) where
  recheck-Keeps :
      {a : ToolCallState} (t : ToolDefinition) (arguments : Fields)
      → Keeps (In At a) (recheck services call t arguments)
  unfolding recheck
  recheck-Keeps t arguments = Keeps-bind _ _ (Keeps-lift _) λ request.
      Keeps-bind _ _ (on_world-steady At _ (tracked.evaluate _)) λ decision.
        Keeps-bind _ _ (Keeps-modify _ λ c p. p) λ u.
          Keeps-if _ _ _ (Keeps-pure tt)
            (Keeps-bind _ _ (Keeps-modify _ λ c p. p) λ u. Keeps-throw _)

  run_tool-Keeps :
      {a : ToolCallState} (arguments : Fields) → Keeps (In At a) (run_tool services call arguments)
  unfolding run_tool
  run_tool-Keeps arguments = Keeps-bind _ _ (Keeps-lift _) λ validated.
      Keeps-bind _ _ (on_world-still At _ (tracked.start_tool call.tool_name validated))
        λ number. Keeps-lift _

  attempt_body-Keeps :
      {a : ToolCallState} (t : ToolDefinition) (attempt : ℕ) (arguments : Fields)
      → Keeps (In At a) (attempt_body services call t attempt arguments)
  unfolding attempt_body
  attempt_body-Keeps t attempt arguments =
      Keeps-bind _ _ (Keeps-if (ltb 1 attempt) _ _ (recheck-Keeps t arguments) (Keeps-pure tt)) λ u.
        Keeps-bind _ _ (run_tool-Keeps arguments) λ result.
          Keeps-bind _ _ (finish_attempt-Keeps services call At tracked attempt _ _)
            λ u. Keeps-pure result

  failed_attempt-Keeps :
      {a : ToolCallState} (attempt : ℕ) (e : Exn)
      → Keeps (In At a) (failed_attempt services call attempt e)
  failed_attempt-Keeps attempt (gateway e) =
      Keeps-bind _ _ (finish_attempt-Keeps services call At tracked attempt _ _)
        λ u. Keeps-throw (gateway e)
  failed_attempt-Keeps attempt (other m) = Keeps-throw (other m)

  execute_from :
      (a : ToolCallState) (t : ToolDefinition) (arguments : Fields)
      → IsReady a
      → Guards
          (In At a)
          (execute_attempt services call t arguments)
          (post (λ out. In At executing) (Ready At) (Somewhere At))
  unfolding execute_attempt
  execute_from a t arguments ready =
      Guards-bind {Q = λ n. In At a} _ _ (as_ready (Keeps-gets _)) λ attempt.
        Guards-bind _ _
          (as_ready (
            Keeps-if (ltb 1 attempt) _ _
              (on_world-steady At _ (tracked.store.start_attempt call.call_id attempt))
              (Keeps-pure tt)))
          λ u.
            Guards-bind _ _
              (transition-lands services call At tracked executing none (executes ready)
                either_ready)
              λ u.
                Guards-weaken (λ c p. p) (λ x c p. p) (λ c p. (executing, tt, p))
                  (held At _ (
                    Keeps-finally _ _
                      (Keeps-catch _ _ (attempt_body-Keeps t attempt arguments)
                        (failed_attempt-Keeps attempt))
                      λ c p. p))
    where
      as_ready :
          {A : Type 0} {m : Exec (Call W) A}
          → Keeps (In At a) m
          → Guards (In At a) m (post (λ x. In At a) (Ready At) (Somewhere At))
      as_ready {m = m} k =
          Guards-weaken (λ c p. p) (λ x c p. p) (λ c p. (a, ready, p)) (held At m k)

      either_ready : (c : Call W) → In At a c ⊎ In At executing c → Ready At c
      either_ready c (inl p) = (a, ready, p)
      either_ready c (inr p) = (executing, tt, p)

  execute_attempt-Guards :
      (t : ToolDefinition) (arguments : Fields)
      → Guards
          (Ready At)
          (execute_attempt services call t arguments)
          (post (λ out. In At executing) (Ready At) (Somewhere At))
  execute_attempt-Guards t arguments = record {
    at = λ c p. (execute_from p.0 t arguments p.1).at c p.2;
  }

  Ready-timeless : IsTimeless (loop_timing services call) (Ready At)
  Ready-timeless = record {
    monotonic = λ c p. (p.0, p.1, tracked.monotonic p.0 c.world p.2);
    uniform = λ c p. (p.0, p.1, tracked.uniform p.0 c.world p.2);
    sleep = λ t c p. (p.0, p.1, tracked.sleep t p.0 c.world p.2);
  }

  repair_arguments-Keeps :
      {a : ToolCallState} (t : ToolDefinition) (advise : RepairAdvisor W) (current : Fields)
      (d : FailureDiagnosis)
      → IsSteadyAdvisor At advise
      → Keeps (In At a) (repair_arguments services call t advise current d)
  unfolding repair_arguments
  repair_arguments-Keeps t advise current d h =
      Keeps-bind _ _ (on_world-steady At _ (h call.tool_name current t.input_schema d)) λ proposed.
        Keeps-bind _ _ (check_proposal-Keeps services call At tracked d current proposed)
          λ u. Keeps-pure proposed

  ask-Guards :
      (t : ToolDefinition) (o : Option (RepairAdvisor W)) (current : Fields) (d : FailureDiagnosis)
      (e : Exn)
      → IfThere (IsSteadyAdvisor At) o
      → Guards
          (Ready At)
          (ask (loop_repairer services call t o) current d e)
          (post (λ proposed. Ready At) (Somewhere At) (Somewhere At))
  unfolding ask
  ask-Guards t none current d e h = Guards-throw e λ c p. (p.0, p.2)
  ask-Guards t (some advise) current d e h = record {
    at = λ c p.
        (Guards-weaken (λ c q. q) (λ x c q. (p.0, p.1, q)) (λ c q. (p.0, q))
            (held At _ (repair_arguments-Keeps t advise current d h))).at
          c p.2;
  }

  -- A loop that returns leaves the call in EXECUTING.
  pub run_loop-Guards :
      (t : ToolDefinition) (request : Fields)
      → Guards (Ready At) (run_loop services call t request) (reaches At λ out. In At executing)
  unfolding run_loop
  run_loop-Guards t request =
      run-Guards default_policy (loop_timing services call) (loop_context services call t)
        (execute_attempt services call t) (loop_repairer services call t services.advisor)
        (λ c. Ready At) (λ c. Ready At) (λ c. Ready-timeless) (λ c. Ready-timeless)
        (λ c s p. (p.0, p.2)) (λ c s p. (p.0, p.2)) (λ c s p. p) (execute_attempt-Guards t)
        (λ c d e. ask-Guards t services.advisor c d e tracked.advisor) request
