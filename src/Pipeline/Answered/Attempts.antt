-- ===== src/Pipeline/Answered/Attempts.antt =====
-- The attempts of gateway/server.py and the loop around them end.
use mcp_gateway.Base.{ℕ, Option, none, some}
use mcp_gateway.Base.Json.{Fields}
use mcp_gateway.Effect.Answers.{
  AnyError, Answers, Answers-lift, Answers-bind, Answers-any, Answers-reads, Answers-Ends,
  Ends-Answers, answers_rules, any_rules,
}
use mcp_gateway.Registry.Tool.{ToolDefinition}
use mcp_gateway.Repair.Backoff.{default_policy}
use mcp_gateway.Repair.Diagnose.{FailureDiagnosis}
use mcp_gateway.Repair.Loop.Ends.{RepairerEnds, run-Ends}
use mcp_gateway.Pipeline.Services.{Services, RepairAdvisor}
use mcp_gateway.Pipeline.Call.{Request, Call, on_world}
use mcp_gateway.Pipeline.Attempts.{
  recheck, run_tool, attempt_body, execute_attempt, repair_arguments, loop_repairer, loop_timing,
  loop_context, run_loop,
}
use mcp_gateway.Pipeline.Answered.{IfThere, IsAnswering, IsAnsweringAdvisor, on_world-Answers}
use mcp_gateway.Pipeline.Answered.Phases.{
  validated-Answers, moved-Answers, finished-Answers, check_proposal-Answers,
}

module _ {W : Type 0} (services : Services W) (call : Request)
    (answering : IsAnswering services) where
  open services use {registry}

  recheck-Answers :
      (t : ToolDefinition) (arguments : Fields)
      → Answers AnyError (recheck services call t arguments)
  unfolding recheck
  recheck-Answers t arguments =
      search
        (
          answers_rules,
          any_rules,
          validated-Answers services call answering,
          on_world-Answers,
          answering.evaluate,
        )
        depth 14

  run_tool-Answers : (arguments : Fields) → Answers AnyError (run_tool services call arguments)
  unfolding run_tool
  run_tool-Answers arguments =
      Answers-bind _ _ (validated-Answers services call answering arguments) λ validated.
        Answers-bind _ _ (on_world-Answers _ (Answers-reads _))
          λ number. Answers-lift _ (answering.tools number call.tool_name validated)

  attempt_body-Answers :
      (t : ToolDefinition) (attempt : ℕ) (arguments : Fields)
      → Answers AnyError (attempt_body services call t attempt arguments)
  unfolding attempt_body
  attempt_body-Answers t attempt arguments =
      search
        (answers_rules, recheck-Answers, run_tool-Answers, finished-Answers services call answering)
        depth 12

  execute_attempt-Answers :
      (t : ToolDefinition) (arguments : Fields)
      → Answers AnyError (execute_attempt services call t arguments)
  unfolding execute_attempt
  execute_attempt-Answers t arguments =
      search
        (
          answers_rules,
          any_rules,
          attempt_body-Answers,
          started-Answers,
          moved-Answers services call answering,
          finished-Answers services call answering,
        )
        depth 14
    where
      started-Answers :
          (attempt : ℕ)
          → Answers {S = Call W} AnyError
              (on_world (services.store.start_attempt call.call_id attempt))
      started-Answers attempt =
          Answers-any (on_world-Answers _ (answering.store.start_attempt call.call_id attempt))

  repair_arguments-Answers :
      (t : ToolDefinition) (advise : RepairAdvisor W) (current : Fields) (d : FailureDiagnosis)
      → IsAnsweringAdvisor advise
      → Answers AnyError (repair_arguments services call t advise current d)
  unfolding repair_arguments
  repair_arguments-Answers t advise current d h =
      search (answers_rules, on_world-Answers, h, check_proposal-Answers services call answering)
        depth 10

  repairer-Ends :
      (t : ToolDefinition) (o : Option (RepairAdvisor W))
      → IfThere IsAnsweringAdvisor o
      → RepairerEnds (loop_repairer services call t o)
  repairer-Ends t none h = tt
  repairer-Ends t (some advise) h =
      λ current d. Ends-Answers _ (repair_arguments-Answers t advise current d h)

  pub run_loop-Answers :
      (t : ToolDefinition) (request : Fields) → Answers AnyError (run_loop services call t request)
  unfolding run_loop
  run_loop-Answers t request = Answers-Ends _ (
      run-Ends default_policy (loop_timing services call) (loop_context services call t)
        (execute_attempt services call t) (loop_repairer services call t services.advisor)
        (λ arguments. Ends-Answers _ (execute_attempt-Answers t arguments))
        (repairer-Ends t services.advisor answering.advisor) request)
