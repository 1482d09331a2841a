-- ===== src/Pipeline/Answered/Phases.antt =====
-- Validation, policy and approval in gateway/server.py end.
use mcp_gateway.Base.{ℕ, String, Option, none, some, ◌==◌, string_eq}
use mcp_gateway.Base.Json.{Fields}
use mcp_gateway.Models.{ToolCallState, PolicyDecision}
use mcp_gateway.Errors.{Exn, GatewayError}
use mcp_gateway.Effect.{reads, Exec, lift}
use mcp_gateway.Effect.Answers.{
  AnyError, Answers, Answers-lift, Answers-reads, Answers-modify, Answers-if, Answers-pure,
  Answers-bind, Answers-any, answers_rules, any_rules, throw_any, catch_any,
}
use mcp_gateway.Policy.{allow, requires_approval}
use mcp_gateway.Registry
use mcp_gateway.Repair.Diagnose.{FailureDiagnosis}
use mcp_gateway.Pipeline.Services.{Services, ApprovalQueue, ControlPlane, RepairAdvisor}
use mcp_gateway.Pipeline.Call.{Request, Call, on_world}
use mcp_gateway.Pipeline.Phases.{
  transition, finish_attempt, check_proposal, ask_advisor, repair_first, validate_request, recorded,
  deny, await_approval, granted_by, check_policy,
}
use mcp_gateway.Pipeline.Answered.{
  StoreError, IfThere, IsAnswering, IsAnsweringQueue, IsAnsweringPlane, IsAnsweringAdvisor,
  on_world-Answers, on_approval_error-Answers, get-Foreseen, validate-Foreseen,
}

module _ {W : Type 0} (services : Services W) (call : Request)
    (answering : IsAnswering services) where
  open services use {registry}

  pub transition-Answers :
      (state : ToolCallState) (error : Option String)
      → Answers StoreError (transition services call state error)
  unfolding transition
  transition-Answers state error =
      on_world-Answers _ (answering.store.transition call.call_id state error)

  pub finish_attempt-Answers :
      (attempt : ℕ) (outcome : String) (error : Option String)
      → Answers StoreError (finish_attempt services call attempt outcome error)
  unfolding finish_attempt
  finish_attempt-Answers attempt outcome error =
      on_world-Answers _ (answering.store.finish_attempt call.call_id attempt outcome error)

  pub validated-Answers :
      (arguments : Fields)
      → Answers {S = Call W} AnyError (lift (Registry.validate registry call.tool_name arguments))
  validated-Answers arguments = Answers-lift _ (validate-Foreseen registry call.tool_name arguments)

  pub got-Answers : Answers {S = Call W} AnyError (lift (Registry.get registry call.tool_name))
  got-Answers = Answers-lift _ (get-Foreseen registry call.tool_name)

  pub moved-Answers :
      (state : ToolCallState) (error : Option String)
      → Answers AnyError (transition services call state error)
  moved-Answers state error = Answers-any (transition-Answers state error)

  pub finished-Answers :
      (attempt : ℕ) (outcome : String) (error : Option String)
      → Answers AnyError (finish_attempt services call attempt outcome error)
  finished-Answers attempt outcome error =
      Answers-any (finish_attempt-Answers attempt outcome error)

  pub check_proposal-Answers :
      (d : FailureDiagnosis) (original proposed : Fields)
      → Answers AnyError (check_proposal services call d original proposed)
  unfolding check_proposal
  check_proposal-Answers d original proposed =
      search (answers_rules, any_rules, validated-Answers) depth 14

  ask_advisor-Answers :
      (advisor : Option (RepairAdvisor W)) (error : Exn) (current : Fields) (d : FailureDiagnosis)
      → IfThere IsAnsweringAdvisor advisor
      → Answers AnyError (ask_advisor services call advisor error current d)
  ask_advisor-Answers none error current d h = throw_any error
  ask_advisor-Answers (some advise) error current d h =
      Answers-bind _ _ got-Answers
        λ t. on_world-Answers _ (h call.tool_name current t.input_schema d)

  repair_first-Answers : (e : GatewayError) → Answers AnyError (repair_first services call e)
  unfolding repair_first
  repair_first-Answers e =
      search
        (answers_rules, any_rules, check_proposal-Answers, ask_advisor-Answers, answering.advisor)
        depth 14

  pub validate_request-Answers : Answers AnyError (validate_request services call)
  unfolding validate_request
  validate_request-Answers =
      search (answers_rules, any_rules, validated-Answers, repair_first-Answers, moved-Answers)
        depth 14

  pub deny-Answers : (decision : PolicyDecision) → Answers AnyError (deny services call decision)
  deny-Answers decision = search (answers_rules, moved-Answers, finished-Answers) depth 10

  recorded-Answers :
      (o : Option (ControlPlane W)) (f : ControlPlane W → Exec W (Unit {0}))
      → IfThere IsAnsweringPlane o
      → ((plane : ControlPlane W) → IsAnsweringPlane plane → Answers AnyError (f plane))
      → Answers AnyError (recorded services call o f)
  recorded-Answers none f h af = search answers_rules
  recorded-Answers (some plane) f h af = on_world-Answers _ (af plane h)

  drawn-Answers : {A : Type 0} (f : W → A × W) → Answers {S = Call W} AnyError (on_world (reads f))
  drawn-Answers f = on_world-Answers _ (Answers-reads f)

  await_approval-Answers :
      (o : Option (ApprovalQueue W)) (request input : Fields) (decision : PolicyDecision)
      → IfThere IsAnsweringQueue o
      → Answers AnyError (await_approval services call o request input decision)
  unfolding await_approval
  await_approval-Answers none request input decision h = throw_any _
  await_approval-Answers (some queue) request input decision h =
      Answers-bind _ _ (drawn-Answers services.new_id) λ id.
        Answers-bind _ _ (drawn-Answers services.now) λ created.
          Answers-bind _ _ (moved-Answers _ _) λ u.
            Answers-bind _ _ (on_world-Answers _ (h.submit _)) λ u.
              Answers-bind _ _
                (recorded-Answers services.control_plane _ answering.control_plane
                  λ plane p. p.create_approval _ _)
                λ u.
                  Answers-bind _ _
                    (catch_any _ _ (on_world-Answers _ (h.wait _)) λ e.
                      on_approval_error-Answers _ e
                        (Answers-bind _ _ (deny-Answers decision) λ u. throw_any e))
                    λ resolved. Answers-bind _ _ (Answers-modify _) λ u.
                      Answers-bind _ _ (drawn-Answers services.now) λ at.
                        recorded-Answers services.control_plane _ answering.control_plane
                          λ plane p. p.resolve_approval _ _ _ _ _

  granted_by-Answers :
      (request input : Fields) (decision : PolicyDecision)
      → Answers AnyError (granted_by services call request input decision)
  granted_by-Answers request input decision =
      Answers-if (decision.outcome == requires_approval) _ _
        (await_approval-Answers services.approvals request input decision answering.approvals)
        (Answers-if (decision.outcome == allow) _ _ (Answers-pure tt)
          (Answers-bind _ _ (deny-Answers decision) λ u. throw_any _))

  pub check_policy-Answers :
      (request : Fields) → Answers AnyError (check_policy services call request)
  unfolding check_policy
  check_policy-Answers request = Answers-bind _ _ got-Answers λ t.
      Answers-bind _ _ (Answers-modify _) λ u.
        Answers-bind _ _ (on_world-Answers _ (answering.evaluate _)) λ decision.
          Answers-bind _ _ (Answers-modify _) λ u.
            Answers-bind _ _ (moved-Answers _ _)
              λ u. Answers-bind _ _ (granted_by-Answers request _ decision) λ u. Answers-pure t
