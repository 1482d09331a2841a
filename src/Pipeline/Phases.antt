-- ===== src/Pipeline/Phases.antt =====
-- What `execute_tool_call` of gateway/server.py does before it runs a tool: validation, policy and
-- approval.
use mcp_gateway.Base.{ℕ, String, Bool, true, false, Option, none, some, [], ◌∷◌, ◌++◌, ◌==◌}
use mcp_gateway.Base.{string_eq, contains, if◌then◌else◌}
use mcp_gateway.Base.Json.{Fields}
use mcp_gateway.Models.{ToolCallState, RepairFailure, PolicyDecision}
use mcp_gateway.Models.{repair_failure_eq, schema_mismatch, malformed_json}
use mcp_gateway.Models.{missing_required_field, type_coercion}
use mcp_gateway.Errors.{Exn, GatewayError, gateway, policy_denied_error}
use mcp_gateway.Effect.{Exec, pure, throw, lift, reads, catch, modify, on_gateway, ◌>>=◌, ◌>>◌}
use mcp_gateway.Approval.{create_approval_request}
use mcp_gateway.Policy.{allow, requires_approval}
use mcp_gateway.Registry
use mcp_gateway.Registry.Tool.{ToolDefinition}
use mcp_gateway.Repair.Diagnose.{FailureDiagnosis, diagnose}
use mcp_gateway.Pipeline.Services.{Services, ApprovalQueue, ControlPlane, RepairAdvisor}
use mcp_gateway.Pipeline.Call.{Request, Call, on_world, change_repair, input_of, note_decision}
use mcp_gateway.Pipeline.Call.{on_approval_error, tenant_of, or_text}

-- The categories that the validation phase repairs.
abbrev pub repairable : RepairFailure → Bool
repairable c =
    contains (schema_mismatch ∷ malformed_json ∷ missing_required_field ∷ type_coercion ∷ []) c

module _ {W : Type 0} (services : Services W) (call : Request) where
  open services use {store, registry}

  unfoldable pub transition : ToolCallState → Option String → Exec (Call W) (Unit {0})
  transition state error = on_world (store.transition call.call_id state error)

  unfoldable pub finish_attempt : ℕ → String → Option String → Exec (Call W) (Unit {0})
  finish_attempt attempt outcome error =
      on_world (store.finish_attempt call.call_id attempt outcome error)

  -- The advisor's proposal is recorded and validated; the validated request is returned.
  unfoldable pub check_proposal : FailureDiagnosis → Fields → Fields → Exec (Call W) Fields
  check_proposal d original proposed = do
    modify (λ c. record c {
      repair_attempts =
          c.repair_attempts
          ++ record {
            category = d.category;
            original_arguments = original;
            proposed_arguments = proposed;
            validation_passed = false;
            policy_outcome = none;
            outcome = "proposed";
          }
            ∷ [];
    })
    request ← catch (lift (Registry.validate registry call.tool_name proposed)) (
        on_gateway λ e. (do
          modify (change_repair λ r. record r { outcome = "validation_failed" })
          throw (gateway e)))
    modify (change_repair λ r. record r { validation_passed = true; outcome = "validated" })
    pure request

  abbrev pub ask_advisor :
      Option (RepairAdvisor W) → Exn → Fields → FailureDiagnosis → Exec (Call W) Fields
  ask_advisor none error current d = throw error
  ask_advisor (some advise) error current d = do
    t ← lift (Registry.get registry call.tool_name)
    on_world (advise call.tool_name current t.input_schema d)

  -- The clause for a `GatewayError` of the first validation.
  unfoldable pub repair_first : GatewayError → Exec (Call W) Fields
  unfolding check_proposal
  repair_first e =
      let d = diagnose (gateway e) in
      if repairable d.category
      then (do
        proposed ← ask_advisor services.advisor (gateway e) call.arguments d
        check_proposal d call.arguments proposed)
      else throw (gateway e)

  unfoldable pub validate_request : Exec (Call W) Fields
  unfolding repair_first transition
  validate_request = do
    request ←
        catch (lift (Registry.validate registry call.tool_name call.arguments))
          (on_gateway repair_first)
    transition ToolCallState.validated none
    pure request

  abbrev pub recorded :
      Option (ControlPlane W) → (ControlPlane W → Exec W (Unit {0})) → Exec (Call W) (Unit {0})
  recorded none f = pure tt
  recorded (some plane) f = on_world (f plane)

  abbrev pub deny : PolicyDecision → Exec (Call W) (Unit {0})
  deny decision = do
    transition ToolCallState.denied (some decision.reason)
    finish_attempt 1 "denied" (some decision.reason)

  -- The approval of a request.
  unfoldable pub await_approval :
      Option (ApprovalQueue W) → Fields → Fields → PolicyDecision → Exec (Call W) (Unit {0})
  unfolding transition finish_attempt
  await_approval none request input decision =
      throw
        (gateway (policy_denied_error "Approval is required but no approval queue is configured"))
  await_approval (some queue) request input decision = do
    id ← on_world (reads services.new_id)
    created ← on_world (reads services.now)
    let approval =
        create_approval_request id created call.call_id call.tool_name request input
          decision.matched_rule
    transition ToolCallState.awaiting_approval none
    on_world (queue.submit approval)
    recorded services.control_plane
        (λ plane. plane.create_approval approval (tenant_of call.principal))
    resolved ←
        catch (on_world (queue.wait approval.approval_id))
          λ e. on_approval_error (do deny decision; throw e) e
    modify (λ c. record c { approver_identity = resolved.approver })
    at ← on_world (reads services.now)
    recorded services.control_plane (λ plane.
        plane.resolve_approval approval.approval_id (or_text resolved.decision "approved")
          (or_text resolved.approver "unknown") (or_text resolved.reason "") at)

  abbrev pub granted_by : Fields → Fields → PolicyDecision → Exec (Call W) (Unit {0})
  granted_by request input decision =
      if decision.outcome == requires_approval
      then await_approval services.approvals request input decision
      else if decision.outcome == allow
      then pure tt
      else (do deny decision; throw (gateway (policy_denied_error decision.reason)))

  -- The policy decision on the validated request; the tool's definition is returned.
  unfoldable pub check_policy : Fields → Exec (Call W) ToolDefinition
  unfolding transition await_approval finish_attempt
  check_policy request = do
    t ← lift (Registry.get registry call.tool_name)
    let input = input_of call t request
    modify (λ c. record c { policy_input = input })
    decision ← on_world (services.evaluate input)
    modify (note_decision decision)
    transition ToolCallState.policy_checked none
    granted_by request input decision
    pure t
