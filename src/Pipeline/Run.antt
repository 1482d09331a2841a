-- ===== src/Pipeline/Run.antt =====
-- `execute_tool_call` of gateway/server.py, and the nested `write_audit` and `fail`. A result is
-- given by its payload, without its rendering; tracing and logging are not modelled.
use mcp_gateway.Base.{
  ℕ, ◌-◌, String, Bool, true, false, Option, none, some, List, [], ◌∷◌, string_eq,
}
use mcp_gateway.Base.{contains, if◌then◌else◌}
use mcp_gateway.Base.Json.{Fields}
use mcp_gateway.Models.{
  ToolCallState, ToolCallRecord, AttemptRecord, Principal, RiskClass, tool_call_state_eq,
}
use mcp_gateway.Errors.{Exn, GatewayError, gateway, other, message, code, tool_execution_error}
use mcp_gateway.Errors.{state_store_unavailable_error}
use mcp_gateway.Effect.{Result, ok, raise, cut_off, Exec, pure, gets, reads, catch, ◌>>=◌, ◌>>◌}
use mcp_gateway.Audit.Record.{AuditEvent}
use mcp_gateway.Registry
use mcp_gateway.Registry.Tool.{ToolDefinition}
use mcp_gateway.Repair.Diagnose.{denial_codes}
use mcp_gateway.Pipeline.Services.{Services, ControlPlane}
use mcp_gateway.Pipeline.Call.{Request, Call, new_call, on_world, on_store_error}
use mcp_gateway.Pipeline.Phases.{transition, finish_attempt, validate_request, check_policy}
use mcp_gateway.Pipeline.Attempts.{run_loop}

-- `_tool_result`
pub data Response : Type 0 where
  completed : Fields → Response
  refused : GatewayError → Response

module _ {W : Type 0} (services : Services W) where
  open services use {store, registry}

  module _ (call : Request) where
    -- The attempts of the stored record, which the control plane is told of.
    abbrev pub upserted :
        Option (ControlPlane W) → ToolCallRecord → Exec (Call W) (List AttemptRecord)
    upserted none current = pure current.attempts
    upserted (some plane) current = do
      catch (on_world (plane.upsert_tool_call current)) (λ e. pure tt)
      pure current.attempts

    abbrev pub stored_attempts : Option ToolCallRecord → Exec (Call W) (List AttemptRecord)
    stored_attempts none = pure []
    stored_attempts (some current) = upserted services.control_plane current

    abbrev pub audit_event : String → List AttemptRecord → ℕ → ℕ → Call W → AuditEvent
    audit_event outcome attempts now ended c = record {
      timestamp = now;
      call_id = call.call_id;
      session_id = call.session_id;
      trace_id = call.trace_id;
      tool_name = call.tool_name;
      arguments = call.arguments;
      policy_input = c.policy_input;
      policy_decision = c.policy_outcome;
      matched_rule = c.matched_rule;
      approver_identity = c.approver_identity;
      sandbox_runtime = call.sandbox_runtime;
      attempts = attempts;
      repair_attempts = c.repair_attempts;
      outcome = outcome;
      duration_ms = ended - call.started;
      principal = call.principal;
    }

    abbrev pub audited : Option (AuditEvent → Exec W (Unit {0})) → String → Exec (Call W) (Unit {0})
    audited none outcome = pure tt
    audited (some append) outcome = do
      attempts ←
          catch (do current ← on_world (store.get_call call.call_id); stored_attempts current)
            (on_store_error (pure []))
      ended ← on_world (reads services.monotonic)
      now ← on_world (reads services.now)
      event ← gets (audit_event outcome attempts now ended)
      catch (on_world (append event)) (λ e. pure tt)

    unfoldable pub write_audit : String → Exec (Call W) (Unit {0})
    write_audit = audited services.append_audit

    abbrev pub terminal_state : GatewayError → ToolCallState
    terminal_state e =
        if contains denial_codes (code e) then ToolCallState.denied else ToolCallState.failed

    abbrev pub terminal_outcome : GatewayError → String
    terminal_outcome e = if contains denial_codes (code e) then "denied" else "failed"

    -- The two writes of `fail`: `none`, or the response that tells of the store's error.
    abbrev pub end_call : GatewayError → Exec (Call W) (Option Response)
    end_call error =
        catch
          (do
            transition services call (terminal_state error) (some (message error))
            last ← gets (λ c. c.last_finished_attempt)
            finish_attempt services call last (terminal_outcome error) (some (message error))
            pure none)
          (on_store_error (pure (some (refused state_store_unavailable_error))))

    abbrev pub told : GatewayError → Option Response → Exec (Call W) Response
    told error (some response) = pure response
    told error none = do write_audit (terminal_outcome error); pure (refused error)

    unfoldable pub fail : GatewayError → Exec (Call W) Response
    unfolding write_audit transition finish_attempt
    fail error = do stopped ← end_call error; told error stopped

    -- The two `except` clauses around the phases.
    abbrev pub failed_call : Exn → Exec (Call W) Response
    failed_call (gateway e) = fail e
    failed_call (other m) = fail (tool_execution_error "The tool failed unexpectedly")

    unfoldable pub phases : Exec (Call W) Response
    unfolding validate_request check_policy run_loop transition write_audit
    phases = do
      request ← validate_request services call
      t ← check_policy services call request
      (output, attempts) ← run_loop services call t request
      transition services call ToolCallState.succeeded none
      write_audit "succeeded"
      pure (completed output)

    unfoldable pub call_tool : Exec (Call W) Response
    unfolding phases fail
    call_tool = catch phases failed_call

    abbrev pub new_record : ℕ → Option RiskClass → ToolCallRecord
    new_record now risk_class = record {
      call_id = call.call_id;
      trace_id = call.trace_id;
      session_id = call.session_id;
      tool_name = call.tool_name;
      risk_class = risk_class;
      arguments = call.arguments;
      current_state = ToolCallState.received;
      transitions = record { state = ToolCallState.received; timestamp = now; error = none } ∷ [];
      attempts =
          record { attempt = 1; started_at = now; finished_at = none; outcome = none; error = none }
          ∷ [];
      created_at = now;
      updated_at = now;
      principal = call.principal;
    }

    abbrev pub upsert_caller : ControlPlane W → Option Principal → Exec W (Unit {0})
    upsert_caller plane none = pure tt
    upsert_caller plane (some p) = do
      plane.upsert_tenant p.tenant_id p.tenant_id
      plane.upsert_principal p

    -- `true` where the control plane, if there is one, has the call.
    abbrev pub registered : Option (ControlPlane W) → ToolCallRecord → Exec W Bool
    registered none r = pure true
    registered (some plane) r =
        catch (do upsert_caller plane call.principal; plane.upsert_tool_call r; pure true)
          (λ e. pure false)

    -- The phases, from the world after the call has been recorded.
    abbrev pub from_world : Exec W Response
    from_world w = let (r, c) = call_tool (new_call w) in (r, c.world)

    abbrev pub recorded_call : ToolCallRecord → Bool → Exec W Response
    recorded_call r false =
        pure (refused (tool_execution_error "Durable control-plane persistence is unavailable"))
    recorded_call r true = from_world

    abbrev pub created_call : ToolCallRecord → Bool → Exec W Response
    created_call r false = pure (refused state_store_unavailable_error)
    created_call r true = do known ← registered services.control_plane r; recorded_call r known

  abbrev pub risk_of : Result ToolDefinition → Option RiskClass
  risk_of (ok t) = some t.risk_class
  risk_of (raise e) = none
  risk_of cut_off = none

  unfoldable pub execute_tool_call :
      String → String → Fields → Option Principal → String → Exec W Response
  unfolding call_tool
  execute_tool_call session_id tool_name arguments principal sandbox_runtime = do
    call_id ← reads services.new_id
    started ← reads services.monotonic
    trace_id ← reads services.trace_id
    now ← reads services.now
    let call : Request = record {
      call_id = call_id;
      trace_id = trace_id;
      session_id = session_id;
      tool_name = tool_name;
      arguments = arguments;
      principal = principal;
      sandbox_runtime = sandbox_runtime;
      started = started;
    }
    let r = new_record call now (risk_of (Registry.get registry tool_name))
    created ← catch (do store.create_call r; pure true) (on_store_error (pure false))
    created_call call r created
