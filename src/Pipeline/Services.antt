-- ===== src/Pipeline/Services.antt =====
-- What `execute_tool_call` of gateway/server.py is given. Each service acts on a world `W`, whose
-- clock, random source and identifiers are among its operations. An operation of the state store
-- reads the clock itself.
use mcp_gateway.Base.{ℕ, String, Option}
use mcp_gateway.Base.Json.{Fields}
use mcp_gateway.Models.{ToolCallRecord, ToolCallState, PolicyDecision, ApprovalRequest, Principal}
use mcp_gateway.Effect.{Exec}
use mcp_gateway.Audit.Record.{AuditEvent}
use mcp_gateway.Repair.Backoff.{Draw}
use mcp_gateway.Repair.Diagnose.{FailureDiagnosis}
use mcp_gateway.Registry.{ToolRegistry}

pub record StateStore (W : Type 0) : Type 0 where
  pub create_call : ToolCallRecord → Exec W (Unit {0})
  pub transition : String → ToolCallState → Option String → Exec W (Unit {0})
  pub finish_attempt : String → ℕ → String → Option String → Exec W (Unit {0})
  pub start_attempt : String → ℕ → Exec W (Unit {0})
  pub get_call : String → Exec W (Option ToolCallRecord)

pub record ApprovalQueue (W : Type 0) : Type 0 where
  pub submit : ApprovalRequest → Exec W (Unit {0})
  pub wait : String → Exec W ApprovalRequest

pub record ControlPlane (W : Type 0) : Type 0 where
  pub upsert_tenant : String → String → Exec W (Unit {0})
  pub upsert_principal : Principal → Exec W (Unit {0})
  pub upsert_tool_call : ToolCallRecord → Exec W (Unit {0})
  pub create_approval : ApprovalRequest → Option String → Exec W (Unit {0})
  pub resolve_approval : String → String → String → String → ℕ → Exec W (Unit {0})

abbrev pub RepairAdvisor : Type 0 → Type 0
RepairAdvisor W = String → Fields → Fields → FailureDiagnosis → Exec W Fields

pub record Services (W : Type 0) : Type 0 where
  pub registry : ToolRegistry
  pub store : StateStore W
  pub evaluate : Fields → Exec W PolicyDecision
  pub approvals : Option (ApprovalQueue W)
  pub control_plane : Option (ControlPlane W)
  pub append_audit : Option (AuditEvent → Exec W (Unit {0}))
  pub advisor : Option (RepairAdvisor W)
  pub now : W → ℕ × W
  pub monotonic : W → ℕ × W
  pub uniform : W → Draw × W
  pub sleep : ℕ → W → W
  pub new_id : W → String × W
  pub trace_id : W → String × W
  -- A handler starts on a validated request; its number selects the handler's answer.
  pub start_tool : String → Fields → W → ℕ × W
