-- ===== src/Pipeline/Tracked.antt =====
-- The states of a call in gateway/server.py as a step relation, and what its services do to them: the
-- store's transition is relied on only along a step, and nothing else changes the state.
pub mod Blocks
pub mod Phases
pub mod Attempts
pub mod Whole
use mcp_gateway.Base.{ℕ, String, Option, ◌⊎◌}
use mcp_gateway.Base.Json.{Fields}
use mcp_gateway.Models.{ToolCallState, ToolCallRecord, ApprovalRequest}
use mcp_gateway.Models.{
  received, validated, policy_checked, awaiting_approval, executing, succeeded,
}
use mcp_gateway.Effect.{Exec}
use mcp_gateway.Effect.Keeps.{Keeps}
use mcp_gateway.Effect.Guards.{Guards, post}
use mcp_gateway.Audit.Record.{AuditEvent}
use mcp_gateway.Repair.Diagnose.{FailureDiagnosis}
use mcp_gateway.Pipeline.Services.{Services, StateStore, ApprovalQueue, ControlPlane, RepairAdvisor}
use mcp_gateway.Pipeline.Answered.{IfThere}

-- A state from which a tool may start: policy has been asked, and a person, if there was need.
abbrev pub IsReady : ToolCallState → Type 0
IsReady policy_checked = Unit
IsReady awaiting_approval = Unit
IsReady executing = Unit
IsReady _ = ⊥

pub data Step : ToolCallState → ToolCallState → Type 0 where
  validates : Step received validated
  checks : Step validated policy_checked
  asks : Step policy_checked awaiting_approval
  executes : {a : ToolCallState} → IsReady a → Step a executing
  succeeds : Step executing succeeded
  fails : {a : ToolCallState} → Step a ToolCallState.failed
  denies : {a : ToolCallState} → Step a ToolCallState.denied

module _ {W : Type 0} (At : ToolCallState → W → Type 0) where
  abbrev pub IsSteady : {A : Type 0} → Exec W A → Type 0
  IsSteady m = (a : ToolCallState) → Keeps (At a) m

  abbrev pub IsStill : {A : Type 0} → (W → A × W) → Type 0
  IsStill f = (a : ToolCallState) (w : W) → At a w → At a (f w).1

  -- A transition that raises has been written, or has not.
  pub record IsTrackedStore (store : StateStore W) : Type 0 where
    pub transition :
        (id : String) (a s : ToolCallState) (error : Option String)
        → Step a s
        → Guards
            (At a)
            (store.transition id s error)
            (post (λ u. At s) (λ w. At a w ⊎ At s w) (λ w. At a w ⊎ At s w))
    pub finish_attempt :
        (id : String) (n : ℕ) (outcome : String) (error : Option String)
        → IsSteady (store.finish_attempt id n outcome error)
    pub start_attempt : (id : String) (n : ℕ) → IsSteady (store.start_attempt id n)
    pub get_call : (id : String) → IsSteady (store.get_call id)

  pub record IsSteadyQueue (queue : ApprovalQueue W) : Type 0 where
    pub submit : (r : ApprovalRequest) → IsSteady (queue.submit r)
    pub wait : (id : String) → IsSteady (queue.wait id)

  pub record IsSteadyPlane (plane : ControlPlane W) : Type 0 where
    pub upsert_tool_call : (r : ToolCallRecord) → IsSteady (plane.upsert_tool_call r)
    pub create_approval :
        (r : ApprovalRequest) (tenant_id : Option String)
        → IsSteady (plane.create_approval r tenant_id)
    pub resolve_approval :
        (id decision approver reason : String) (at : ℕ)
        → IsSteady (plane.resolve_approval id decision approver reason at)

  abbrev pub IsSteadyAdvisor : RepairAdvisor W → Type 0
  IsSteadyAdvisor advise =
      (name : String) (arguments schema : Fields) (d : FailureDiagnosis)
      → IsSteady (advise name arguments schema d)

  abbrev pub IsSteadyAudit : (AuditEvent → Exec W (Unit {0})) → Type 0
  IsSteadyAudit append = (event : AuditEvent) → IsSteady (append event)

  pub record IsTracked (services : Services W) : Type 0 where
    pub store : IsTrackedStore services.store
    pub evaluate : (input : Fields) → IsSteady (services.evaluate input)
    pub approvals : IfThere IsSteadyQueue services.approvals
    pub control_plane : IfThere IsSteadyPlane services.control_plane
    pub append_audit : IfThere IsSteadyAudit services.append_audit
    pub advisor : IfThere IsSteadyAdvisor services.advisor
    pub now : IsStill services.now
    pub monotonic : IsStill services.monotonic
    pub uniform : IsStill services.uniform
    pub sleep : (t : ℕ) (a : ToolCallState) (w : W) → At a w → At a (services.sleep t w)
    pub new_id : IsStill services.new_id
    pub start_tool : (name : String) (request : Fields) → IsStill (services.start_tool name request)
