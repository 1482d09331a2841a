-- ===== src/Pipeline/Guarded.antt =====
-- What gateway/server.py relies on for its guard on tools: facts that services establish and that no
-- other operation takes back.
use mcp_gateway.Base.{ℕ, String, ◌≡◌, Option, none, some}
use mcp_gateway.Base.Json.{Fields}
use mcp_gateway.Models.{ToolCallState, ToolCallRecord, PolicyDecision, ApprovalRequest, Principal}
use mcp_gateway.Effect.{ok, Exec}
use mcp_gateway.Effect.Keeps.{Keeps}
use mcp_gateway.Audit.Record.{AuditEvent}
use mcp_gateway.Policy.{allow}
use mcp_gateway.Registry
use mcp_gateway.Registry.{ToolRegistry}
use mcp_gateway.Registry.Tool.{ToolDefinition}
use mcp_gateway.Repair.Diagnose.{FailureDiagnosis}
use mcp_gateway.Pipeline.Services.{Services, StateStore, ApprovalQueue, ControlPlane, RepairAdvisor}
use mcp_gateway.Pipeline.Call.{Request, input_of}

-- That every tool that ran was allowed to; that a policy or a person has allowed a tool a request; that
-- the queue has been given a request for approval.
pub data Fact : Type 0 where
  safe : Fact
  granted : String → Fields → Fact
  queued : ApprovalRequest → Fact

module _ {W : Type 0} (K : Fact → W → Type 0) where
  abbrev pub IsQuiet : {A : Type 0} → Exec W A → Type 0
  IsQuiet m = (i : Fact) → Keeps (K i) m

  pub record IsStoreQuiet (store : StateStore W) : Type 0 where
    pub create_call : (r : ToolCallRecord) → IsQuiet (store.create_call r)
    pub transition :
        (id : String) (state : ToolCallState) (error : Option String)
        → IsQuiet (store.transition id state error)
    pub finish_attempt :
        (id : String) (n : ℕ) (outcome : String) (error : Option String)
        → IsQuiet (store.finish_attempt id n outcome error)
    pub start_attempt : (id : String) (n : ℕ) → IsQuiet (store.start_attempt id n)
    pub get_call : (id : String) → IsQuiet (store.get_call id)

  -- A queue that returns a request that it was given has it approved.
  pub record IsQueueTrue (queue : ApprovalQueue W) : Type 0 where
    pub submit : (r : ApprovalRequest) → IsQuiet (queue.submit r)
    pub submitted :
        (r : ApprovalRequest) (w w' : W) → queue.submit r w ≡ (ok tt, w') → K (queued r) w'
    pub wait : (id : String) → IsQuiet (queue.wait id)
    pub approved :
        (r q : ApprovalRequest) (w w' : W)
        → K (queued r) w
        → queue.wait r.approval_id w ≡ (ok q, w')
        → K (granted r.tool_name r.arguments) w'

  pub record IsPlaneQuiet (plane : ControlPlane W) : Type 0 where
    pub upsert_tenant : (id name : String) → IsQuiet (plane.upsert_tenant id name)
    pub upsert_principal : (p : Principal) → IsQuiet (plane.upsert_principal p)
    pub upsert_tool_call : (r : ToolCallRecord) → IsQuiet (plane.upsert_tool_call r)
    pub create_approval :
        (r : ApprovalRequest) (tenant : Option String) → IsQuiet (plane.create_approval r tenant)
    pub resolve_approval :
        (id decision approver reason : String) (now : ℕ)
        → IsQuiet (plane.resolve_approval id decision approver reason now)

  abbrev pub IsQueueTrue? : Option (ApprovalQueue W) → Type 0
  IsQueueTrue? none = Unit
  IsQueueTrue? (some queue) = IsQueueTrue queue

  abbrev pub IsPlaneQuiet? : Option (ControlPlane W) → Type 0
  IsPlaneQuiet? none = Unit
  IsPlaneQuiet? (some plane) = IsPlaneQuiet plane

  abbrev pub IsAuditQuiet? : Option (AuditEvent → Exec W (Unit {0})) → Type 0
  IsAuditQuiet? none = Unit
  IsAuditQuiet? (some append) = (e : AuditEvent) → IsQuiet (append e)

  abbrev pub IsAdvisorQuiet? : Option (RepairAdvisor W) → Type 0
  IsAdvisorQuiet? none = Unit
  IsAdvisorQuiet? (some advise) =
      (name : String) (a schema : Fields) (d : FailureDiagnosis) → IsQuiet (advise name a schema d)

  abbrev pub IsStill : {A : Type 0} → (W → A × W) → Type 0
  IsStill f = (i : Fact) (w : W) → K i w → K i (f w).1

  -- The services keep the facts. A decision to allow establishes that its request is granted, and a
  -- tool that starts on a granted request leaves every tool that ran allowed.
  pub record IsGuarded (services : Services W) : Type 0 where
    pub store : IsStoreQuiet services.store
    pub evaluate : (input : Fields) → IsQuiet (services.evaluate input)
    pub allowed :
        (call : Request) (t : ToolDefinition) (request : Fields) (d : PolicyDecision) (w w' : W)
        → services.evaluate (input_of call t request) w ≡ (ok d, w')
        → d.outcome ≡ allow
        → K (granted call.tool_name request) w'
    pub approvals : IsQueueTrue? services.approvals
    pub control_plane : IsPlaneQuiet? services.control_plane
    pub append_audit : IsAuditQuiet? services.append_audit
    pub advisor : IsAdvisorQuiet? services.advisor
    pub now : IsStill services.now
    pub monotonic : IsStill services.monotonic
    pub uniform : IsStill services.uniform
    pub sleep : (t : ℕ) (i : Fact) (w : W) → K i w → K i (services.sleep t w)
    pub new_id : IsStill services.new_id
    pub trace_id : IsStill services.trace_id
    pub start_tool :
        (name : String) (request : Fields) (w : W)
        → K (granted name request) w
        → (i : Fact) → K i w
        → K i (services.start_tool name request w).1

-- A validated request is a fixed point of its own validation: pydantic's round trip of a dump.
abbrev pub IsStable : ToolRegistry → Type 0
IsStable registry =
    (name : String) (arguments request again : Fields)
    → Registry.validate registry name arguments ≡ ok request
    → Registry.validate registry name request ≡ ok again
    → again ≡ request
