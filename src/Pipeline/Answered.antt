-- ===== src/Pipeline/Answered.antt =====
-- What the services of gateway/server.py are to do so that every tool call is answered: they end in a
-- value or an `Exception`, and the state store raises only the error that it documents.
pub mod Phases
pub mod Attempts
pub mod Whole
use mcp_gateway.Base.{ℕ, String, ◌≡◌, Option, none, some, arith}
use mcp_gateway.Base.Json.{Fields}
use mcp_gateway.Models.{ToolCallRecord, ToolCallState, ApprovalRequest, Principal}
use mcp_gateway.Errors.{
  Exn, gateway, other, state_store_unavailable_error, approval_timeout_error,
  approval_rejected_error,
}
use mcp_gateway.Effect.{Result, ok, raise, cut_off, Exec, lift}
use mcp_gateway.Effect.Answers.{Foreseen, AnyError, Answers, throw_any, foreseen_ended}
use mcp_gateway.Audit.Record.{AuditEvent}
use mcp_gateway.Registry
use mcp_gateway.Registry.{ToolRegistry}
use mcp_gateway.Registry.Tool
use mcp_gateway.Repair.Diagnose.{FailureDiagnosis}
use mcp_gateway.Pipeline.Services.{Services, StateStore, ApprovalQueue, ControlPlane, RepairAdvisor}
use mcp_gateway.Pipeline.Call.{Call, on_world, on_store_error, on_approval_error}

abbrev pub StoreError : Exn → Type 0
StoreError (gateway state_store_unavailable_error) = Unit
StoreError _ = ⊥

-- Of a service that may not be configured.
abbrev pub IfThere {ℓ} : {A : Type ℓ} → (A → Type 0) → Option A → Type 0
IfThere P none = Unit
IfThere P (some a) = P a

module _ {W : Type 0} where
  pub record IsAnsweringStore (store : StateStore W) : Type 0 where
    pub create_call : (r : ToolCallRecord) → Answers StoreError (store.create_call r)
    pub transition :
        (id : String) (state : ToolCallState) (error : Option String)
        → Answers StoreError (store.transition id state error)
    pub finish_attempt :
        (id : String) (attempt : ℕ) (outcome : String) (error : Option String)
        → Answers StoreError (store.finish_attempt id attempt outcome error)
    pub start_attempt :
        (id : String) (attempt : ℕ) → Answers StoreError (store.start_attempt id attempt)
    pub get_call : (id : String) → Answers StoreError (store.get_call id)

  pub record IsAnsweringQueue (queue : ApprovalQueue W) : Type 0 where
    pub submit : (r : ApprovalRequest) → Answers AnyError (queue.submit r)
    pub wait : (id : String) → Answers AnyError (queue.wait id)

  pub record IsAnsweringPlane (plane : ControlPlane W) : Type 0 where
    pub upsert_tenant : (id name : String) → Answers AnyError (plane.upsert_tenant id name)
    pub upsert_principal : (p : Principal) → Answers AnyError (plane.upsert_principal p)
    pub upsert_tool_call : (r : ToolCallRecord) → Answers AnyError (plane.upsert_tool_call r)
    pub create_approval :
        (r : ApprovalRequest) (tenant_id : Option String)
        → Answers AnyError (plane.create_approval r tenant_id)
    pub resolve_approval :
        (id decision approver reason : String) (at : ℕ)
        → Answers AnyError (plane.resolve_approval id decision approver reason at)

  abbrev pub IsAnsweringAdvisor : RepairAdvisor W → Type 0
  IsAnsweringAdvisor advise =
      (name : String) (arguments schema : Fields) (d : FailureDiagnosis)
      → Answers AnyError (advise name arguments schema d)

  abbrev pub IsAnsweringAudit : (AuditEvent → Exec W (Unit {0})) → Type 0
  IsAnsweringAudit append = (event : AuditEvent) → Answers AnyError (append event)

  pub record IsAnswering (services : Services W) : Type 0 where
    pub store : IsAnsweringStore services.store
    pub evaluate : (input : Fields) → Answers AnyError (services.evaluate input)
    pub approvals : IfThere IsAnsweringQueue services.approvals
    pub control_plane : IfThere IsAnsweringPlane services.control_plane
    pub append_audit : IfThere IsAnsweringAudit services.append_audit
    pub advisor : IfThere IsAnsweringAdvisor services.advisor
    pub tools :
        (tick : ℕ) (name : String) (request : Fields)
        → Foreseen AnyError (Registry.execute_validated services.registry tick name request)

  pub on_world-Answers :
      {A : Type 0} {E : Exn → Type 0} (m : Exec W A) → Answers E m → Answers E (on_world m)
  unfolding on_world
  on_world-Answers m am = record { at = λ c. am.at c.world }

module _ {S A : Type 0} where
  -- The handler of the store's error answers those that the store raises.
  pub on_store_error-Answers :
      {E : Exn → Type 0} (h : Exec S A) (e : Exn)
      → StoreError e
      → Answers E h
      → Answers E (on_store_error h e)
  on_store_error-Answers h (gateway state_store_unavailable_error) u ah = ah
  on_store_error-Answers h e u ah = absurd u

  pub on_approval_error-Answers :
      (h : Exec S A) (e : Exn) → Answers AnyError h → Answers AnyError (on_approval_error h e)
  on_approval_error-Answers h (gateway approval_timeout_error) ah = ah
  on_approval_error-Answers h (gateway (approval_rejected_error m)) ah = ah
  on_approval_error-Answers h e ah = throw_any e

pub get-Foreseen : (s : ToolRegistry) (name : String) → Foreseen AnyError (Registry.get s name)
unfolding Registry.get
get-Foreseen s name = foreseen_ended (Registry.get s name) (ground arith)

pub validate-Foreseen :
    (s : ToolRegistry) (name : String) (arguments : Fields)
    → Foreseen AnyError (Registry.validate s name arguments)
unfolding Registry.validate Registry.get Tool.validate
validate-Foreseen s name arguments =
    foreseen_ended (Registry.validate s name arguments) (ground arith)
