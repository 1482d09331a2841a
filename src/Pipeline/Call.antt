-- ===== src/Pipeline/Call.antt =====
-- The variables of one `execute_tool_call` of gateway/server.py, and the helpers on them.
use mcp_gateway.Base.{ℕ, String, Option, none, some, List, [], ◌∷◌, ◌==◌, string_eq}
use mcp_gateway.Base.{if◌then◌else◌}
use mcp_gateway.Base.Json.{Fields, str, obj, arr, nil, cons, field, end}
use mcp_gateway.Models.{Principal, RepairAttemptRecord, risk_value}
use mcp_gateway.Models.{PolicyDecision}
use mcp_gateway.Errors.{Exn, gateway, state_store_unavailable_error, approval_timeout_error}
use mcp_gateway.Errors.{approval_rejected_error}
use mcp_gateway.Effect.{Exec, throw}
use mcp_gateway.Audit.Record.{principal_fields}
use mcp_gateway.Policy.{allow}
use mcp_gateway.Registry.Tool.{ToolDefinition}

-- The arguments of the call, and the identifiers that it has drawn.
pub record Request : Type 0 where
  pub call_id : String
  pub trace_id : String
  pub session_id : String
  pub tool_name : String
  pub arguments : Fields
  pub principal : Option Principal
  pub sandbox_runtime : String
  pub started : ℕ

-- The variables that the nested functions share.
pub record Call (W : Type 0) : Type 0 where
  pub world : W
  pub latest_attempt : ℕ
  pub last_finished_attempt : ℕ
  pub policy_outcome : String
  pub policy_input : Fields
  pub matched_rule : Option String
  pub approver_identity : Option String
  pub repair_attempts : List RepairAttemptRecord

abbrev pub new_call : {W : Type 0} → W → Call W
new_call w = record {
  world = w;
  latest_attempt = 1;
  last_finished_attempt = 1;
  policy_outcome = "not_evaluated";
  policy_input = end;
  matched_rule = none;
  approver_identity = none;
  repair_attempts = [];
}

-- A service's operation leaves the variables.
unfoldable pub on_world : {W A : Type 0} → Exec W A → Exec (Call W) A
on_world m c = let (r, w) = m c.world in (r, record c { world = w })

-- `repair_attempts[-1]`, if there is one, is changed.
unfoldable pub change_last :
    (RepairAttemptRecord → RepairAttemptRecord)
    → List RepairAttemptRecord
    → List RepairAttemptRecord
change_last f [] = []
change_last f (r ∷ []) = f r ∷ []
change_last f (r ∷ s ∷ rs) = r ∷ change_last f (s ∷ rs)

abbrev pub change_repair :
    {W : Type 0} → (RepairAttemptRecord → RepairAttemptRecord) → Call W → Call W
change_repair f c = record c { repair_attempts = change_last f c.repair_attempts }

-- `except StateStoreUnavailableError`
abbrev pub on_store_error : {W A : Type 0} → Exec W A → Exn → Exec W A
on_store_error h (gateway state_store_unavailable_error) = h
on_store_error h e = throw e

-- `except (ApprovalTimeoutError, ApprovalRejectedError)`
abbrev pub on_approval_error : {W A : Type 0} → Exec W A → Exn → Exec W A
on_approval_error h (gateway approval_timeout_error) = h
on_approval_error h (gateway (approval_rejected_error m)) = h
on_approval_error h e = throw e

-- What policies see of the caller.
abbrev pub principal_input : Option Principal → Fields
principal_input none =
    field "subject" (str "anonymous")
      (field "tenant_id" (str "local") (field "roles" (arr (cons (str "admin") nil)) end))
principal_input (some p) = principal_fields p

-- The policy input of a validated request.
abbrev pub input_of : Request → ToolDefinition → Fields → Fields
input_of call t request = field "tool_name" (str call.tool_name) (
    field "risk_class" (str (risk_value t.risk_class)) (
      field "arguments" (obj request)
        (field "principal" (obj (principal_input call.principal)) end)))

-- `t or d`
abbrev pub or_text : Option String → String → String
or_text none d = d
or_text (some t) d = if t == "" then d else t

abbrev pub tenant_of : Option Principal → Option String
tenant_of none = none
tenant_of (some p) = some p.tenant_id

-- The decision, on the variables.
abbrev pub note_decision : {W : Type 0} → PolicyDecision → Call W → Call W
note_decision d c = record c {
  policy_outcome = d.outcome;
  matched_rule = some d.matched_rule;
  repair_attempts =
      change_last
        (λ r. record r {
          policy_outcome = some d.outcome;
          outcome = if d.outcome == allow then r.outcome else "policy_denied";
        })
        c.repair_attempts;
}
