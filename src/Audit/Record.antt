-- ===== src/Audit/Record.antt =====
-- `AuditRecord` of gateway/models.py, with `model_dump(mode="json")` written out. How pydantic
-- prints an instant, an integer and a float is a parameter.
use mcp_gateway.Base.{ℕ, String, Option, none, some, List, [], ◌∷◌}
use mcp_gateway.Base.Json.{Json, null, bool, number, str, arr, obj, Items, nil, cons, Fields, end}
use mcp_gateway.Base.Json.{field}
use mcp_gateway.Models.{Principal, Role, role_value, AttemptRecord, RepairAttemptRecord}
use mcp_gateway.Models.{RepairFailure, schema_mismatch, malformed_json, missing_required_field}
use mcp_gateway.Models.{type_coercion, timeout, sandbox_crash, policy_denied, tool_error}

pub record Printer : Type 0 where
  pub iso : ℕ → String
  pub integer : ℕ → String
  pub float : ℕ → String

-- A call that has ended. `duration_ms` is counted in nanoseconds.
pub record AuditEvent : Type 0 where
  pub timestamp : ℕ
  pub call_id : String
  pub session_id : String
  pub trace_id : String
  pub tool_name : String
  pub arguments : Fields
  pub policy_input : Fields
  pub policy_decision : String
  pub matched_rule : Option String
  pub approver_identity : Option String
  pub sandbox_runtime : String
  pub attempts : List AttemptRecord
  pub repair_attempts : List RepairAttemptRecord
  pub outcome : String
  pub duration_ms : ℕ
  pub principal : Option Principal

pub record AuditRecord : Type 0 where
  pub event : AuditEvent
  pub previous_hash : String
  pub record_hash : String

abbrev pub optional_str : Option String → Json
optional_str none = null
optional_str (some s) = str s

abbrev pub failure_value : RepairFailure → String
failure_value schema_mismatch = "schema_mismatch"
failure_value malformed_json = "malformed_json"
failure_value missing_required_field = "missing_required_field"
failure_value type_coercion = "type_coercion"
failure_value timeout = "timeout"
failure_value sandbox_crash = "sandbox_crash"
failure_value policy_denied = "policy_denied"
failure_value tool_error = "tool_error"

abbrev pub role_items : List Role → Items
role_items [] = nil
role_items (r ∷ rs) = cons (str (role_value r)) (role_items rs)

abbrev pub principal_fields : Principal → Fields
principal_fields p = field "subject" (str p.subject) (
    field "tenant_id" (str p.tenant_id) (
      field "roles" (arr (role_items p.roles))
        (field "issuer" (optional_str p.issuer) (field "agent_id" (optional_str p.agent_id) end))))

abbrev pub optional_principal : Option Principal → Json
optional_principal none = null
optional_principal (some p) = obj (principal_fields p)

abbrev repair_items : List RepairAttemptRecord → Items
repair_items [] = nil
repair_items (r ∷ rs) =
    cons
      (obj (
        field "category" (str (failure_value r.category)) (
          field "original_arguments" (obj r.original_arguments) (
            field "proposed_arguments" (obj r.proposed_arguments) (
              field "validation_passed" (bool r.validation_passed) (
                field "policy_outcome" (optional_str r.policy_outcome)
                  (field "outcome" (str r.outcome) end)))))))
      (repair_items rs)

module _ (p : Printer) where
  abbrev optional_iso : Option ℕ → Json
  optional_iso none = null
  optional_iso (some t) = str (p.iso t)

  abbrev attempt_items : List AttemptRecord → Items
  attempt_items [] = nil
  attempt_items (a ∷ rest) =
      cons
        (obj (
          field "attempt" (number (p.integer a.attempt)) (
            field "started_at" (str (p.iso a.started_at)) (
              field "finished_at" (optional_iso a.finished_at) (
                field "outcome" (optional_str a.outcome)
                  (field "error" (optional_str a.error) end))))))
        (attempt_items rest)

  -- The fields in the order of the class.
  unfoldable pub dump : AuditRecord → Fields
  dump r = field "timestamp" (str (p.iso e.timestamp)) (
      field "call_id" (str e.call_id) (
        field "session_id" (str e.session_id) (
          field "trace_id" (str e.trace_id) (
            field "tool_name" (str e.tool_name) (
              field "arguments" (obj e.arguments) (
                field "policy_input" (obj e.policy_input) (
                  field "policy_decision" (str e.policy_decision) (
                    field "matched_rule" (optional_str e.matched_rule) (
                      field "approver_identity" (optional_str e.approver_identity) (
                        field "sandbox_runtime" (str e.sandbox_runtime) (
                          field "attempts" (arr (attempt_items e.attempts)) (
                            field "repair_attempts" (arr (repair_items e.repair_attempts)) (
                              field "outcome" (str e.outcome) (
                                field "duration_ms" (number (p.float e.duration_ms)) (
                                  field "previous_hash" (str r.previous_hash) (
                                    field "record_hash" (str r.record_hash) (
                                      field "principal" (optional_principal e.principal)
                                        end)))))))))))))))))
    where
      open r use {event as e}
