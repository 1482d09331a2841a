-- ===== src/ControlPlane/Repository.antt =====
-- gateway/control_plane/repository.py: the operations of `ControlPlaneRepository`, one transaction
-- each. The clock is a parameter of those whose rows have a default instant.
use mcp_gateway.Base.{
  ℕ, String, Bool, true, false, Option, none, some, List, [], ◌∷◌, ◌++◌, map, ◌==◌, string_eq,
  pair_eq, leb, is_some, if◌then◌else◌,
}
use mcp_gateway.Base.Dict.{lookup, insert, has_key}
use mcp_gateway.Base.Json.{Fields}
use mcp_gateway.Models.{
  Principal, ToolCallRecord, AttemptRecord, ApprovalRequest, ToolCallState, RiskClass, risk_value,
  role_value,
}
use mcp_gateway.Errors.{other}
use mcp_gateway.Effect.{ok, Exec, raise}
use mcp_gateway.ControlPlane.Rows.{
  TenantRow, PrincipalRow, ToolCallRow, AttemptRow, ApprovalRow, IdempotencyKeyRow,
  ConfigurationRow, Database, Engine, integrity_error, transaction, has_tenant, unique_attempts,
}

-- `ToolCallState.value`
abbrev pub state_value : ToolCallState → String
state_value ToolCallState.received = "received"
state_value ToolCallState.validated = "validated"
state_value ToolCallState.policy_checked = "policy_checked"
state_value ToolCallState.awaiting_approval = "awaiting_approval"
state_value ToolCallState.executing = "executing"
state_value ToolCallState.succeeded = "succeeded"
state_value ToolCallState.failed = "failed"
state_value ToolCallState.denied = "denied"

abbrev named_tenant : ℕ → String → Option TenantRow → TenantRow
named_tenant now name none = record { name = name; created_at = now }
named_tenant now name (some row) = record row { name = name }

abbrev verified_row : ℕ → Principal → Option PrincipalRow → PrincipalRow
verified_row now p none = record {
  roles = map role_value p.roles;
  issuer = p.issuer;
  agent_id = p.agent_id;
  created_at = now;
}
verified_row now p (some row) = record row {
  roles = map role_value p.roles;
  issuer = p.issuer;
  agent_id = p.agent_id;
}

abbrev pub approval_row : ApprovalRequest → Option String → ApprovalRow
approval_row r tenant_id = record {
  call_id = r.call_id;
  tenant_id = tenant_id;
  tool_name = r.tool_name;
  arguments = r.arguments;
  policy_input = r.policy_input;
  matched_rule = r.matched_rule;
  decision = r.decision;
  approver = r.approver;
  reason = r.reason;
  created_at = r.created_at;
  decided_at = none;
}

abbrev tenant_of : Option Principal → Option String
tenant_of none = none
tenant_of (some p) = some p.tenant_id

abbrev subject_of : Option Principal → Option String
subject_of none = none
subject_of (some p) = some p.subject

abbrev risk_of : Option RiskClass → Option String
risk_of none = none
risk_of (some r) = some (risk_value r)

abbrev call_row : ToolCallRecord → Option ToolCallRow → ToolCallRow
call_row r none = record {
  trace_id = r.trace_id;
  session_id = r.session_id;
  tenant_id = tenant_of r.principal;
  subject = subject_of r.principal;
  tool_name = r.tool_name;
  risk_class = risk_of r.risk_class;
  arguments = r.arguments;
  current_state = state_value r.current_state;
  policy_decision = none;
  policy_rule = none;
  outcome = none;
  created_at = r.created_at;
  updated_at = r.updated_at;
}
call_row r (some row) = record row {
  trace_id = r.trace_id;
  session_id = r.session_id;
  tenant_id = tenant_of r.principal;
  subject = subject_of r.principal;
  tool_name = r.tool_name;
  risk_class = risk_of r.risk_class;
  arguments = r.arguments;
  current_state = state_value r.current_state;
  updated_at = r.updated_at;
}

abbrev pub attempt_row : String → AttemptRecord → AttemptRow
attempt_row call_id a = record {
  call_id = call_id;
  attempt = a.attempt;
  started_at = a.started_at;
  finished_at = a.finished_at;
  outcome = a.outcome;
  error = a.error;
}

-- `delete(AttemptModel).where(AttemptModel.call_id == call_id)`
unfoldable pub delete_attempts : String → List AttemptRow → List AttemptRow
delete_attempts call_id [] = []
delete_attempts call_id (row ∷ rows) =
    let rest = delete_attempts call_id rows in if row.call_id == call_id then rest else row ∷ rest

-- `select(AttemptModel).where(AttemptModel.call_id == call_id)`
unfoldable pub select_attempts : String → List AttemptRow → List AttemptRow
select_attempts call_id [] = []
select_attempts call_id (row ∷ rows) =
    let rest = select_attempts call_id rows in if row.call_id == call_id then row ∷ rest else rest

-- `order_by(AttemptModel.attempt)`
unfoldable pub by_attempt : AttemptRow → List AttemptRow → List AttemptRow
by_attempt row [] = row ∷ []
by_attempt row (r ∷ rows) =
    let rest = by_attempt row rows in if leb row.attempt r.attempt then row ∷ r ∷ rows else r ∷ rest

unfoldable pub order_attempts : List AttemptRow → List AttemptRow
unfolding by_attempt
order_attempts [] = []
order_attempts (row ∷ rows) = by_attempt row (order_attempts rows)

unfoldable pub list_attempts : String → Database → List AttemptRow
unfolding select_attempts order_attempts
list_attempts call_id s = order_attempts (select_attempts call_id s.attempts)

unfoldable pub get_idempotency_key : String → String → Database → Option IdempotencyKeyRow
get_idempotency_key tenant_id key s = lookup (key, tenant_id) s.idempotency_keys

abbrev write_key : ℕ → String → String → Option IdempotencyKeyRow → IdempotencyKeyRow
write_key now call_id status none = record {
  call_id = call_id;
  status = status;
  created_at = now;
  updated_at = now;
}
write_key now call_id status (some row) = record row { call_id = call_id; status = status }

abbrev write_configuration : ℕ → Fields → ℕ → Option ConfigurationRow → ConfigurationRow
write_configuration now value version none = record {
  value = value;
  version = version;
  updated_at = now;
}
write_configuration now value version (some row) = record row { value = value; version = version }

abbrev pub decided_row : String → String → String → ℕ → ApprovalRow → ApprovalRow
decided_row decision approver reason decided_at row = record row {
  decision = some decision;
  approver = some approver;
  reason = some reason;
  decided_at = some decided_at;
}

module _ (engine : Engine) where
  unfoldable pub upsert_tenant : ℕ → String → String → Exec Database (Unit {0})
  unfolding transaction
  upsert_tenant now id name = transaction engine λ s. (
    ok tt,
    record s { tenants = insert id (named_tenant now name (lookup id s.tenants)) s.tenants },
  )

  unfoldable pub upsert_principal : ℕ → Principal → Exec Database (Unit {0})
  unfolding transaction has_tenant
  upsert_principal now p = transaction engine λ s.
      let key : String × String = (p.tenant_id, p.subject) in
      if has_tenant engine (some p.tenant_id) s
      then (
        ok tt,
        record s {
          principals = insert key (verified_row now p (lookup key s.principals)) s.principals;
        },
      )
      else (integrity_error, s)

  unfoldable pub create_approval : ApprovalRequest → Option String → Exec Database (Unit {0})
  unfolding transaction has_tenant
  create_approval r tenant_id = transaction engine λ s.
      if has_key r.approval_id s.approvals
      then (integrity_error, s)
      else if has_tenant engine tenant_id s
      then (
        ok tt,
        record s { approvals = insert r.approval_id (approval_row r tenant_id) s.approvals },
      )
      else (integrity_error, s)

  -- The update of the four columns, by the key: it does not ask what the row holds by then.
  abbrev pub update_row :
      String → String → String → String → ℕ → Option ApprovalRow → Exec Database Bool
  update_row id decision approver reason decided_at none s = (raise (other "StaleDataError"), s)
  update_row id decision approver reason decided_at (some current) s = (
    ok true,
    record s {
      approvals = insert id (decided_row decision approver reason decided_at current) s.approvals;
    },
  )

  -- The rest of `resolve_approval` after `session.get` has read the row.
  abbrev pub resolve_row :
      String → String → String → String → ℕ → Option ApprovalRow → Exec Database Bool
  resolve_row id decision approver reason decided_at none s = (ok false, s)
  resolve_row id decision approver reason decided_at (some row) s =
      if is_some row.decision
      then (ok false, s)
      else update_row id decision approver reason decided_at (lookup id s.approvals) s

  -- Its second step: the row was read before, with no lock, and other transactions may have committed
  -- since.
  unfoldable pub finish_resolution :
      String → String → String → String → ℕ → Option ApprovalRow → Exec Database Bool
  unfolding transaction
  finish_resolution id decision approver reason decided_at row =
      transaction engine (resolve_row id decision approver reason decided_at row)

  -- Both steps, with nothing in between.
  unfoldable pub resolve_approval : String → String → String → String → ℕ → Exec Database Bool
  unfolding finish_resolution
  resolve_approval id decision approver reason decided_at s =
      finish_resolution id decision approver reason decided_at (lookup id s.approvals) s

  unfoldable pub upsert_tool_call : ToolCallRecord → Exec Database (Unit {0})
  unfolding transaction has_tenant delete_attempts unique_attempts
  upsert_tool_call r = transaction engine λ s.
      let rows = map (attempt_row r.call_id) r.attempts in
      if has_tenant engine (tenant_of r.principal) s
      then if unique_attempts rows
        then (
          ok tt,
          record s {
            tool_calls = insert r.call_id (call_row r (lookup r.call_id s.tool_calls)) s.tool_calls;
            attempts = delete_attempts r.call_id s.attempts ++ rows;
          },
        )
        else (integrity_error, s)
      else (integrity_error, s)

  unfoldable pub put_idempotency_key :
      ℕ → String → String → String → String → Exec Database (Unit {0})
  unfolding transaction has_tenant
  put_idempotency_key now tenant_id key call_id status = transaction engine λ s.
      let k : String × String = (key, tenant_id) in
      if has_tenant engine (some tenant_id) s
      then (
        ok tt,
        record s {
          idempotency_keys =
              insert k (write_key now call_id status (lookup k s.idempotency_keys))
                s.idempotency_keys;
        },
      )
      else (integrity_error, s)

  unfoldable pub record_policy_version :
      ℕ → String → String → Option String → Bool → Exec Database (Unit {0})
  unfolding transaction
  record_policy_version now version bundle_hash bundle_uri signed = transaction engine λ s.
      if has_key version s.policy_versions then (integrity_error, s) else (
        ok tt,
        record s {
          policy_versions =
              insert version
                (record {
                  bundle_hash = bundle_hash;
                  bundle_uri = bundle_uri;
                  signed = signed;
                  created_at = now;
                })
                s.policy_versions;
        },
      )

  unfoldable pub set_configuration : ℕ → String → Fields → ℕ → Exec Database (Unit {0})
  unfolding transaction
  set_configuration now key value version = transaction engine λ s. (
    ok tt,
    record s {
      configurations =
          insert key (write_configuration now value version (lookup key s.configurations))
            s.configurations;
    },
  )
