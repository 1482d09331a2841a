-- ===== src/Tests/ControlPlane.antt =====
-- Inputs for gateway/control_plane: one approval that two operators resolve, and a call with two
-- attempts that is written again.
use mcp_gateway.Base.{
  ◌≤◌, ◌≡◌, refl, true, none, some, List, [], ◌∷◌, map, arith, ◌==◌, string_eq, nat_eq,
  if◌then◌else◌,
}
use mcp_gateway.Base.Dict.{lookup, insert}
use mcp_gateway.Base.Json.{end}
use mcp_gateway.Models.{ToolCallRecord, AttemptRecord, ApprovalRequest, executing}
use mcp_gateway.Effect.{ok}
use mcp_gateway.ControlPlane.Rows.{Database, Engine, transaction, has_tenant, unique_attempts}
use mcp_gateway.ControlPlane.Repository.{
  attempt_row, upsert_tool_call, list_attempts, create_approval, resolve_approval,
  finish_resolution, approval_row,
}
use mcp_gateway.ControlPlane.Resolved.{
  Operation, creation, resolution, resolutions, resolves, perform, resolutions-bound,
  finish_resolution-twice,
}
use mcp_gateway.ControlPlane.Attempts.{list_attempts-upsert_tool_call}

abbrev postgres : Engine
postgres = record { foreign_keys = true; fault = none }

abbrev empty : Database
empty = record {
  tenants = [];
  principals = [];
  tool_calls = [];
  attempts = [];
  approvals = [];
  idempotency_keys = [];
  policy_versions = [];
  configurations = [];
}

abbrev request : ApprovalRequest
request = record {
  approval_id = "approval-1";
  call_id = "call-1";
  tool_name = "shell_exec";
  arguments = end;
  policy_input = end;
  matched_rule = "destructive";
  created_at = 1;
  decision = none;
  approver = none;
  reason = none;
}

abbrev history : List (Engine × Operation)
history =
    (postgres, creation request none)
    ∷ (postgres, resolution "approval-1" "approved" "ann" "fine" 2)
    ∷ (postgres, resolution "approval-1" "rejected" "bob" "no" 3)
    ∷ []

resolved_once : resolutions "approval-1" history empty ≡ 1
unfolding resolutions resolves perform create_approval resolve_approval finish_resolution
    transaction has_tenant lookup insert string_eq
resolved_once = refl

resolutions-bound_example : resolutions "approval-1" history empty ≤ 1
resolutions-bound_example = resolutions-bound "approval-1" history empty

abbrev pending : Database
pending = record empty { approvals = ("approval-1", approval_row request none) ∷ [] }

found : lookup "approval-1" pending.approvals ≡ some (approval_row request none)
unfolding lookup string_eq
found = refl

finish_resolution-twice_example :
    let read = approval_row request none in
    let (r, t) =
      finish_resolution postgres "approval-1" "approved" "ann" "fine" 2 (some read) pending in
    let (r', u) = finish_resolution postgres "approval-1" "rejected" "bob" "no" 3 (some read) t in
    (r ≡ ok true)
    × (r' ≡ ok true)
    × (lookup "approval-1" u.approvals
        ≡ some (record read {
          decision = some "rejected";
          approver = some "bob";
          reason = some "no";
          decided_at = some 3;
        }))
finish_resolution-twice_example =
    finish_resolution-twice postgres postgres "approval-1" "approved" "ann" "fine" "rejected" "bob"
      "no" 2 3 pending (approval_row request none) refl refl found refl

abbrev attempt : AttemptRecord
attempt = record {
  attempt = 1;
  started_at = 1;
  finished_at = some 2;
  outcome = some "failed";
  error = none;
}

abbrev call : ToolCallRecord
call = record {
  call_id = "call-1";
  trace_id = "trace-1";
  session_id = "session-1";
  tool_name = "db_query";
  risk_class = none;
  arguments = end;
  current_state = executing;
  transitions = [];
  attempts = attempt ∷ record attempt { attempt = 2 } ∷ [];
  created_at = 1;
  updated_at = 2;
  principal = none;
}

abbrev stale : Database
stale = record empty { attempts = attempt_row "call-1" attempt ∷ attempt_row "call-0" attempt ∷ [] }

written : (upsert_tool_call postgres call stale).0 ≡ ok tt
unfolding upsert_tool_call transaction has_tenant unique_attempts nat_eq
written = refl

list_attempts-upsert_tool_call_example :
    list_attempts "call-1" (upsert_tool_call postgres call stale).1 ≡ (
      if "call-1" == call.call_id
      then map (attempt_row "call-1") call.attempts
      else list_attempts "call-1" stale)
list_attempts-upsert_tool_call_example =
    list_attempts-upsert_tool_call postgres call stale "call-1" written (omega arith, tt)
