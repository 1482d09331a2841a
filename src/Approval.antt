-- ===== src/Approval.antt =====
-- gateway/hitl/queue.py: human approval of pending calls.
pub mod Memory
pub mod Redis
pub mod Decisions
use mcp_gateway.Base.{ℕ, String, Bool, true, false, Option, none, some, or_default, ◌==◌, string_eq}
use mcp_gateway.Base.{if◌then◌else◌}
use mcp_gateway.Base.Json.{Fields}
use mcp_gateway.Models.{ApprovalRequest}
use mcp_gateway.Errors.{gateway, approval_rejected_error}
use mcp_gateway.Effect.{Result, ok, raise}

-- `create_approval_request`, with the identifier and the reading of the clock that it draws.
unfoldable pub create_approval_request :
    String → ℕ → String → String → Fields → Fields → String → ApprovalRequest
create_approval_request approval_id now call_id tool_name arguments policy_input matched_rule =
    record {
      approval_id = approval_id;
      call_id = call_id;
      tool_name = tool_name;
      arguments = arguments;
      policy_input = policy_input;
      matched_rule = matched_rule;
      created_at = now;
      decision = none;
      approver = none;
      reason = none;
    }

-- The request that `decide` writes.
unfoldable pub decided : Bool → String → String → ApprovalRequest → ApprovalRequest
decided approved approver reason r = record r {
  decision = some (if approved then "approved" else "rejected");
  approver = some approver;
  reason = some reason;
}

-- `request.reason or "The approval was rejected"`
abbrev pub rejection_text : Option String → String
rejection_text none = "The approval was rejected"
rejection_text (some t) = if t == "" then "The approval was rejected" else t

-- What `wait` does with a request that it reads: `none` is to wait on.
unfoldable pub resolution : ApprovalRequest → Option (Result ApprovalRequest)
resolution r = elim r.decision [
  | none ↦ none
  | some d ↦
      if d == "approved"
      then some (ok r)
      else some (raise (gateway (approval_rejected_error (rejection_text r.reason))))
]

-- `not reason.strip()`, of `reason.strip()`
abbrev pub reason_error : String
reason_error = "An approval or rejection requires a reason"
