-- ===== src/Tests/Approval.antt =====
-- Inputs for gateway/hitl/queue.py: one request, approved between two looks of its waiter.
use mcp_gateway.Base.{
  String, ◌≡◌, ◌≢◌, refl, true, false, none, some, List, [], ◌∷◌, Any, arith, string_eq, ◌==◌,
}
use mcp_gateway.Base.Dict.{lookup}
use mcp_gateway.Base.Json.{end}
use mcp_gateway.Models.{ApprovalRequest}
use mcp_gateway.Errors.{gateway, approval_rejected_error}
use mcp_gateway.Effect.{ok, raise}
use mcp_gateway.Approval.{resolution}
use mcp_gateway.Approval.Memory.{Requests}
use mcp_gateway.Approval.Redis
use mcp_gateway.Approval.Redis.{Poll, reads, breaks}
use mcp_gateway.Approval.Decisions.{FindsApproved, wait-FindsApproved, wait-decide}

abbrev request : ApprovalRequest
request = record {
  approval_id = "a-1";
  call_id = "call-1";
  tool_name = "shell_exec";
  arguments = end;
  policy_input = end;
  matched_rule = "mutating";
  created_at = 1;
  decision = none;
  approver = none;
  reason = none;
}

abbrev approved_request : ApprovalRequest
approved_request = record request {
  decision = some "approved";
  approver = some "ann";
  reason = some "fine";
}

abbrev pending : Requests
pending = ("a-1", request) ∷ []

abbrev approved : Requests
approved = ("a-1", approved_request) ∷ []

abbrev looks : List Poll
looks = reads pending ∷ reads approved ∷ []

waited : Redis.wait "a-1" looks ≡ ok approved_request
unfolding Redis.wait lookup resolution string_eq
waited = refl

wait-FindsApproved_example : Any (FindsApproved "a-1" approved_request) looks
wait-FindsApproved_example = wait-FindsApproved "a-1" looks approved_request waited

found_request : lookup "a-1" pending ≡ some request
unfolding lookup string_eq
found_request = refl

fine_is_not_empty : ◌==◌ {A = String} "fine" "" ≡ false
unfolding string_eq
fine_is_not_empty = refl

some_reason : ◌≢◌ {A = String} "fine" ""
some_reason h = ground (arith, fine_is_not_empty)

wait-decide_example :
    ((Redis.decide (λ t. t) true true (λ s. s) "a-1" false "ann" "fine" pending).0 ≡ ok tt)
    × (Redis.wait "a-1"
          (reads (Redis.decide (λ t. t) true true (λ s. s) "a-1" false "ann" "fine" pending).1 ∷ [])
        ≡ raise (gateway (approval_rejected_error "fine")))
wait-decide_example =
    wait-decide (λ t. t) (λ s. s) "a-1" "ann" "fine" false pending request [] some_reason
      some_reason found_request
