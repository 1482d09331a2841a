-- ===== src/Approval/Memory.antt =====
-- `InMemoryApprovalQueue`. The condition makes each operation one step; a waiter is woken by each
-- step and looks again.
use mcp_gateway.Base.{String, Bool, Option, none, some, List, [], ◌∷◌, string_eq}
use mcp_gateway.Base.{◌==◌, if◌then◌else◌}
use mcp_gateway.Base.Dict.{Dict, lookup, insert, values}
use mcp_gateway.Models.{ApprovalRequest}
use mcp_gateway.Errors.{gateway, approval_rejected_error, approval_timeout_error}
use mcp_gateway.Effect.{Result, ok, raise, Exec}
use mcp_gateway.Approval.{decided, resolution, reason_error}

abbrev pub Requests : Type 0
Requests = Dict String ApprovalRequest

unfoldable pub submit : ApprovalRequest → Exec Requests (Unit {0})
submit r s = (ok tt, insert r.approval_id r s)

abbrev decide_found :
    String → Bool → String → String → Option ApprovalRequest → Exec Requests (Unit {0})
decide_found id approved approver reason none s = (raise (gateway approval_timeout_error), s)
decide_found id approved approver reason (some r) s =
    (ok tt, insert id (decided approved approver reason r) s)

-- `strip` is Python's `str.strip`.
unfoldable pub decide :
    (String → String) → String → Bool → String → String → Exec Requests (Unit {0})
decide strip id approved approver reason s =
    if strip reason == ""
    then (raise (gateway (approval_rejected_error reason_error)), s)
    else decide_found id approved approver reason (lookup id s) s

abbrev undecided : List ApprovalRequest → List ApprovalRequest
undecided [] = []
undecided (r ∷ rs) = elim r.decision [ none ↦ r ∷ undecided rs | some d ↦ undecided rs ]

unfoldable pub list_pending : Requests → List ApprovalRequest
list_pending s = undecided (values s)

-- What a waiter sees of the request when it looks. An empty decision counts as none.
abbrev look : Option ApprovalRequest → Option (Result ApprovalRequest)
look none = none
look (some r) = elim r.decision [ none ↦ none | some d ↦ if d == "" then none else resolution r ]

-- `wait`: the states of the queue at the moments when the waiter looks, up to the timeout.
unfoldable pub wait : String → List Requests → Result ApprovalRequest
wait id [] = raise (gateway approval_timeout_error)
wait id (s ∷ later) = elim (look (lookup id s)) [ some r ↦ r | none ↦ wait id later ]
