-- ===== src/Approval/Redis.antt =====
-- `RedisApprovalQueue`. Requests are JSON values under `gateway:approval:<id>`, named here by their
-- identifiers; pydantic's text of a request reads back as that request (Store/Redis has the texts of
-- the records). Expiry is a command of the server that the waiter does not send.
use mcp_gateway.Base.{String, Bool, true, false, Option, none, some, List, [], ◌∷◌, string_eq}
use mcp_gateway.Base.{◌==◌, if◌then◌else◌}
use mcp_gateway.Base.Dict.{lookup, insert}
use mcp_gateway.Models.{ApprovalRequest}
use mcp_gateway.Errors.{gateway, approval_rejected_error, approval_timeout_error}
use mcp_gateway.Errors.{state_store_unavailable_error}
use mcp_gateway.Effect.{Result, ok, raise, Exec}
use mcp_gateway.Approval.{decided, resolution, reason_error}
use mcp_gateway.Approval.Memory.{Requests}

-- Whether the server answers a command, or the client raises a `RedisError` or an `OSError`.
unfoldable pub submit : Bool → ApprovalRequest → Exec Requests (Unit {0})
submit true r s = (ok tt, insert r.approval_id r s)
submit false r s = (raise (gateway state_store_unavailable_error), s)

-- The SET that follows the GET; `others` is what other clients write between the two.
abbrev decide_found :
    Bool
    → (Requests → Requests)
    → String
    → Bool
    → String
    → String
    → Option ApprovalRequest
    → Exec Requests (Unit {0})
decide_found answers others id approved approver reason none s =
    (raise (gateway approval_timeout_error), s)
decide_found false others id approved approver reason (some r) s =
    (raise (gateway state_store_unavailable_error), others s)
decide_found true others id approved approver reason (some r) s =
    (ok tt, insert id (decided approved approver reason r) (others s))

unfoldable pub decide :
    (String → String)
    → Bool
    → Bool
    → (Requests → Requests)
    → String
    → Bool
    → String
    → String
    → Exec Requests (Unit {0})
decide strip get_answers set_answers others id approved approver reason s =
    if strip reason == ""
    then (raise (gateway (approval_rejected_error reason_error)), s)
    else if get_answers
    then decide_found set_answers others id approved approver reason (lookup id s) s
    else (raise (gateway state_store_unavailable_error), s)

abbrev pub poll : Option ApprovalRequest → Option (Result ApprovalRequest)
poll none = none
poll (some r) = resolution r

-- What one round of the loop of `wait` meets.
pub data Poll : Type 0 where
  reads : Requests → Poll
  breaks : Poll

-- `wait`: the rounds up to the timeout.
unfoldable pub wait : String → List Poll → Result ApprovalRequest
wait id [] = raise (gateway approval_timeout_error)
wait id (breaks ∷ later) = raise (gateway state_store_unavailable_error)
wait id (reads s ∷ later) = elim (poll (lookup id s)) [ some r ↦ r | none ↦ wait id later ]
