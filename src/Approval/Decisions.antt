-- ===== src/Approval/Decisions.antt =====
-- What waiters and operators of gateway/hitl/queue.py can rely on.
use mcp_gateway.Base.{
  String, ◌≡◌, ◌≢◌, refl, ap, ◌∙◌, Bool, true, false, Option, none, some, List, [], ◌∷◌, Any,
}
use mcp_gateway.Base.{arith, ◌==◌, string_eq, if◌then◌else◌, Option-cases, inl, inr}
use mcp_gateway.Base.Dict.{lookup, insert, lookup-insert_self}
use mcp_gateway.Models.{ApprovalRequest}
use mcp_gateway.Errors.{gateway, approval_rejected_error}
use mcp_gateway.Effect.{ok, raise}
use mcp_gateway.Approval.{decided, resolution}
use mcp_gateway.Approval.Memory.{Requests}
use mcp_gateway.Approval.Redis
use mcp_gateway.Approval.Redis.{Poll, reads, breaks, poll}

-- A round that finds the request, approved.
abbrev pub FindsApproved : String → ApprovalRequest → Poll → Type 0
FindsApproved id r (reads s) = (lookup id s ≡ some r) × (r.decision ≡ some "approved")
FindsApproved id r breaks = ⊥

resolution_ok :
    (q r : ApprovalRequest) → resolution q ≡ some (ok r) → (q ≡ r) × (r.decision ≡ some "approved")
unfolding resolution
resolution_ok q r h = ground arith

poll_ok :
    (id : String) (s : Requests) (o : Option ApprovalRequest) (r : ApprovalRequest)
    → lookup id s ≡ o
    → poll o ≡ some (ok r)
    → FindsApproved id r (reads s)
poll_ok id s none r e h = absurd (cc h)
poll_ok id s (some q) r e h =
    let (same, approved) = resolution_ok q r h in (e ∙ ap some same, approved)

-- `RedisApprovalQueue.wait` returns a request only if one of its rounds read it from the server with
-- the decision "approved".
pub wait-FindsApproved :
    (id : String) (polls : List Poll) (r : ApprovalRequest)
    → Redis.wait id polls ≡ ok r
    → Any (FindsApproved id r) polls
unfolding Redis.wait
wait-FindsApproved id [] r h = absurd (cc h)
wait-FindsApproved id (breaks ∷ later) r h = absurd (cc h)
wait-FindsApproved id (reads s ∷ later) r h = elim (Option-cases (poll (lookup id s))) [
  | inl e ↦ inr (wait-FindsApproved id later r (rw (e, Redis.wait) at h))
  | inr (o, e) ↦ inl (poll_ok id s (lookup id s) r refl (ground (arith, e)))
]

-- What is left of `decide` when both commands are answered.
decide_answered :
    (strip : String → String) (others : Requests → Requests) (id approver reason : String)
    (approved : Bool) (s : Requests) (r : ApprovalRequest)
    → strip reason ≢ ""
    → lookup id s ≡ some r
    → Redis.decide strip true true others id approved approver reason s
      ≡ (ok tt, insert id (decided approved approver reason r) (others s))
unfolding Redis.decide
decide_answered strip others id approver reason approved s r n found = ground arith

rejected_is_not_approved : ◌==◌ {A = String} "rejected" "approved" ≡ false
unfolding string_eq
rejected_is_not_approved = refl

wait_decided :
    (id approver reason : String) (approved : Bool) (s : Requests) (r : ApprovalRequest)
    (later : List Poll)
    → reason ≢ ""
    → lookup id s ≡ some (decided approved approver reason r)
    → Redis.wait id (reads s ∷ later) ≡ (
        if approved
        then ok (decided true approver reason r)
        else raise (gateway (approval_rejected_error reason)))
unfolding Redis.wait resolution decided
wait_decided id approver reason true s r later m found = ground arith
wait_decided id approver reason false s r later m found = ground (arith, rejected_is_not_approved)

-- Once `RedisApprovalQueue.decide` has found the request and both commands are answered, it returns,
-- and the next round of a waiter ends as the operator decided: with the request marked approved, with
-- the approver and the reason that were given and else as it was, or with a rejection for the reason
-- given. So it is whatever decision the request had, and whatever other clients wrote between the two
-- commands.
pub wait-decide :
    (strip : String → String) (others : Requests → Requests) (id approver reason : String)
    (approved : Bool) (s : Requests) (r : ApprovalRequest) (later : List Poll)
    → strip reason ≢ ""
    → reason ≢ ""
    → lookup id s ≡ some r
    → let (result, s') = Redis.decide strip true true others id approved approver reason s in
      (result ≡ ok tt)
      × (Redis.wait id (reads s' ∷ later) ≡ (
          if approved
          then ok (record r {
            decision = some "approved";
            approver = some approver;
            reason = some reason;
          })
          else raise (gateway (approval_rejected_error reason))))
unfolding decided
wait-decide strip others id approver reason approved s r later n m found =
    rw (decide_answered strip others id approver reason approved s r n found) (
      refl,
      wait_decided id approver reason approved _ r later m
          (lookup-insert_self id (decided approved approver reason r) (others s)),
    )
