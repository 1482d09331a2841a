-- ===== src/Pipeline/Safety/Granting.antt =====
-- The policy phase of gateway/server.py returns only if the request is granted.
use mcp_gateway.Base.{◌≡◌, Option, none, some, arith}
use mcp_gateway.Base.{Bool-cases, inl, inr, ◌==◌, string_eq, ==→eq}
use mcp_gateway.Base.Json.{Fields}
use mcp_gateway.Models.{ToolCallState, PolicyDecision}
use mcp_gateway.Errors.{
  Exn, gateway, other, approval_timeout_error, approval_rejected_error, policy_denied_error,
}
use mcp_gateway.Effect.{Exec, pure, throw, modify, ◌>>◌}
use mcp_gateway.Effect.Guards.{Guards, Guards-pure, Guards-throw}
use mcp_gateway.Effect.Guards.{Guards-catch, Guards-lift, Guards-modify, Guards-bind, Guards-weaken}
use mcp_gateway.Approval.{create_approval_request}
use mcp_gateway.Policy.{allow, requires_approval}
use mcp_gateway.Registry.Tool.{ToolDefinition}
use mcp_gateway.Pipeline.Services.{Services, ApprovalQueue, ControlPlane}
use mcp_gateway.Pipeline.Call.{Request, Call, note_decision, on_approval_error, or_text, tenant_of}
use mcp_gateway.Pipeline.Phases.{
  transition, recorded, deny, await_approval, granted_by, check_policy,
}
use mcp_gateway.Pipeline.Guarded.{
  Fact, safe, granted, queued, IsQuiet, IsGuarded, IsStable, IsQueueTrue?, IsPlaneQuiet?,
  IsPlaneQuiet,
}
use mcp_gateway.Pipeline.Safety.{
  Alive, Live, returns, establishes, quiet, still, transition-Guards, finish_attempt-Guards,
}

module _ {W : Type 0} (services : Services W) (call : Request) (K : Fact → W → Type 0)
    (guarded : IsGuarded K services) (stable : IsStable services.registry) where
  open services use {registry}

  recorded-Guards :
      {i : Fact} (plane : Option (ControlPlane W)) (f : ControlPlane W → Exec W (Unit {0}))
      → IsPlaneQuiet? K plane
      → ((p : ControlPlane W) → IsPlaneQuiet K p → IsQuiet K (f p))
      → Guards (Live K i) (recorded services call plane f) (returns K λ u. Live K i)
  recorded-Guards none f q h = Guards-pure tt λ s p. p
  recorded-Guards (some plane) f q h = quiet K (f plane) (h plane q)

  deny-Guards :
      (d : PolicyDecision)
      → Guards (Live K safe) (deny services call d) (returns K λ u. Live K safe)
  deny-Guards d =
      Guards-bind _ _
        (transition-Guards services call K guarded stable ToolCallState.denied (some d.reason))
        λ u. finish_attempt-Guards services call K guarded stable 1 "denied" (some d.reason)

  denied_throw :
      {A : Type 0} (d : PolicyDecision) (e : Exn) (Q : A → Call W → Type 0)
      → Guards (Alive K) (deny services call d >> throw {A = A} e) (returns K Q)
  denied_throw d e Q =
      Guards-weaken {P = Live K safe} (λ s p. (p, p.0)) (λ a s p. p) (λ s p. p)
        (Guards-bind _ _ (deny-Guards d) λ u. Guards-throw e λ s p. p.0)

  wait_failed :
      {A : Type 0} (d : PolicyDecision) (e : Exn) (Q : A → Call W → Type 0)
      → Guards
          (Alive K)
          (on_approval_error (deny services call d >> throw {A = A} e) e)
          (returns K Q)
  wait_failed d (gateway approval_timeout_error) Q =
      denied_throw d (gateway approval_timeout_error) Q
  wait_failed d (gateway (approval_rejected_error m)) Q =
      denied_throw d (gateway (approval_rejected_error m)) Q
  wait_failed d (gateway e) Q = Guards-throw _ λ s p. p
  wait_failed d (other m) Q = Guards-throw _ λ s p. p

  await_approval-Guards :
      (queue : Option (ApprovalQueue W)) (request input : Fields) (d : PolicyDecision)
      → IsQueueTrue? K queue
      → Guards
          (Live K safe)
          (await_approval services call queue request input d)
          (returns K λ u. Live K (granted call.tool_name request))
  unfolding await_approval create_approval_request
  await_approval-Guards none request input d q = Guards-throw _ λ s p. p.0
  await_approval-Guards (some queue) request input d q =
      Guards-bind _ _ (quiet K _ (still K services.new_id guarded.new_id)) λ id.
        Guards-bind _ _ (quiet K _ (still K services.now guarded.now)) λ created.
          let approval =
            create_approval_request id created call.call_id call.tool_name request input
              d.matched_rule in
          Guards-bind _ _
            (transition-Guards services call K guarded stable ToolCallState.awaiting_approval none)
            λ u.
              Guards-bind {Q = λ u. Live K (queued approval)} _ _
                (Guards-weaken (λ s p. p) (λ a s p. (p.0.0, p.1)) (λ s p. p)
                  (establishes K (λ a w. K (queued approval) w) safe (queue.submit approval)
                    (q.submit approval) λ a w w' k e. q.submitted approval w w' e))
                λ u.
                  Guards-bind _ _
                    (recorded-Guards services.control_plane
                      (λ plane. plane.create_approval approval (tenant_of call.principal))
                      guarded.control_plane
                      λ p h. h.create_approval approval (tenant_of call.principal))
                    λ u.
                      Guards-bind {Q = λ a. Live K (granted call.tool_name request)} _ _
                        (Guards-catch {E' = Alive K} _ _
                          (Guards-weaken (λ s p. p) (λ a s p. (p.0.0, p.1)) (λ s p. p)
                            (establishes K (λ a w. K (granted call.tool_name request) w)
                              (queued approval) (queue.wait id) (q.wait id)
                              λ a w w' k e. q.approved approval a w w' k e))
                          λ e. wait_failed d e _)
                        λ resolved.
                          Guards-bind {Q = λ u. Live K (granted call.tool_name request)} _ _
                            (Guards-modify _ λ s p. p)
                            λ u.
                              Guards-bind _ _ (quiet K _ (still K services.now guarded.now)) λ at.
                                recorded-Guards services.control_plane
                                  (λ plane.
                                    plane.resolve_approval id (or_text resolved.decision "approved")
                                      (or_text resolved.approver "unknown")
                                      (or_text resolved.reason "") at)
                                  guarded.control_plane λ p h. h.resolve_approval id _ _ _ at

  -- Before the decision is acted on.
  abbrev Pending : Fields → PolicyDecision → Call W → Type 0
  Pending request d c =
      Live K safe c × (d.outcome ≡ allow → K (granted call.tool_name request) c.world)

  granted_by-Guards :
      (request input : Fields) (d : PolicyDecision)
      → Guards
          (Pending request d)
          (granted_by services call request input d)
          (returns K λ u. Live K (granted call.tool_name request))
  granted_by-Guards request input d = elim (Bool-cases (d.outcome == requires_approval)) [
    | inl approve ↦ rw approve (
        Guards-weaken (λ s p. p.0) (λ a s p. p) (λ s p. p)
          (await_approval-Guards services.approvals request input d guarded.approvals))
    | inr e ↦ elim (Bool-cases (d.outcome == allow)) [
      | inl yes_allow ↦
          rw (e, yes_allow) (Guards-pure tt λ s p. (p.0.0, p.1 (==→eq d.outcome allow yes_allow)))
      | inr denied ↦
          rw (e, denied)
            (Guards-weaken (λ s p. p.0.0) (λ a s p. p) (λ s p. p)
              (denied_throw d (gateway (policy_denied_error d.reason)) _))
    ]
  ]

  acted :
      (i : Fact) (t : ToolDefinition) (request input : Fields) (d : PolicyDecision)
      → ((c : Call W) → Live K i c → Pending request d c)
      → Guards
          (Live K i)
          (do
            modify (note_decision d)
            transition services call ToolCallState.policy_checked none
            granted_by services call request input d
            pure t)
          (returns K λ t. Live K (granted call.tool_name request))
  acted i t request input d h = Guards-bind {Q = λ u. Live K i} _ _ (Guards-modify _ λ s p. p) λ u.
      Guards-bind _ _
        (transition-Guards services call K guarded stable ToolCallState.policy_checked none)
        λ u.
          Guards-bind _ _
            (Guards-weaken h (λ a s p. p) (λ s p. p) (granted_by-Guards request input d))
            λ u. Guards-pure t λ s p. p

  acted_on :
      (t : ToolDefinition) (request input : Fields) (d : PolicyDecision)
      → Guards
          (Pending request d)
          (do
            modify (note_decision d)
            transition services call ToolCallState.policy_checked none
            granted_by services call request input d
            pure t)
          (returns K λ t. Live K (granted call.tool_name request))
  acted_on t request input d = elim (Bool-cases (d.outcome == allow)) [
    | inl e ↦
        Guards-weaken (λ s p. (p.0.0, p.1 (==→eq d.outcome allow e))) (λ a s p. p) (λ s p. p)
          (acted (granted call.tool_name request) t request input d λ c l. ((l.0, l.0.0), λ h. l.1))
    | inr e ↦
        Guards-weaken (λ s p. p.0) (λ a s p. p) (λ s p. p)
          (acted safe t request input d λ c l. (l, λ h. absurd (ground (arith, e, h))))
  ]

  -- The policy phase returns only if the request that it was given is granted.
  pub check_policy-Guards :
      (request : Fields)
      → Guards
          (Live K safe)
          (check_policy services call request)
          (returns K λ t. Live K (granted call.tool_name request))
  unfolding check_policy
  check_policy-Guards request =
      Guards-bind {Q = λ t. Live K safe} _ _
        (Guards-lift _ (λ t e s p. p) (λ s p. p.0) (λ s p. p.0))
        λ t. Guards-bind {Q = λ u. Live K safe} _ _ (Guards-modify _ λ s p. p) λ u.
          Guards-bind {Q = λ d. Pending request d} _ _
            (establishes K (λ d w. d.outcome ≡ allow → K (granted call.tool_name request) w) safe _
              (guarded.evaluate _) λ d w w' k e h. guarded.allowed call t request d w w' e h)
            λ d. acted_on t request _ d
