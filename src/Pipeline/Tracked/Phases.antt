-- ===== src/Pipeline/Tracked/Phases.antt =====
-- Validation, policy and approval in gateway/server.py move a call along its steps.
use mcp_gateway.Base.{ℕ, String, Option, none, some, ◌⊎◌, ◌==◌, string_eq}
use mcp_gateway.Base.Json.{Fields}
use mcp_gateway.Models.{ToolCallState, PolicyDecision}
use mcp_gateway.Models.{received, validated, policy_checked, awaiting_approval}
use mcp_gateway.Errors.{
  Exn, GatewayError, gateway, other, approval_timeout_error, approval_rejected_error,
}
use mcp_gateway.Effect.{Result, ok, raise, cut_off, Exec, throw, modify, on_gateway, ◌>>◌}
use mcp_gateway.Effect.Keeps.{
  Keeps, Keeps-catch, Keeps-if, Keeps-bind, Keeps-modify, Keeps-lift, Keeps-throw, Keeps-pure,
}
use mcp_gateway.Effect.Guards.{
  Guards, post, After, Guards-pure, Guards-throw, Guards-if, Guards-catch, Guards-bind,
  Guards-weaken,
}
use mcp_gateway.Policy.{allow, requires_approval}
use mcp_gateway.Repair.Diagnose.{FailureDiagnosis, diagnose}
use mcp_gateway.Pipeline.Services.{Services, ApprovalQueue, ControlPlane, RepairAdvisor}
use mcp_gateway.Pipeline.Call.{Request, Call, on_world, on_approval_error}
use mcp_gateway.Pipeline.Phases.{
  transition, finish_attempt, check_proposal, ask_advisor, repair_first, validate_request, recorded,
  deny, await_approval, granted_by, check_policy,
}
use mcp_gateway.Pipeline.Answered.{IfThere}
use mcp_gateway.Pipeline.Tracked.{
  Step, validates, checks, asks, denies, IsSteady, IsTracked, IsSteadyQueue, IsSteadyPlane,
  IsSteadyAdvisor,
}
use mcp_gateway.Pipeline.Tracked.Blocks.{
  In, Somewhere, Ready, reaches, Guards-steady, held, on_world-steady, on_world-still, stepped,
  either,
}

module _ {W : Type 0} (services : Services W) (call : Request) (At : ToolCallState → W → Type 0)
    (tracked : IsTracked At services) where
  open services use {registry}

  pub transition-steps :
      {a : ToolCallState} (s : ToolCallState) (error : Option String)
      → Step a s
      → Guards
          (In At a)
          (transition services call s error)
          (post (λ u. In At s) (λ c. In At a c ⊎ In At s c) (λ c. In At a c ⊎ In At s c))
  unfolding transition on_world
  transition-steps {a} s error step = record {
    at = λ c p.
        let (r, w) = services.store.transition call.call_id s error c.world in
        stepped At a s c r w ((tracked.store.transition call.call_id a s error step).at c.world p);
  }

  -- What a transition leaves, by what a state that it may have left says.
  landed :
      {E : Call W → Type 0} (a s : ToolCallState) (o : Result (Unit {0}) × Call W)
      → ((c : Call W) → In At a c ⊎ In At s c → E c)
      → After (post (λ u. In At s) (λ c. In At a c ⊎ In At s c) (λ c. In At a c ⊎ In At s c)) o
      → After (post (λ u. In At s) E (Somewhere At)) o
  landed a s (ok u, c) e p = p
  landed a s (raise x, c) e p = e c p
  landed a s (cut_off, c) e p = either At a s c p

  pub transition-lands :
      {E : Call W → Type 0} {a : ToolCallState} (s : ToolCallState) (error : Option String)
      → Step a s
      → ((c : Call W) → In At a c ⊎ In At s c → E c)
      → Guards (In At a) (transition services call s error) (post (λ u. In At s) E (Somewhere At))
  transition-lands {a = a} s error step e = record {
    at = λ c p. landed a s _ e ((transition-steps s error step).at c p);
  }

  pub transition-Guards :
      {a : ToolCallState} (s : ToolCallState) (error : Option String)
      → Step a s
      → Guards (In At a) (transition services call s error) (reaches At λ u. In At s)
  transition-Guards {a} s error step = transition-lands s error step (either At a s)

  pub finish_attempt-Keeps :
      {a : ToolCallState} (n : ℕ) (outcome : String) (error : Option String)
      → Keeps (In At a) (finish_attempt services call n outcome error)
  unfolding finish_attempt
  finish_attempt-Keeps n outcome error =
      on_world-steady At _ (tracked.store.finish_attempt call.call_id n outcome error)

  gateway-Keeps :
      {A : Type 0} {a : ToolCallState} (h : GatewayError → Exec (Call W) A) (e : Exn)
      → ((g : GatewayError) → Keeps (In At a) (h g))
      → Keeps (In At a) (on_gateway h e)
  gateway-Keeps h (gateway g) k = k g
  gateway-Keeps h (other m) k = Keeps-throw (other m)

  pub changed-Keeps :
      {a : ToolCallState} (f : Call W → Call W)
      → ((c : Call W) → In At a c → In At a (f c))
      → Keeps (In At a) (modify f)
  changed-Keeps f k = Keeps-modify f k

  pub check_proposal-Keeps :
      {a : ToolCallState} (d : FailureDiagnosis) (original proposed : Fields)
      → Keeps (In At a) (check_proposal services call d original proposed)
  unfolding check_proposal
  check_proposal-Keeps d original proposed = Keeps-bind _ _ (Keeps-modify _ λ c p. p) λ u.
      Keeps-bind _ _
        (Keeps-catch _ _ (Keeps-lift _) λ e.
          gateway-Keeps _ e
            λ g. Keeps-bind _ _ (Keeps-modify _ λ c p. p) λ u. Keeps-throw (gateway g))
        λ request. Keeps-bind _ _ (Keeps-modify _ λ c p. p) λ u. Keeps-pure request

  ask_advisor-Keeps :
      {a : ToolCallState} (advisor : Option (RepairAdvisor W)) (error : Exn) (current : Fields)
      (d : FailureDiagnosis)
      → IfThere (IsSteadyAdvisor At) advisor
      → Keeps (In At a) (ask_advisor services call advisor error current d)
  ask_advisor-Keeps none error current d h = Keeps-throw error
  ask_advisor-Keeps (some advise) error current d h =
      Keeps-bind _ _ (Keeps-lift _)
        λ t. on_world-steady At _ (h call.tool_name current t.input_schema d)

  repair_first-Keeps :
      {a : ToolCallState} (e : GatewayError) → Keeps (In At a) (repair_first services call e)
  unfolding repair_first
  repair_first-Keeps e =
      Keeps-if _ _ _
        (Keeps-bind _ _
          (ask_advisor-Keeps services.advisor (gateway e) call.arguments (diagnose (gateway e))
            tracked.advisor)
          λ proposed. check_proposal-Keeps (diagnose (gateway e)) call.arguments proposed)
        (Keeps-throw _)

  pub validate_request-Guards :
      Guards (In At received) (validate_request services call) (reaches At λ r. In At validated)
  unfolding validate_request
  validate_request-Guards =
      Guards-bind _ _
        (Guards-steady At _
          (Keeps-catch _ _ (Keeps-lift _) λ e. gateway-Keeps _ e repair_first-Keeps))
        λ request.
          Guards-bind _ _ (transition-Guards validated none validates)
            λ u. Guards-pure request λ c p. p

  recorded-Keeps :
      {a : ToolCallState} (o : Option (ControlPlane W)) (f : ControlPlane W → Exec W (Unit {0}))
      → IfThere (IsSteadyPlane At) o
      → ((plane : ControlPlane W) → IsSteadyPlane At plane → IsSteady At (f plane))
      → Keeps (In At a) (recorded services call o f)
  recorded-Keeps none f h k = Keeps-pure tt
  recorded-Keeps (some plane) f h k = on_world-steady At _ (k plane h)

  -- A denial, after which the error goes on.
  denied :
      {A : Type 0} {a : ToolCallState} (Q : A → Call W → Type 0) (decision : PolicyDecision)
      (e : Exn)
      → Guards (In At a) (deny services call decision >> throw {A = A} e) (reaches At Q)
  denied Q decision e =
      Guards-bind _ _
        (Guards-bind _ _ (transition-Guards _ _ denies)
          λ u. Guards-steady At _ (finish_attempt-Keeps 1 _ _))
        λ u. Guards-throw e λ c p. (ToolCallState.denied, p)

  refused :
      {A : Type 0} {a : ToolCallState} (Q : A → Call W → Type 0) (decision : PolicyDecision)
      (e : Exn)
      → Guards
          (In At a)
          (on_approval_error (deny services call decision >> throw {A = A} e) e)
          (reaches At Q)
  refused Q decision (gateway approval_timeout_error) = denied Q decision _
  refused Q decision (gateway (approval_rejected_error m)) = denied Q decision _
  refused {a = a} Q decision e = Guards-throw e λ c p. (a, p)

  await_approval-Guards :
      (o : Option (ApprovalQueue W)) (request input : Fields) (decision : PolicyDecision)
      → IfThere (IsSteadyQueue At) o
      → Guards
          (In At policy_checked)
          (await_approval services call o request input decision)
          (reaches At λ u. In At awaiting_approval)
  unfolding await_approval
  await_approval-Guards none request input decision h = Guards-throw _ λ c p. (policy_checked, p)
  await_approval-Guards (some queue) request input decision h =
      Guards-bind _ _ (Guards-steady At _ (on_world-still At services.new_id tracked.new_id)) λ id.
        Guards-bind _ _ (Guards-steady At _ (on_world-still At services.now tracked.now)) λ created.
          Guards-bind _ _ (transition-Guards _ _ asks) λ u.
            Guards-bind _ _ (Guards-steady At _ (on_world-steady At _ (h.submit _))) λ u.
              Guards-bind _ _
                (Guards-steady At _ (
                  recorded-Keeps services.control_plane _ tracked.control_plane
                    λ plane k. k.create_approval _ _))
                λ u.
                  Guards-bind {Q = λ r. In At awaiting_approval} _ _
                    (Guards-catch {E' = In At awaiting_approval} _ _
                      (held At _ (on_world-steady At _ (h.wait _))) λ e. refused _ decision e)
                    λ resolved. Guards-bind _ _ (Guards-steady At _ (Keeps-modify _ λ c p. p)) λ u.
                      Guards-bind _ _
                        (Guards-steady At _ (on_world-still At services.now tracked.now))
                        λ at. Guards-steady At _ (
                          recorded-Keeps services.control_plane _ tracked.control_plane
                            λ plane k. k.resolve_approval _ _ _ _ _)

  granted_by-Guards :
      (request input : Fields) (decision : PolicyDecision)
      → Guards
          (In At policy_checked)
          (granted_by services call request input decision)
          (reaches At λ u. Ready At)
  granted_by-Guards request input decision =
      Guards-if (decision.outcome == requires_approval) _ _
        (Guards-weaken (λ c p. p) (λ u c p. (awaiting_approval, tt, p)) (λ c p. p)
          (await_approval-Guards services.approvals request input decision tracked.approvals))
        (Guards-if (decision.outcome == allow) _ _ (Guards-pure tt λ c p. (policy_checked, tt, p))
          (denied _ decision _))

  pub check_policy-Guards :
      (request : Fields)
      → Guards (In At validated) (check_policy services call request) (reaches At λ t. Ready At)
  unfolding check_policy
  check_policy-Guards request = Guards-bind _ _ (Guards-steady At _ (Keeps-lift _)) λ t.
      Guards-bind _ _ (Guards-steady At _ (Keeps-modify _ λ c p. p)) λ u.
        Guards-bind _ _ (Guards-steady At _ (on_world-steady At _ (tracked.evaluate _))) λ decision.
          Guards-bind _ _ (Guards-steady At _ (Keeps-modify _ λ c p. p)) λ u.
            Guards-bind _ _ (transition-Guards _ _ checks) λ u.
              Guards-bind _ _ (granted_by-Guards request _ decision) λ u. Guards-pure t λ c p. p
