-- ===== src/Pipeline/Safety.antt =====
-- The facts that the coroutines of gateway/server.py keep and establish, one lemma for each phase.
pub mod Granting
pub mod Attempt
pub mod Loop
pub mod Whole
use mcp_gateway.Base.{
  ℕ, suc, ◌≤◌, String, ◌≡◌, refl, sym, ap, Bool, true, false, Option, none, some, arith,
}
use mcp_gateway.Base.{Bool-cases, inl, inr, ◌==◌, string_eq, ==→eq, if◌then◌else◌}
use mcp_gateway.Base.Json.{Fields}
use mcp_gateway.Models.{ToolCallState, PolicyDecision, ApprovalRequest}
use mcp_gateway.Errors.{
  Exn, GatewayError, gateway, other, approval_timeout_error, approval_rejected_error,
}
use mcp_gateway.Effect.{
  Result, ok, raise, cut_off, Exec, pure, throw, lift, reads, catch, modify, on_gateway, ◌>>=◌,
  ◌>>◌,
}
use mcp_gateway.Effect.Keeps.{Keeps}
use mcp_gateway.Effect.Guards.{
  Guards, Post, post, After, Guards-pure, Guards-throw, Guards-gets, Guards-if,
}
use mcp_gateway.Effect.Guards.{Guards-catch, Guards-lift, Guards-modify, Guards-bind, Guards-weaken}
use mcp_gateway.Approval.{create_approval_request}
use mcp_gateway.Policy.{allow, requires_approval}
use mcp_gateway.Registry
use mcp_gateway.Registry.Tool.{ToolDefinition}
use mcp_gateway.Repair.Diagnose.{FailureDiagnosis, diagnose}
use mcp_gateway.Pipeline.Services.{Services, ApprovalQueue, ControlPlane, RepairAdvisor}
use mcp_gateway.Pipeline.Call.{
  Request, Call, on_world, input_of, note_decision, on_approval_error, change_repair,
}
use mcp_gateway.Pipeline.Phases.{
  transition, finish_attempt, check_proposal, ask_advisor, repair_first,
}
use mcp_gateway.Pipeline.Phases.{
  repairable, validate_request, recorded, deny, await_approval, granted_by, check_policy,
}
use mcp_gateway.Pipeline.Guarded.{
  Fact, safe, granted, queued, IsQuiet, IsGuarded, IsStable, IsStill, IsQueueTrue?, IsPlaneQuiet?,
  IsAdvisorQuiet?, IsQueueTrue,
}

module _ {W : Type 0} (K : Fact → W → Type 0) where
  -- Every tool that ran was allowed to, and the attempts are counted from 1.
  abbrev pub Alive : Call W → Type 0
  Alive c = K safe c.world × (1 ≤ c.latest_attempt)

  abbrev pub Live : Fact → Call W → Type 0
  Live i c = Alive c × K i c.world

  abbrev pub returns : {A : Type 0} → (A → Call W → Type 0) → Post (Call W) A
  returns q = post q Alive Alive

  quiet_After :
      {A : Type 0} (P : A → W → Type 0) (i : Fact) (c : Call W) (r : Result A) (w : W)
      → 1 ≤ c.latest_attempt
      → K safe w
      → K i w
      → ((a : A) → r ≡ ok a → P a w)
      → After (returns λ a s. Live i s × P a s.world) (r, record c { world = w })
  quiet_After P i c (ok a) w n s k p = (((s, n), k), p a refl)
  quiet_After P i c (raise e) w n s k p = (s, n)
  quiet_After P i c cut_off w n s k p = (s, n)

  -- A quiet operation keeps a fact, and establishes what its results say.
  pub establishes :
      {A : Type 0} (P : A → W → Type 0) (i : Fact) (m : Exec W A)
      → IsQuiet K m
      → ((a : A) (w w' : W) → K i w → m w ≡ (ok a, w') → P a w')
      → Guards (Live i) (on_world m) (returns λ a s. Live i s × P a s.world)
  unfolding on_world
  establishes P i m q p = record {
    at = λ c l.
        let (r, w) = m c.world in
        quiet_After P i c r w l.0.1 ((q safe).at c.world l.0.0) ((q i).at c.world l.1)
          λ a e. p a c.world w l.1 (ap (λ (x : Result _). (x, w)) e);
  }

  pub quiet :
      {A : Type 0} {i : Fact} (m : Exec W A)
      → IsQuiet K m
      → Guards (Live i) (on_world m) (returns λ a. Live i)
  quiet {i = i} m q =
      Guards-weaken (λ s p. p) (λ a s p. p.0) (λ s p. p)
        (establishes (λ a w. Unit) i m q λ a w w' k e. tt)

  pub still : {A : Type 0} (f : W → A × W) → IsStill K f → IsQuiet K (reads f)
  unfolding reads
  still f h i = record { at = h i }

module _ {W : Type 0} (services : Services W) (call : Request) (K : Fact → W → Type 0)
    (guarded : IsGuarded K services) (stable : IsStable services.registry) where
  open services use {registry}

  -- The request is its own validation.
  abbrev pub IsValid : Fields → Type 0
  IsValid r = (again : Fields) → Registry.validate registry call.tool_name r ≡ ok again → again ≡ r

  pub transition-Guards :
      {i : Fact} (state : ToolCallState) (error : Option String)
      → Guards (Live K i) (transition services call state error) (returns K λ u. Live K i)
  unfolding transition
  transition-Guards state error = quiet K _ (guarded.store.transition call.call_id state error)

  pub finish_attempt-Guards :
      {i : Fact} (n : ℕ) (outcome : String) (error : Option String)
      → Guards (Live K i) (finish_attempt services call n outcome error) (returns K λ u. Live K i)
  unfolding finish_attempt
  finish_attempt-Guards n outcome error =
      quiet K _ (guarded.store.finish_attempt call.call_id n outcome error)

  validated :
      (arguments : Fields)
      → Guards
          (Live K safe)
          (lift (Registry.validate registry call.tool_name arguments))
          (returns K λ r c. Live K safe c × IsValid r)
  validated arguments =
      Guards-lift _ (λ r e s p. (p, λ again v. stable call.tool_name arguments r again e v))
        (λ s p. p.0) (λ s p. p.0)

  proposal_failed :
      (e : Exn)
      → Guards
          (Alive K)
          (on_gateway {S = Call W} {A = Fields}
            (λ e. (do
              modify (change_repair λ r. record r { outcome = "validation_failed" })
              throw (gateway e)))
            e)
          (returns K λ r c. Live K safe c × IsValid r)
  proposal_failed (gateway e) =
      Guards-bind {Q = λ u. Alive K} _ _ (Guards-modify _ λ s p. p)
        λ u. Guards-throw (gateway e) λ s p. p
  proposal_failed (other m) = Guards-throw (other m) λ s p. p

  pub check_proposal-Guards :
      (d : FailureDiagnosis) (original proposed : Fields)
      → Guards
          (Live K safe)
          (check_proposal services call d original proposed)
          (returns K λ r c. Live K safe c × IsValid r)
  unfolding check_proposal
  check_proposal-Guards d original proposed =
      Guards-bind {Q = λ u. Live K safe} _ _ (Guards-modify _ λ s p. p) λ u.
        Guards-bind _ _ (Guards-catch {E' = Alive K} _ _ (validated proposed) proposal_failed) λ r.
          Guards-bind {Q = λ u c. Live K safe c × IsValid r} _ _ (Guards-modify _ λ s p. p)
            λ u. Guards-pure r λ s p. p

  ask_advisor-Guards :
      (advisor : Option (RepairAdvisor W)) (e : Exn) (current : Fields) (d : FailureDiagnosis)
      → IsAdvisorQuiet? K advisor
      → Guards
          (Live K safe)
          (ask_advisor services call advisor e current d)
          (returns K λ a. Live K safe)
  ask_advisor-Guards none e current d q = Guards-throw e λ s p. p.0
  ask_advisor-Guards (some advise) e current d q =
      Guards-bind {Q = λ t. Live K safe} _ _
        (Guards-lift _ (λ t e s p. p) (λ s p. p.0) (λ s p. p.0))
        λ t. quiet K _ (q call.tool_name current t.input_schema d)

  repair_first-Guards :
      (e : GatewayError)
      → Guards
          (Live K safe)
          (repair_first services call e)
          (returns K λ r c. Live K safe c × IsValid r)
  unfolding repair_first
  repair_first-Guards e =
      Guards-if (repairable (diagnose (gateway e)).category) _ _
        (Guards-bind _ _
          (ask_advisor-Guards services.advisor (gateway e) call.arguments (diagnose (gateway e))
            guarded.advisor)
          λ proposed. check_proposal-Guards (diagnose (gateway e)) call.arguments proposed)
        (Guards-throw (gateway e) λ s p. p.0)

  first_failed :
      (e : Exn)
      → Guards
          (Alive K)
          (on_gateway (repair_first services call) e)
          (returns K λ r c. Live K safe c × IsValid r)
  first_failed (gateway e) =
      Guards-weaken (λ s p. (p, p.0)) (λ a s p. p) (λ s p. p) (repair_first-Guards e)
  first_failed (other m) = Guards-throw (other m) λ s p. p

  -- The request that validation returns is its own validation.
  pub validate_request-Guards :
      Guards
        (Live K safe)
        (validate_request services call)
        (returns K λ r c. Live K safe c × IsValid r)
  unfolding validate_request
  validate_request-Guards =
      Guards-bind _ _ (Guards-catch {E' = Alive K} _ _ (validated call.arguments) first_failed) λ r.
        record {
          at = λ s p.
              (Guards-bind {P = Live K safe} {Q = λ u. Live K safe} _ _
                  (transition-Guards ToolCallState.validated none)
                  λ u. Guards-pure r λ s l. (l, p.1)).at
                s p.0;
        }
