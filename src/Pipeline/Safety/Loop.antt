-- ===== src/Pipeline/Safety/Loop.antt =====
-- The repair loop of gateway/server.py runs its tool on granted requests only.
use mcp_gateway.Base.{◌≤◌, String, ◌⊎◌, inl, inr, ◌≢◌, ◌≡◌, Option, none, some, arith}
use mcp_gateway.Base.{string_eq}
use mcp_gateway.Base.Json.{Fields}
use mcp_gateway.Models.{ToolCallState}
use mcp_gateway.Errors.{Exn, gateway, other}
use mcp_gateway.Effect.{Result, ok, raise, cut_off, ◌>>◌}
use mcp_gateway.Effect.Keeps.{
  Keeps-lift, Keeps-modify, Keeps, Keeps-pure, Keeps-throw, Keeps-bind, Keeps-catch,
}
use mcp_gateway.Effect.Guards.{Guards, post, After, Guards-throw}
use mcp_gateway.Registry.Tool.{ToolDefinition}
use mcp_gateway.Repair.Backoff.{default_policy}
use mcp_gateway.Repair.Diagnose.{FailureDiagnosis}
use mcp_gateway.Repair.Loop.{ask}
use mcp_gateway.Repair.Loop.Guarded.{IsTimeless, run-Guards}
use mcp_gateway.Pipeline.Services.{Services, RepairAdvisor}
use mcp_gateway.Pipeline.Call.{change_repair, Request, Call, on_world}
use mcp_gateway.Effect.{on_gateway, modify, throw}
use mcp_gateway.Pipeline.Phases.{check_proposal}
use mcp_gateway.Pipeline.Attempts.{repair_arguments}
use mcp_gateway.Pipeline.Guarded.{IsAdvisorQuiet?}
use mcp_gateway.Pipeline.Attempts.{
  execute_attempt, loop_repairer, loop_timing, loop_context, run_loop,
}
use mcp_gateway.Pipeline.Guarded.{Fact, safe, granted, IsQuiet, IsGuarded, IsStable}
use mcp_gateway.Pipeline.Safety.{Alive, returns}
use mcp_gateway.Pipeline.Safety.Attempt.{Before, execute_attempt-Guards}

-- No transition of the store raises.
abbrev pub TransitionsSucceed : {W : Type 0} → Services W → Type 0
TransitionsSucceed {W} services =
    (id : String) (state : ToolCallState) (error : Option String) (w w' : W) (x : Exn)
    → services.store.transition id state error w ≢ (raise x, w')

module _ {W : Type 0} (services : Services W) (call : Request) (K : Fact → W → Type 0)
    (guarded : IsGuarded K services) (stable : IsStable services.registry) where
  open services use {registry}

  -- After a later attempt.
  abbrev pub Retried : Fields → Call W → Type 0
  Retried a c = Alive K c × (2 ≤ c.latest_attempt)

  Retried-Before :
      (a b : Fields) (c : Call W) → Retried b c → Before services call K guarded stable a c
  Retried-Before a b c p = (p.0, λ one. absurd (omega (arith, p.1, one)))

  Retried-timeless : (a : Fields) → IsTimeless (loop_timing services call) (Retried a)
  Retried-timeless a = record {
    monotonic = λ c p. ((guarded.monotonic safe c.world p.0.0, p.0.1), p.1);
    uniform = λ c p. ((guarded.uniform safe c.world p.0.0, p.0.1), p.1);
    sleep = λ t c p. ((guarded.sleep t safe c.world p.0.0, p.0.1), p.1);
  }

  Before-timeless :
      (a : Fields)
      → IsTimeless (loop_timing services call) (Before services call K guarded stable a)
  Before-timeless a = record {
    monotonic = λ c p. (
      (guarded.monotonic safe c.world p.0.0, p.0.1),
      λ one r v. guarded.monotonic (granted call.tool_name r) c.world (p.1 one r v),
    );
    uniform = λ c p. (
      (guarded.uniform safe c.world p.0.0, p.0.1),
      λ one r v. guarded.uniform (granted call.tool_name r) c.world (p.1 one r v),
    );
    sleep = λ t c p. (
      (guarded.sleep t safe c.world p.0.0, p.0.1),
      λ one r v. guarded.sleep t (granted call.tool_name r) c.world (p.1 one r v),
    );
  }

  ask_nobody :
      (t : ToolDefinition) (advisor : Option (RepairAdvisor W)) (a : Fields) (d : FailureDiagnosis)
      (e : Exn)
      → advisor ≡ none
      → Guards
          (Before services call K guarded stable a)
          (ask (loop_repairer services call t advisor) a d e)
          (post (Before services call K guarded stable) (Alive K) (Alive K))
  unfolding ask
  ask_nobody t none a d e h = Guards-throw e λ s p. p.0
  ask_nobody t (some advise) a d e h = absurd (cc h)

  proposal_failed-Retried :
      (a : Fields) (e : Exn)
      → Keeps (Retried a) (
          on_gateway {S = Call W} {A = Fields}
            (λ e. (do
              modify (change_repair λ r. record r { outcome = "validation_failed" })
              throw (gateway e)))
            e)
  proposal_failed-Retried a (gateway e) =
      Keeps-bind _ _ (Keeps-modify _ λ c p. p) λ u. Keeps-throw (gateway e)
  proposal_failed-Retried a (other m) = Keeps-throw (other m)

  repair_arguments-Retried :
      (t : ToolDefinition) (advise : RepairAdvisor W) (a : Fields) (d : FailureDiagnosis)
      → ((name : String) (b schema : Fields) (d : FailureDiagnosis)
          → IsQuiet K (advise name b schema d))
      → Keeps (Retried a) (repair_arguments services call t advise a d)
  unfolding repair_arguments check_proposal on_world
  repair_arguments-Retried t advise a d q =
      Keeps-bind _ _
        (record {
          at = λ c p. (((q call.tool_name a t.input_schema d safe).at c.world p.0.0, p.0.1), p.1);
        })
        λ proposed.
          Keeps-bind _ _
            (Keeps-bind _ _ (Keeps-modify _ λ c p. p) λ u.
              Keeps-bind _ _ (Keeps-catch _ _ (Keeps-lift _) (proposal_failed-Retried a))
                λ r. Keeps-bind _ _ (Keeps-modify _ λ c p. p) λ u. Keeps-pure r)
            λ r. Keeps-pure proposed

  asked :
      (a : Fields) (o : Result Fields × Call W)
      → Retried a o.1
      → After (post (Before services call K guarded stable) (Alive K) (Alive K)) o
  asked a (ok b, c) p = Retried-Before b a c p
  asked a (raise e, c) p = p.0
  asked a (cut_off, c) p = p.0

  ask_advisor-Retried :
      (t : ToolDefinition) (advisor : Option (RepairAdvisor W)) (a : Fields) (d : FailureDiagnosis)
      (e : Exn)
      → IsAdvisorQuiet? K advisor
      → Guards
          (Retried a)
          (ask (loop_repairer services call t advisor) a d e)
          (post (Before services call K guarded stable) (Alive K) (Alive K))
  unfolding ask
  ask_advisor-Retried t none a d e q = Guards-throw e λ s p. p.0
  ask_advisor-Retried t (some advise) a d e q = record {
    at = λ s p. asked a _ ((repair_arguments-Retried t advise a d q).at s p);
  }

  -- From allowed arguments, the loop leaves every tool that ran allowed: its attempts are on the same
  -- arguments, or they are later ones, which policy allows anew.
  pub run_loop-Guards :
      (services.advisor ≡ none) ⊎ TransitionsSucceed services
      → (t : ToolDefinition) (a : Fields)
      → Guards
          (Before services call K guarded stable a)
          (run_loop services call t a)
          (returns K λ x. Alive K)
  unfolding run_loop
  run_loop-Guards (inl no_advisor) t a =
      run-Guards default_policy (loop_timing services call) (loop_context services call t)
        (execute_attempt services call t) (loop_repairer services call t services.advisor)
        (Before services call K guarded stable) (Before services call K guarded stable)
        Before-timeless Before-timeless (λ c s p. p.0) (λ c s p. p.0) (λ c s p. p)
        (λ c.
          execute_attempt-Guards services call K guarded stable
            (Before services call K guarded stable c) t c (λ s p l. Retried-Before c c s (p, l))
            λ s x w e p. p)
        (λ c d e. ask_nobody t services.advisor c d e no_advisor) a
  run_loop-Guards (inr succeed) t a =
      run-Guards default_policy (loop_timing services call) (loop_context services call t)
        (execute_attempt services call t) (loop_repairer services call t services.advisor)
        (Before services call K guarded stable) Retried Before-timeless Retried-timeless
        (λ c s p. p.0) (λ c s p. p.0) (λ c s p. Retried-Before c c s p)
        (λ c.
          execute_attempt-Guards services call K guarded stable (Retried c) t c (λ s p l. (p, l))
            λ s x w e p. absurd (succeed _ _ _ _ _ _ e))
        (λ c d e. ask_advisor-Retried t services.advisor c d e guarded.advisor) a
