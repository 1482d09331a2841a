-- ===== src/Pipeline/Safety/Whole.antt =====
-- A tool call of gateway/server.py runs its tool on granted requests only.
use mcp_gateway.Base.{String, ◌⊎◌, ◌≡◌, sym, Bool, true, false, Option, none, some, arith}
use mcp_gateway.Base.{string_eq}
use mathlib.Core.Path.{subst}
use mcp_gateway.Base.Json.{Fields}
use mcp_gateway.Models.{ToolCallState, ToolCallRecord, Principal}
use mcp_gateway.Errors.{Exn, GatewayError, gateway, other, state_store_unavailable_error}
use mcp_gateway.Effect.{Result, ok, raise, cut_off, Exec, pure, reads, ◌>>=◌, ◌>>◌}
use mcp_gateway.Effect.Keeps.{
  Keeps, Keeps-pure, Keeps-throw, Keeps-gets, Keeps-reads, Keeps-bind, Keeps-catch,
}
use mcp_gateway.Effect.Guards.{Guards, After, Guards-bind, Guards-catch, Guards-weaken}
use mcp_gateway.Audit.Record.{AuditEvent}
use mcp_gateway.Pipeline.Services.{Services, ControlPlane}
use mcp_gateway.Pipeline.Call.{Request, Call, new_call, on_world, on_store_error}
use mcp_gateway.Pipeline.Phases.{transition, finish_attempt, check_policy}
use mcp_gateway.Pipeline.Attempts.{run_loop}
use mcp_gateway.Pipeline.Run.{
  Response, completed, upserted, stored_attempts, audited, write_audit, end_call,
}
use mcp_gateway.Pipeline.Run.{
  told, fail, failed_call, phases, call_tool, from_world, upsert_caller, registered,
}
use mcp_gateway.Pipeline.Run.{recorded_call, created_call, execute_tool_call}
use mcp_gateway.Pipeline.Guarded.{
  Fact, safe, granted, IsQuiet, IsGuarded, IsStable, IsAuditQuiet?, IsPlaneQuiet?, IsPlaneQuiet,
  IsStill,
}
use mcp_gateway.Pipeline.Safety.{Alive, Live, returns, still, validate_request-Guards, IsValid}
use mcp_gateway.Pipeline.Safety.Granting.{check_policy-Guards}
use mcp_gateway.Pipeline.Safety.Loop.{TransitionsSucceed, run_loop-Guards}

module _ {W : Type 0} (services : Services W) (K : Fact → W → Type 0)
    (guarded : IsGuarded K services) (stable : IsStable services.registry)
    (steady : (services.advisor ≡ none) ⊎ TransitionsSucceed services) where
  open services use {registry, store}

  module _ (call : Request) where
    Keeps-world : {A : Type 0} (m : Exec W A) → IsQuiet K m → Keeps (Alive K) (on_world m)
    unfolding on_world
    Keeps-world m q = record { at = λ c p. ((q safe).at c.world p.0, p.1) }

    Keeps-still : {A : Type 0} (f : W → A × W) → IsStill K f → Keeps (Alive K) (on_world (reads f))
    Keeps-still f h = Keeps-world (reads f) (still K f h)

    Keeps-store_error :
        {A : Type 0} (h : Exec (Call W) A) (e : Exn)
        → Keeps (Alive K) h
        → Keeps (Alive K) (on_store_error h e)
    Keeps-store_error h (gateway state_store_unavailable_error) k = k
    Keeps-store_error h (gateway e) k = Keeps-throw _
    Keeps-store_error h (other m) k = Keeps-throw _

    upserted-Keeps :
        (plane : Option (ControlPlane W)) (r : ToolCallRecord)
        → IsPlaneQuiet? K plane
        → Keeps (Alive K) (upserted services call plane r)
    upserted-Keeps none r q = Keeps-pure _
    upserted-Keeps (some plane) r q =
        Keeps-bind _ _ (Keeps-catch _ _ (Keeps-world _ (q.upsert_tool_call r)) λ e. Keeps-pure tt)
          λ u. Keeps-pure _

    stored_attempts-Keeps :
        (o : Option ToolCallRecord) → Keeps (Alive K) (stored_attempts services call o)
    stored_attempts-Keeps none = Keeps-pure _
    stored_attempts-Keeps (some r) = upserted-Keeps services.control_plane r guarded.control_plane

    audited-Keeps :
        (append : Option (AuditEvent → Exec W (Unit {0}))) (outcome : String)
        → IsAuditQuiet? K append
        → Keeps (Alive K) (audited services call append outcome)
    audited-Keeps none outcome q = Keeps-pure tt
    audited-Keeps (some append) outcome q =
        Keeps-bind _ _
          (Keeps-catch _ _
            (Keeps-bind _ _ (Keeps-world _ (guarded.store.get_call call.call_id))
              stored_attempts-Keeps)
            λ e. Keeps-store_error _ e (Keeps-pure _))
          λ attempts. Keeps-bind _ _ (Keeps-still services.monotonic guarded.monotonic) λ ended.
            Keeps-bind _ _ (Keeps-still services.now guarded.now) λ now.
              Keeps-bind _ _ (Keeps-gets _)
                λ event. Keeps-catch _ _ (Keeps-world _ (q event)) λ e. Keeps-pure tt

    write_audit-Keeps : (outcome : String) → Keeps (Alive K) (write_audit services call outcome)
    unfolding write_audit
    write_audit-Keeps outcome = audited-Keeps services.append_audit outcome guarded.append_audit

    end_call-Keeps : (e : GatewayError) → Keeps (Alive K) (end_call services call e)
    unfolding transition finish_attempt
    end_call-Keeps e =
        Keeps-catch _ _
          (Keeps-bind _ _ (Keeps-world _ (guarded.store.transition call.call_id _ _)) λ u.
            Keeps-bind _ _ (Keeps-gets _) λ last.
              Keeps-bind _ _ (Keeps-world _ (guarded.store.finish_attempt call.call_id last _ _))
                λ u. Keeps-pure none)
          λ x. Keeps-store_error _ x (Keeps-pure _)

    told-Keeps : (e : GatewayError) (o : Option Response) → Keeps (Alive K) (told services call e o)
    told-Keeps e (some response) = Keeps-pure response
    told-Keeps e none = Keeps-bind _ _ (write_audit-Keeps _) λ u. Keeps-pure _

    fail-Keeps : (e : GatewayError) → Keeps (Alive K) (fail services call e)
    unfolding fail
    fail-Keeps e = Keeps-bind _ _ (end_call-Keeps e) (told-Keeps e)

    failed_call-Keeps : (e : Exn) → Keeps (Alive K) (failed_call services call e)
    failed_call-Keeps (gateway e) = fail-Keeps e
    failed_call-Keeps (other m) = fail-Keeps _

    After-Keeps :
        {A : Type 0} (o : Result A × Call W) → Alive K o.1 → After (returns K λ a. Alive K) o
    After-Keeps (ok a, s) p = p
    After-Keeps (raise e, s) p = p
    After-Keeps (cut_off, s) p = p

    keeps_After :
        {A : Type 0} (o : Result A × Call W) → After (returns K λ a. Alive K) o → Alive K o.1
    keeps_After (ok a, s) p = p
    keeps_After (raise e, s) p = p
    keeps_After (cut_off, s) p = p

    Keeps→Guards :
        {A : Type 0} (m : Exec (Call W) A)
        → Keeps (Alive K) m
        → Guards (Alive K) m (returns K λ a. Alive K)
    Keeps→Guards m k = record { at = λ s p. After-Keeps (m s) (k.at s p) }

    transition-Keeps : Keeps (Alive K) (transition services call ToolCallState.succeeded none)
    unfolding transition
    transition-Keeps = Keeps-world _ (guarded.store.transition call.call_id _ _)

    phases-Guards : Guards (Live K safe) (phases services call) (returns K λ r. Alive K)
    unfolding phases
    phases-Guards =
        Guards-bind _ _ (validate_request-Guards services call K guarded stable)
          λ request. record { at = λ s p. (granting request p.1).at s p.0 }
      where
        granting :
            (request : Fields)
            → IsValid services call K guarded stable request
            → Guards
                (Live K safe)
                (do
                  t ← check_policy services call request
                  (output, attempts) ← run_loop services call t request
                  transition services call ToolCallState.succeeded none
                  write_audit services call "succeeded"
                  pure (completed output))
                (returns K λ r. Alive K)
        granting request valid =
            Guards-bind _ _ (check_policy-Guards services call K guarded stable request) λ t.
              Guards-bind {Q = λ x. Alive K} _ _
                (Guards-weaken
                  (λ s p. (
                    p.0,
                    λ one r v.
                        subst (λ (x : Fields). K (granted call.tool_name x) s.world)
                          (sym (valid r v)) p.1,
                  ))
                  (λ x s p. p) (λ s p. p)
                  (run_loop-Guards services call K guarded stable steady t request))
                λ x. Keeps→Guards _ (
                  Keeps-bind _ _ transition-Keeps
                    λ u. Keeps-bind _ _ (write_audit-Keeps "succeeded") λ u. Keeps-pure _)

    call_tool-Guards : Guards (Live K safe) (call_tool services call) (returns K λ r. Alive K)
    unfolding call_tool
    call_tool-Guards =
        Guards-catch {E' = Alive K} _ _ phases-Guards λ e. Keeps→Guards _ (failed_call-Keeps e)

    from_world-Keeps : Keeps (K safe) (from_world services call)
    from_world-Keeps = record {
      at = λ w p. (keeps_After _ (call_tool-Guards.at (new_call w) ((p, omega arith), p))).0;
    }

    upsert_caller-Keeps :
        (plane : ControlPlane W) (p : Option Principal)
        → IsPlaneQuiet K plane
        → Keeps (K safe) (upsert_caller services call plane p)
    upsert_caller-Keeps plane none q = Keeps-pure tt
    upsert_caller-Keeps plane (some p) q =
        Keeps-bind _ _ (q.upsert_tenant p.tenant_id p.tenant_id safe) λ u. q.upsert_principal p safe

    registered-Keeps :
        (plane : Option (ControlPlane W)) (r : ToolCallRecord)
        → IsPlaneQuiet? K plane
        → Keeps (K safe) (registered services call plane r)
    registered-Keeps none r q = Keeps-pure true
    registered-Keeps (some plane) r q =
        Keeps-catch _ _
          (Keeps-bind _ _ (upsert_caller-Keeps plane call.principal q)
            λ u. Keeps-bind _ _ (q.upsert_tool_call r safe) λ u. Keeps-pure true)
          λ e. Keeps-pure false

    recorded_call-Keeps :
        (r : ToolCallRecord) (known : Bool) → Keeps (K safe) (recorded_call services call r known)
    recorded_call-Keeps r false = Keeps-pure _
    recorded_call-Keeps r true = from_world-Keeps

    created_call-Keeps :
        (r : ToolCallRecord) (created : Bool)
        → Keeps (K safe) (created_call services call r created)
    created_call-Keeps r false = Keeps-pure _
    created_call-Keeps r true =
        Keeps-bind _ _ (registered-Keeps services.control_plane r guarded.control_plane)
          (recorded_call-Keeps r)

  world_store_error :
      {A : Type 0} (h : Exec W A) (e : Exn) → Keeps (K safe) h → Keeps (K safe) (on_store_error h e)
  world_store_error h (gateway state_store_unavailable_error) k = k
  world_store_error h (gateway e) k = Keeps-throw _
  world_store_error h (other m) k = Keeps-throw _

  -- A tool runs only if it is granted its request. Take any facts about the world that the services
  -- keep, where a decision to allow grants its request, a request that the approval queue returns is
  -- granted, and a tool that starts on a granted request leaves the world safe. If validated requests
  -- are their own validation, and if no repair advisor is configured or the store's transitions do not
  -- raise, then a tool call keeps the world safe, whether it succeeds, fails, retries or is cut short.
  pub execute_tool_call-safe :
      (session_id tool_name : String) (arguments : Fields) (principal : Option Principal)
      (runtime : String)
      → Keeps (K safe) (execute_tool_call services session_id tool_name arguments principal runtime)
  unfolding execute_tool_call
  execute_tool_call-safe session_id tool_name arguments principal runtime =
      Keeps-bind _ _ (Keeps-reads _ (guarded.new_id safe)) λ call_id.
        Keeps-bind _ _ (Keeps-reads _ (guarded.monotonic safe)) λ started.
          Keeps-bind _ _ (Keeps-reads _ (guarded.trace_id safe)) λ trace_id.
            Keeps-bind _ _ (Keeps-reads _ (guarded.now safe)) λ now.
              Keeps-bind _ _
                (Keeps-catch _ _
                  (Keeps-bind _ _ (guarded.store.create_call _ safe) λ u. Keeps-pure true)
                  λ e. world_store_error _ e (Keeps-pure false))
                (created_call-Keeps _ _)
