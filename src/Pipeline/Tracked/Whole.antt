-- ===== src/Pipeline/Tracked/Whole.antt =====
-- A whole call of gateway/server.py, from RECEIVED to the state that its response tells of.
use mcp_gateway.Base.{
  String, ◌≡◌, refl, Option, none, some, Bool, true, false, ◌⊎◌, inl, inr, contains, if◌then◌else◌,
  string_eq,
}
use mcp_gateway.Models.{ToolCallState, ToolCallRecord, received, succeeded, failed, denied}
use mcp_gateway.Errors.{Exn, GatewayError, gateway, other, code, state_store_unavailable_error}
use mcp_gateway.Effect.{Exec, pure}
use mcp_gateway.Effect.Keeps.{Keeps, Keeps-bind, Keeps-throw, Keeps-pure, Keeps-gets, Keeps-catch}
use mcp_gateway.Effect.Guards.{Guards, Guards-pure, Guards-throw, Guards-bind, Guards-catch}
use mcp_gateway.Audit.Record.{AuditEvent}
use mcp_gateway.Repair.Diagnose.{denial_codes}
use mcp_gateway.Pipeline.Services.{Services, ControlPlane}
use mcp_gateway.Pipeline.Call.{Request, Call, on_store_error}
use mcp_gateway.Pipeline.Run.{
  Response, completed, upserted, stored_attempts, audited, write_audit, terminal_state, end_call,
  told, fail, failed_call, phases, call_tool,
}
use mcp_gateway.Pipeline.Run
use mcp_gateway.Pipeline.Answered.{IfThere}
use mcp_gateway.Pipeline.Tracked.{
  Step, succeeds, fails, denies, IsTracked, IsSteadyPlane, IsSteadyAudit,
}
use mcp_gateway.Pipeline.Tracked.Blocks.{
  In, Somewhere, reaches, Guards-steady, on_world-steady, on_world-still,
}
use mcp_gateway.Pipeline.Tracked.Phases.{
  transition-Guards, finish_attempt-Keeps, validate_request-Guards, check_policy-Guards,
}
use mcp_gateway.Pipeline.Tracked.Attempts.{run_loop-Guards}

module _ {W : Type 0} (services : Services W) (call : Request) (At : ToolCallState → W → Type 0)
    (tracked : IsTracked At services) where
  -- The state that a response tells of. Where the store was unavailable, the state is not known.
  abbrev pub EndsIn : Response → Call W → Type 0
  EndsIn (completed output) c = In At succeeded c
  EndsIn (Run.refused e) c =
      In At (terminal_state services call e) c
      ⊎ ((e ≡ state_store_unavailable_error) × Somewhere At c)

  store_error-Keeps :
      {A : Type 0} {a : ToolCallState} (h : Exec (Call W) A) (e : Exn)
      → Keeps (In At a) h
      → Keeps (In At a) (on_store_error h e)
  store_error-Keeps h (gateway state_store_unavailable_error) k = k
  store_error-Keeps h e k = Keeps-throw e

  upserted-Keeps :
      {a : ToolCallState} (o : Option (ControlPlane W)) (r : ToolCallRecord)
      → IfThere (IsSteadyPlane At) o
      → Keeps (In At a) (upserted services call o r)
  upserted-Keeps none r h = Keeps-pure _
  upserted-Keeps (some plane) r h =
      Keeps-bind _ _
        (Keeps-catch _ _ (on_world-steady At _ (h.upsert_tool_call r)) λ e. Keeps-pure tt)
        λ u. Keeps-pure _

  stored_attempts-Keeps :
      {a : ToolCallState} (o : Option ToolCallRecord)
      → Keeps (In At a) (stored_attempts services call o)
  stored_attempts-Keeps none = Keeps-pure _
  stored_attempts-Keeps (some r) = upserted-Keeps services.control_plane r tracked.control_plane

  audited-Keeps :
      {a : ToolCallState} (o : Option (AuditEvent → Exec W (Unit {0}))) (outcome : String)
      → IfThere (IsSteadyAudit At) o
      → Keeps (In At a) (audited services call o outcome)
  audited-Keeps none outcome h = Keeps-pure tt
  audited-Keeps (some append) outcome h =
      Keeps-bind _ _
        (Keeps-catch _ _
          (Keeps-bind _ _ (on_world-steady At _ (tracked.store.get_call call.call_id))
            stored_attempts-Keeps)
          λ e. store_error-Keeps _ e (Keeps-pure _))
        λ attempts. Keeps-bind _ _ (on_world-still At services.monotonic tracked.monotonic) λ ended.
          Keeps-bind _ _ (on_world-still At services.now tracked.now) λ now.
            Keeps-bind _ _ (Keeps-gets _)
              λ event. Keeps-catch _ _ (on_world-steady At _ (h event)) λ e. Keeps-pure tt

  write_audit-Keeps :
      {a : ToolCallState} (outcome : String) → Keeps (In At a) (write_audit services call outcome)
  unfolding write_audit
  write_audit-Keeps outcome = audited-Keeps services.append_audit outcome tracked.append_audit

  phases-Guards : Guards (In At received) (phases services call) (reaches At EndsIn)
  unfolding phases
  phases-Guards = Guards-bind _ _ (validate_request-Guards services call At tracked) λ request.
      Guards-bind _ _ (check_policy-Guards services call At tracked request) λ t.
        Guards-bind _ _ (run_loop-Guards services call At tracked t request) λ out.
          Guards-bind _ _ (transition-Guards services call At tracked _ _ succeeds) λ u.
            Guards-bind _ _ (Guards-steady At _ (write_audit-Keeps _)) λ u. Guards-pure _ λ c p. p

  last_step : {a : ToolCallState} (b : Bool) → Step a (if b then denied else failed)
  last_step true = denies
  last_step false = fails

  -- `fail` moves the call to the terminal state of its error.
  abbrev Stopped : GatewayError → Option Response → Call W → Type 0
  Stopped error none c = In At (terminal_state services call error) c
  Stopped error (some response) c = EndsIn response c

  store_error-Guards :
      (error : GatewayError) (e : Exn)
      → Guards
          (Somewhere At)
          (on_store_error (pure (some (Run.refused state_store_unavailable_error))) e)
          (reaches At (Stopped error))
  store_error-Guards error (gateway state_store_unavailable_error) =
      Guards-pure _ λ c p. inr (refl, p)
  store_error-Guards error e = Guards-throw e λ c p. p

  end_call-Guards :
      (error : GatewayError)
      → Guards (Somewhere At) (end_call services call error) (reaches At (Stopped error))
  end_call-Guards error =
      Guards-catch _ _
        (record {
          at = λ c p.
              (Guards-bind _ _
                  (transition-Guards services call At tracked {a = p.0} _ _
                    (last_step (contains denial_codes (code error))))
                  λ u. Guards-bind _ _ (Guards-steady At _ (Keeps-gets _)) λ last.
                    Guards-bind _ _
                      (Guards-steady At _ (finish_attempt-Keeps services call At tracked last _ _))
                      λ u. Guards-pure none λ c p. p).at
                c p.1;
        })
        (store_error-Guards error)

  told-Guards :
      (error : GatewayError) (o : Option Response)
      → Guards (Stopped error o) (told services call error o) (reaches At EndsIn)
  told-Guards error (some response) = Guards-pure response λ c p. p
  told-Guards error none =
      Guards-bind _ _ (Guards-steady At _ (write_audit-Keeps _)) λ u. Guards-pure _ λ c p. inl p

  fail-Guards :
      (error : GatewayError) → Guards (Somewhere At) (fail services call error) (reaches At EndsIn)
  unfolding fail
  fail-Guards error = Guards-bind _ _ (end_call-Guards error) (told-Guards error)

  failed_call-Guards :
      (e : Exn) → Guards (Somewhere At) (failed_call services call e) (reaches At EndsIn)
  failed_call-Guards (gateway e) = fail-Guards e
  failed_call-Guards (other m) = fail-Guards _

  -- A call goes along its steps: take any reading of the call's state from the world that the store's
  -- transitions are known to follow only along a step, and that nothing else changes. From RECEIVED, a
  -- call that completes is left in SUCCEEDED, one that is refused in the terminal state of its error,
  -- unless it is refused because the store is unavailable: then, and if the call raises, in some state.
  pub call_tool-EndsIn : Guards (In At received) (call_tool services call) (reaches At EndsIn)
  unfolding call_tool
  call_tool-EndsIn = Guards-catch _ _ phases-Guards failed_call-Guards
