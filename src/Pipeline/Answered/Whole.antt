-- ===== src/Pipeline/Answered/Whole.antt =====
-- `execute_tool_call` of gateway/server.py answers every call.
use mcp_gateway.Base.{String, ◌≡◌, refl, Option, none, some, Bool, true, false}
use mcp_gateway.Base.Json.{Fields}
use mcp_gateway.Models.{ToolCallRecord, Principal}
use mcp_gateway.Errors.{Exn, GatewayError, gateway, other}
use mcp_gateway.Effect.{Result, ok, raise, cut_off, Exec}
use mcp_gateway.Effect.Answers.{
  Foreseen, AnyError, NoError, Answers, Answers-bind, Answers-reads, Answers-pure, Answers-gets,
  Answers-catch,
}
use mcp_gateway.Audit.Record.{AuditEvent}
use mcp_gateway.Pipeline.Services.{Services, ControlPlane}
use mcp_gateway.Pipeline.Call.{Request, new_call}
use mcp_gateway.Pipeline.Run.{
  Response, upserted, stored_attempts, audited, write_audit, end_call, told, fail, failed_call,
  phases, call_tool, upsert_caller, registered, from_world, recorded_call, created_call,
  execute_tool_call,
}
use mcp_gateway.Pipeline.Answered.{
  StoreError, IfThere, IsAnswering, IsAnsweringPlane, IsAnsweringAudit, on_world-Answers,
  on_store_error-Answers,
}
use mcp_gateway.Pipeline.Answered.Phases.{
  transition-Answers, finish_attempt-Answers, moved-Answers, validate_request-Answers,
  check_policy-Answers,
}
use mcp_gateway.Pipeline.Answered.Attempts.{run_loop-Answers}

module _ {W : Type 0} (services : Services W) (answering : IsAnswering services) where
  module _ (call : Request) where
    upserted-Answers :
        (o : Option (ControlPlane W)) (current : ToolCallRecord)
        → IfThere IsAnsweringPlane o
        → Answers StoreError (upserted services call o current)
    upserted-Answers none current h = Answers-pure _
    upserted-Answers (some plane) current h =
        Answers-bind _ _
          (Answers-catch AnyError _ _ (on_world-Answers _ (h.upsert_tool_call current))
            λ e u. Answers-pure tt)
          λ u. Answers-pure _

    stored_attempts-Answers :
        (o : Option ToolCallRecord) → Answers StoreError (stored_attempts services call o)
    stored_attempts-Answers none = Answers-pure _
    stored_attempts-Answers (some current) =
        upserted-Answers services.control_plane current answering.control_plane

    audited-Answers :
        {E : Exn → Type 0} (o : Option (AuditEvent → Exec W (Unit {0}))) (outcome : String)
        → IfThere IsAnsweringAudit o
        → Answers E (audited services call o outcome)
    audited-Answers none outcome h = Answers-pure tt
    audited-Answers (some append) outcome h =
        Answers-bind _ _
          (Answers-catch StoreError _ _
            (Answers-bind _ _ (on_world-Answers _ (answering.store.get_call call.call_id))
              stored_attempts-Answers)
            λ e u. on_store_error-Answers _ e u (Answers-pure _))
          λ attempts. Answers-bind _ _ (on_world-Answers _ (Answers-reads _)) λ ended.
            Answers-bind _ _ (on_world-Answers _ (Answers-reads _)) λ now.
              Answers-bind _ _ (Answers-gets _) λ event.
                Answers-catch AnyError _ _ (on_world-Answers _ (h event)) λ e u. Answers-pure tt

    write_audit-Answers :
        {E : Exn → Type 0} (outcome : String) → Answers E (write_audit services call outcome)
    unfolding write_audit
    write_audit-Answers outcome =
        audited-Answers services.append_audit outcome answering.append_audit

    end_call-Answers : (error : GatewayError) → Answers NoError (end_call services call error)
    end_call-Answers error =
        Answers-catch StoreError _ _
          (Answers-bind _ _ (transition-Answers services call answering _ _) λ u.
            Answers-bind _ _ (Answers-gets _) λ last.
              Answers-bind _ _ (finish_attempt-Answers services call answering _ _ _)
                λ u. Answers-pure none)
          λ e u. on_store_error-Answers _ e u (Answers-pure _)

    told-Answers :
        (error : GatewayError) (o : Option Response) → Answers NoError (told services call error o)
    told-Answers error (some response) = Answers-pure response
    told-Answers error none = Answers-bind _ _ (write_audit-Answers _) λ u. Answers-pure _

    fail-Answers : (error : GatewayError) → Answers NoError (fail services call error)
    unfolding fail
    fail-Answers error = Answers-bind _ _ (end_call-Answers error) (told-Answers error)

    failed_call-Answers : (e : Exn) → Answers NoError (failed_call services call e)
    failed_call-Answers (gateway e) = fail-Answers e
    failed_call-Answers (other m) = fail-Answers _

    phases-Answers : Answers AnyError (phases services call)
    unfolding phases
    phases-Answers = Answers-bind _ _ (validate_request-Answers services call answering) λ request.
        Answers-bind _ _ (check_policy-Answers services call answering request) λ t.
          Answers-bind _ _ (run_loop-Answers services call answering t request) λ out.
            Answers-bind _ _ (moved-Answers services call answering _ _)
              λ u. Answers-bind _ _ (write_audit-Answers _) λ u. Answers-pure _

    call_tool-Answers : Answers NoError (call_tool services call)
    unfolding call_tool
    call_tool-Answers = Answers-catch AnyError _ _ phases-Answers λ e u. failed_call-Answers e

    from_world-Answers : Answers NoError (from_world services call)
    from_world-Answers = record { at = λ w. call_tool-Answers.at (new_call w) }

    registered-Answers :
        (o : Option (ControlPlane W)) (r : ToolCallRecord)
        → IfThere IsAnsweringPlane o
        → Answers NoError (registered services call o r)
    registered-Answers none r h = Answers-pure true
    registered-Answers (some plane) r h =
        Answers-catch AnyError _ _
          (Answers-bind _ _ (caller call.principal)
            λ u. Answers-bind _ _ (h.upsert_tool_call r) λ u. Answers-pure true)
          λ e u. Answers-pure false
      where
        caller : (p : Option Principal) → Answers AnyError (upsert_caller services call plane p)
        caller none = Answers-pure tt
        caller (some p) = Answers-bind _ _ (h.upsert_tenant _ _) λ u. h.upsert_principal p

    recorded_call-Answers :
        (r : ToolCallRecord) (known : Bool) → Answers NoError (recorded_call services call r known)
    recorded_call-Answers r false = Answers-pure _
    recorded_call-Answers r true = from_world-Answers

    created_call-Answers :
        (r : ToolCallRecord) (created : Bool)
        → Answers NoError (created_call services call r created)
    created_call-Answers r false = Answers-pure _
    created_call-Answers r true =
        Answers-bind _ _ (registered-Answers services.control_plane r answering.control_plane)
          (recorded_call-Answers r)

  whole-Answers :
      (session_id tool_name : String) (arguments : Fields) (principal : Option Principal)
      (runtime : String)
      → Answers NoError
          (execute_tool_call services session_id tool_name arguments principal runtime)
  unfolding execute_tool_call
  whole-Answers session_id tool_name arguments principal runtime =
      Answers-bind _ _ (Answers-reads _) λ call_id. Answers-bind _ _ (Answers-reads _) λ started.
        Answers-bind _ _ (Answers-reads _) λ trace_id. Answers-bind _ _ (Answers-reads _) λ now.
          Answers-bind _ _
            (Answers-catch StoreError _ _
              (Answers-bind _ _ (answering.store.create_call _) λ u. Answers-pure true)
              λ e u. on_store_error-Answers _ e u (Answers-pure false))
            (created_call-Answers _ _)

  answer : (r : Result Response) → Foreseen NoError r → (response : Response) × (r ≡ ok response)
  answer (ok response) f = (response, refl)
  answer (raise e) f = absurd f
  answer cut_off f = absurd f

  -- Every tool call is answered whose services each end in a value or an `Exception`, and whose state
  -- store raises no other error than that it is unavailable: `execute_tool_call` returns a response,
  -- whatever `Exception` the policy, the approvals, the control plane, the audit log, the advisor and
  -- the tool raise. Where one of them is cut off, as by the `CancelledError` of a future that was
  -- cancelled, which is no `Exception`, nothing is said.
  pub execute_tool_call-answered :
      (session_id tool_name : String) (arguments : Fields) (principal : Option Principal)
      (runtime : String) (w : W)
      → (response : Response) × ((execute_tool_call services session_id tool_name arguments
            principal runtime w).0
          ≡ ok response)
  execute_tool_call-answered session_id tool_name arguments principal runtime w =
      answer _ ((whole-Answers session_id tool_name arguments principal runtime).at w)
