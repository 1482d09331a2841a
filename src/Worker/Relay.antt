-- ===== src/Worker/Relay.antt =====
-- What a client of gateway/workers/remote.py makes of replies, alone and with the handler of
-- gateway/workers/http_server.py behind it.
use mcp_gateway.Base.{
  ℕ, String, ◌<>◌, ◌≡◌, refl, ◌∙◌, ap, true, false, Option, none, some, ◌==◌, string_eq, option_eq,
  if◌then◌else◌, arith,
}
use mcp_gateway.Base.Json.{Fields}
use mcp_gateway.Errors.{gateway, other, code, message, needs_review_error}
use mcp_gateway.Effect.{Result, ok, raise, cut_off, Exec, pure, throw, lift, catch, continue, ◌>>=◌}
use mcp_gateway.Worker.Jobs.{WorkerJob, WorkerResult}
use mcp_gateway.Worker.Service.{authenticate, refuses}
use mcp_gateway.Worker.Signature.{Digest, sign_job, signed, authenticate-signed}
use mcp_gateway.Worker.Remote.{
  Response, Reply, responded, Wire, ToolJob, unsigned_job, make_job, output_of, read_reply,
  execute_remote,
}
use mcp_gateway.Worker.Http.{error_result, error_status, answer, submit_job}

-- A message, or what stands for an empty one.
abbrev pub message_or : String → String → String
message_or d m = if m == "" then d else m

abbrev pub text_or : String → Option String → String
text_or d none = d
text_or d (some m) = message_or d m

abbrev review_request : String → Result Fields
review_request m = raise (gateway (needs_review_error m))

-- What the client gets of what the service's `submit` came to: the output of a job that succeeded;
-- for one that failed under review, and for the error that asks for it, that error; for all else an
-- error of the tool's execution.
abbrev pub relayed : Wire → Result WorkerResult → Result Fields
relayed w (ok r) =
    if r.outcome == "succeeded"
    then elim r.output [
      | none ↦ refuses "Execution worker returned no output"
      | some output ↦ ok output
    ]
    else if r.error_code == some "needs_review"
    then review_request (text_or "Worker outcome requires review" r.error_message)
    else refuses (text_or "Execution worker failed" r.error_message)
relayed w (raise (gateway e)) =
    if message e == "Worker authentication failed"
    then refuses ("Execution worker returned HTTP " <> w.digits 401)
    else if code e == "needs_review"
    then review_request (message_or "Worker outcome requires review" (message e))
    else refuses (message_or "Execution worker failed" (message e))
relayed w (raise (other m)) = refuses ("Execution worker returned HTTP " <> w.digits 500)
relayed w cut_off = cut_off

module _ {S : Type 0} (w : Wire) (d : Digest) (secret : String) (j : ToolJob) (now : ℕ)
    (submit : WorkerJob → Exec S WorkerResult) where
  -- What the server answers for an exception that the handler lets through.
  abbrev server_error : Response
  server_error = record { status = 500; content = "Internal Server Error" }

  -- The transport that hands the body to the handler, and its response or the server's back.
  unfoldable pub post : String → Exec S Reply
  unfolding submit_job
  post body =
      catch
        (do
          response ← submit_job w (authenticate (sign_job d secret)) submit now body
          pure (responded response))
        λ e. pure (responded server_error)

  -- What the handler makes of what `submit` came to.
  abbrev concluded : WorkerJob → Result WorkerResult → Result Response
  concluded job (ok x) = ok (record { status = 200; content = w.write_result x })
  concluded job (raise (gateway e)) =
      ok (record { status = error_status e; content = w.write_result (error_result now job e) })
  concluded job (raise (other m)) = raise (other m)
  concluded job cut_off = cut_off

  answer-concluded :
      (o : Result WorkerResult × S) (job : WorkerJob) (s : S)
      → submit job s ≡ o
      → authenticate (sign_job d secret) job ≡ true
      → answer w (authenticate (sign_job d secret)) submit now job s ≡ (concluded job o.0, o.1)
  unfolding catch pure throw ◌>>=◌
  answer-concluded (ok x, s') job s h a = ground (arith, h, a)
  answer-concluded (raise (gateway e), s') job s h a = ground (arith, h, a)
  answer-concluded (raise (other m), s') job s h a = ground (arith, h, a)
  answer-concluded (cut_off, s') job s h a = ground (arith, h, a)

  -- The result that the handler writes is read back.
  abbrev pub ReadsBack : WorkerJob → Result WorkerResult → Type 0
  ReadsBack job (ok x) = w.read_result (w.write_result x) ≡ some x
  ReadsBack job (raise (gateway e)) =
      w.read_result (w.write_result (error_result now job e)) ≡ some (error_result now job e)
  ReadsBack job (raise (other m)) = Unit
  ReadsBack job cut_off = Unit

  some_same : (x y : String) → (some x == some y) ≡ (x == y)
  unfolding option_eq
  some_same x y = ground arith

  failed_is_no_success : ◌==◌ {A = String} "failed" "succeeded" ≡ false
  unfolding string_eq
  failed_is_no_success = refl

  -- What the transport makes of what the handler came to.
  abbrev posted : Result Response → Result Reply
  posted (ok response) = ok (responded response)
  posted (raise e) = ok (responded server_error)
  posted cut_off = cut_off

  read-posted :
      (r : Result WorkerResult) (s : S)
      → ReadsBack (make_job d secret j) r
      → continue
          (posted (concluded (make_job d secret j) r))
          (λ reply. lift (read_reply w j.risk_class reply))
          s
        ≡ (relayed w r, s)
  unfolding lift read_reply output_of error_result make_job signed unsigned_job
  read-posted (ok x) s h = ground (arith, h)
  read-posted (raise (gateway e)) s h =
      ground (arith, h, failed_is_no_success, some_same (code e) "needs_review")
  read-posted (raise (other m)) s h = refl
  read-posted cut_off s h = refl

  post-answer :
      (body : String) (job : WorkerJob) (o : Result WorkerResult × S) (s : S)
      → w.read_job body ≡ some job
      → submit job s ≡ o
      → authenticate (sign_job d secret) job ≡ true
      → post body s ≡ (posted (concluded job o.0), o.1)
  unfolding post submit_job catch ◌>>=◌ pure
  post-answer body job (ok x, s') s e h a = ground (arith, e, answer-concluded (ok x, s') job s h a)
  post-answer body job (raise (gateway x), s') s e h a =
      ground (arith, e, answer-concluded (raise (gateway x), s') job s h a)
  post-answer body job (raise (other m), s') s e h a =
      ground (arith, e, answer-concluded (raise (other m), s') job s h a)
  post-answer body job (cut_off, s') s e h a =
      ground (arith, e, answer-concluded (cut_off, s') job s h a)

  pub execute_remote-relayed :
      (s : S)
      → w.read_job (w.write_job (make_job d secret j)) ≡ some (make_job d secret j)
      → ReadsBack (make_job d secret j) (submit (make_job d secret j) s).0
      → let (r, s') = submit (make_job d secret j) s in
        execute_remote w d secret post j s ≡ (relayed w r, s')
  unfolding execute_remote ◌>>=◌ make_job signed
  execute_remote-relayed s hj hr =
      ap
        (λ (o : Result Reply × S).
          continue o.0 (λ reply. lift (read_reply w j.risk_class reply)) o.1)
        (post-answer _ (make_job d secret j) (submit (make_job d secret j) s) s hj refl
          (authenticate-signed d secret (unsigned_job j)))
      ∙ read-posted _ _ hr
