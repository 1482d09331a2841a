-- ===== src/Worker/Http.antt =====
-- gateway/workers/http_server.py: the handler of `POST /jobs`, in front of a service that is given by
-- its `authenticate` and `submit`.
use mcp_gateway.Base.{ℕ, String, Bool, Option, none, some, ◌==◌, string_eq, if◌then◌else◌}
use mcp_gateway.Errors.{GatewayError, code, message}
use mcp_gateway.Effect.{Exec, pure, throw, catch, on_gateway, ◌>>=◌}
use mcp_gateway.Worker.Jobs.{WorkerJob, WorkerResult}
use mcp_gateway.Worker.Service.{authentication_failure}
use mcp_gateway.Worker.Remote.{Wire, Response}

-- `_health_payload`, by its status code and its `status`
unfoldable pub health_payload : String → ℕ × String
health_payload status = (if status == "ok" then 200 else 503, status)

-- `readyz`
unfoldable pub readyz : Bool → ℕ × String
unfolding health_payload
readyz healthy = health_payload (if healthy then "ok" else "unready")

unfoldable pub error_result : ℕ → WorkerJob → GatewayError → WorkerResult
error_result now job e = record {
  job_id = job.job_id;
  outcome = "failed";
  output = none;
  error_code = some (code e);
  error_message = some (message e);
  completed_at = now;
}

abbrev pub error_status : GatewayError → ℕ
error_status e = if message e == "Worker authentication failed" then 401 else 200

module _ {S : Type 0} (w : Wire) (authenticates : WorkerJob → Bool)
    (submit : WorkerJob → Exec S WorkerResult) (now : ℕ) where
  abbrev pub error_response : WorkerJob → GatewayError → Exec S Response
  error_response job e =
      pure (record { status = error_status e; content = w.write_result (error_result now job e) })

  -- `service.authenticate(job)` and then `service.submit(job)`
  abbrev pub authenticated_submit : WorkerJob → Exec S WorkerResult
  authenticated_submit job =
      if authenticates job then submit job else throw (authentication_failure job)

  abbrev pub answer : WorkerJob → Exec S Response
  answer job =
      catch
        (do
          r ← authenticated_submit job
          pure (record { status = 200; content = w.write_result r }))
        (on_gateway (error_response job))

  abbrev pub answered : Option WorkerJob → Exec S Response
  answered none = pure (record { status = 422; content = "{\"error\":\"invalid worker job\"}" })
  answered (some job) = answer job

  unfoldable pub submit_job : String → Exec S Response
  unfolding error_result
  submit_job body = answered (w.read_job body)
