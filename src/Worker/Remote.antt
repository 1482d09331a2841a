-- ===== src/Worker/Remote.antt =====
-- gateway/workers/remote.py and the client in gateway/workers/service.py: a tool call as a signed job
-- for a worker. The HTTP client, its exceptions that mean that no reply came, and pydantic's texts are
-- parameters.
use mcp_gateway.Base.{
  ℕ, String, ◌<>◌, Bool, false, Option, none, some, leb, ◌==◌, string_eq, nat_eq, option_eq,
  if◌then◌else◌,
}
use mcp_gateway.Base.Json.{Fields}
use mcp_gateway.Models.{RiskClass, risk_class_eq}
use mcp_gateway.Errors.{gateway, needs_review_error}
use mcp_gateway.Effect.{Result, ok, raise, Exec, lift, ◌>>=◌}
use mcp_gateway.Worker.Jobs.{WorkerJob, WorkerResult}
use mcp_gateway.Worker.Service.{or_message, refuses}
use mcp_gateway.Worker.Signature.{Digest, signed}

pub record Response : Type 0 where
  pub status : ℕ
  pub content : String

-- `unreachable` is `httpx.HTTPError` or `TimeoutError`.
pub data Reply : Type 0 where
  unreachable : Reply
  responded : Response → Reply

-- The texts of jobs and results on the wire, and the decimal text of a number.
pub record Wire : Type 0 where
  pub write_job : WorkerJob → String
  pub read_job : String → Option WorkerJob
  pub write_result : WorkerResult → String
  pub read_result : String → Option WorkerResult
  pub digits : ℕ → String

-- The arguments of a client's `execute`, with the identifier and the instant that it draws.
pub record ToolJob : Type 0 where
  pub tool_name : String
  pub arguments : Fields
  pub risk_class : RiskClass
  pub call_id : String
  pub tenant_id : String
  pub idempotency_key : Option String
  pub job_id : String
  pub now : ℕ

unfoldable pub unsigned_job : ToolJob → WorkerJob
unsigned_job j = record {
  job_id = j.job_id;
  call_id = j.call_id;
  tenant_id = j.tenant_id;
  tool_name = j.tool_name;
  risk_class = j.risk_class;
  arguments = j.arguments;
  idempotency_key = or_message j.idempotency_key (j.call_id <> ":" <> j.tool_name);
  submitted_at = j.now;
  auth_token = "";
}

unfoldable pub make_job : Digest → String → ToolJob → WorkerJob
unfolding signed unsigned_job
make_job d secret j = signed d secret (unsigned_job j)

abbrev pub failed_output : WorkerResult → Result Fields
failed_output r =
    if r.error_code == some "needs_review"
    then raise
        (gateway (needs_review_error (or_message r.error_message "Worker outcome requires review")))
    else refuses (or_message r.error_message "Execution worker failed")

abbrev pub present : String → Option Fields → Result Fields
present m none = refuses m
present m (some output) = ok output

-- The checks of a result that was received.
unfoldable pub output_of : WorkerResult → Result Fields
output_of r =
    if r.outcome == "succeeded"
    then present "Execution worker returned no output" r.output
    else failed_output r

abbrev pub parsed : Option WorkerResult → Result Fields
parsed none = refuses "Execution worker returned invalid JSON"
parsed (some r) = output_of r

unfoldable pub read_reply : Wire → RiskClass → Reply → Result Fields
unfolding output_of
read_reply w risk unreachable =
    if risk == RiskClass.read_only
    then refuses "Execution worker is unavailable"
    else raise
        (gateway (needs_review_error "Worker transport failed; mutation outcome requires review"))
read_reply w risk (responded r) =
    if leb 400 r.status
    then refuses ("Execution worker returned HTTP " <> w.digits r.status)
    else parsed (w.read_result r.content)

-- `RemoteWorkerClient.healthcheck`, by the reply to its probe.
unfoldable pub healthcheck : Reply → Bool
healthcheck unreachable = false
healthcheck (responded r) = r.status == 200

module _ {S : Type 0} where
  -- `RemoteWorkerClient.execute`
  unfoldable pub execute_remote :
      Wire → Digest → String → (String → Exec S Reply) → ToolJob → Exec S Fields
  unfolding make_job read_reply
  execute_remote w d secret post j = do
    reply ← post (w.write_job (make_job d secret j))
    lift (read_reply w j.risk_class reply)

  -- `InProcessWorkerClient.execute`
  unfoldable pub execute_local :
      Digest → String → (WorkerJob → Exec S WorkerResult) → ToolJob → Exec S Fields
  unfolding make_job
  execute_local d secret submit j = do
    r ← submit (make_job d secret j)
    lift (present (or_message r.error_message "Execution worker returned no output") r.output)
