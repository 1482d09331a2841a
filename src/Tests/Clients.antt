-- ===== src/Tests/Clients.antt =====
-- Inputs for the clients of gateway/workers: one signed job, which a service answers, and a registry of
-- proxies for one tool.
use mcp_gateway.Base.{
  ℕ, String, ◌≡◌, refl, ◌⊎◌, true, Option, none, some, [], ◌∷◌, string_eq, nat_eq, option_eq, false,
  inl,
}
use mcp_gateway.Base.Dict.{lookup, insert, values}
use mcp_gateway.Base.Json.{Fields, end, field, str}
use mcp_gateway.Models.{mutating, risk_class_eq}
use mcp_gateway.Errors.{gateway, needs_review_error}
use mcp_gateway.Effect.{ok, raise, cut_off, Exec, ◌>>=◌, pure}
use mcp_gateway.Registry.{ToolRegistry, register, validate, execute_validated}
use mcp_gateway.Registry.Tool.{ToolDefinition, valid}
use mcp_gateway.Worker.Circuit.{CircuitBreaker, allow, record_failure}
use mcp_gateway.Worker.Jobs.{WorkerJob, WorkerResult, WorkerService}
use mcp_gateway.Worker.Service.{authenticate, submit, submit_timed_out, shares, begin_stop}
use mcp_gateway.Worker.Signature.{
  Digest, job_payload, sign_job, signed, SameJob, IsCollision, authenticate-SameJob,
}
use mcp_gateway.Worker.Remote.{Wire, ToolJob, make_job, unsigned_job, execute_remote, output_of}
use mcp_gateway.Worker.Http.{error_result}
use mcp_gateway.Worker.Relay.{post, relayed, execute_remote-relayed}
use mcp_gateway.Worker.Proxy.{
  ProxyContext, create_proxy, register_all, submitted, create_proxy-faithful,
}
use mcp_gateway.Worker.Stop.{IsReviewed, begin_stop-IsReviewed, submit-timed_out, awaited}

abbrev digest : Digest
digest = record { hmac = λ secret t. secret; dumps = λ p. "payload"; iso = λ n. "instant" }

abbrev call : ToolJob
call = record {
  tool_name = "write_file";
  arguments = field "text" (str "hello") end;
  risk_class = mutating;
  call_id = "call-1";
  tenant_id = "local";
  idempotency_key = none;
  job_id = "job-1";
  now = 1;
}

abbrev job : WorkerJob
job = make_job digest "secret" call

abbrev payload : Fields
payload = job_payload digest job

abbrev loads : String → Option Fields
loads t = some payload

again_authentic :
    authenticate
      (sign_job digest "secret")
      (record job { auth_token = (signed digest "secret" job).auth_token })
    ≡ true
unfolding authenticate sign_job signed make_job unsigned_job job_payload string_eq
again_authentic = refl

authenticate-SameJob_example :
    SameJob digest job job
    ⊎ IsCollision digest "secret" (digest.dumps payload) (digest.dumps payload)
authenticate-SameJob_example =
    authenticate-SameJob digest "secret" job job loads refl refl again_authentic

abbrev wire : Wire
wire = record {
  write_job = λ j. "job";
  read_job = λ t. some job;
  write_result = λ r. r.outcome;
  read_result = λ t. some (error_result 7 job (needs_review_error "Unknown outcome"));
  digits = λ n. "401";
}

abbrev uncertain : WorkerJob → Exec ℕ WorkerResult
uncertain j s = (raise (gateway (needs_review_error "Unknown outcome")), s)

execute_remote-relayed_example :
    execute_remote wire digest "secret" (post wire digest "secret" call 7 uncertain) call 0
    ≡ (relayed wire (raise (gateway (needs_review_error "Unknown outcome"))), 0)
execute_remote-relayed_example =
    execute_remote-relayed wire digest "secret" call 7 uncertain 0 refl refl

relayed_needs_review :
    relayed wire (raise (gateway (needs_review_error "Unknown outcome")))
    ≡ raise (gateway (needs_review_error "Unknown outcome"))
unfolding output_of error_result string_eq option_eq
relayed_needs_review = refl

abbrev tool : ToolDefinition
tool = record {
  name = "write_file";
  description = "";
  risk_class = mutating;
  input_schema = end;
  output_schema = end;
  input_model = valid;
  output_model = valid;
  handler = λ tick request. ok request;
  idempotent = false;
}

abbrev context : ProxyContext
context = record {
  client = λ tick c. ok c.arguments;
  context = some ("call-1", "local");
  fresh = λ tick. "call-2";
  digest = λ arguments. "digest";
}

abbrev tools : ToolRegistry
tools = ("write_file", tool) ∷ []

one_registered : register_all (tool ∷ []) [] ≡ (ok tt, tools)
unfolding register lookup insert ◌>>=◌ pure
one_registered = refl

create_proxy-faithful_example :
    let (r, p) = create_proxy context tools in
    (r ≡ ok tt)
    × ((name : String) (arguments : Fields)
        → validate p name arguments ≡ validate tools name arguments)
    × ((tick : ℕ) (name : String) (request : Fields)
        → execute_validated p tick name request ≡ submitted context tools tick name request)
create_proxy-faithful_example = create_proxy-faithful context (tool ∷ []) tools one_registered

abbrev breaker : CircuitBreaker
breaker = record { failure_threshold = 2; reset_timeout = 10; failures = 0; opened_at = none }

abbrev busy : WorkerService
busy = record {
  running = true;
  queue = [];
  executing = (job, 0) ∷ [];
  stopping = [];
  futures = [];
  next_future = 1;
  idempotent_results = [];
  inflight = ("call-1:write_file", (job, 0)) ∷ [];
  reconciliation = [];
  breaker = breaker;
}

begin_stop-IsReviewed_example : IsReviewed (begin_stop 5 busy) job 0
unfolding values risk_class_eq make_job unsigned_job signed lookup
begin_stop-IsReviewed_example =
    begin_stop-IsReviewed 5 busy job 0 (inl refl) (λ e. refl, tt) refl refl

abbrev sign : WorkerJob → String
sign j = "secret"

submit-timed_out_example :
    let s' = (submit_timed_out 5 job 0 busy).1 in
    ((submit sign 128 6 7 job s').0 ≡ shares 0) × (awaited s' 0 ≡ some cut_off)
unfolding lookup string_eq nat_eq make_job unsigned_job signed authenticate allow record_failure
submit-timed_out_example =
    submit-timed_out sign 128 5 6 7 job job 0 busy refl refl refl refl refl refl
