-- ===== src/Tests/Worker.antt =====
-- Inputs for gateway/workers: one job that is submitted again while it is in flight and after it has
-- succeeded, and a breaker that opens at its second failure.
use mcp_gateway.Base.{
  ◌+◌, ◌≤◌, max, String, ◌≡◌, refl, false, ◌&&◌, none, List, [], ◌∷◌, ◌++◌, ltb, leb, string_eq,
  nat_eq,
}
use mcp_gateway.Base.Dict.{lookup, insert}
use mcp_gateway.Base.Json.{end, field, str}
use mcp_gateway.Models.{mutating, risk_class_eq}
use mcp_gateway.Effect.{ok}
use mcp_gateway.Registry
use mcp_gateway.Registry.{ToolRegistry}
use mcp_gateway.Registry.Tool.{ToolDefinition, valid}
use mcp_gateway.Worker.Circuit.{
  CircuitBreaker, new_breaker, allow, record_failures, refused_if, allow-record_failures,
}
use mcp_gateway.Worker.Jobs.{WorkerJob, new_service}
use mcp_gateway.Worker.Once.{Step, submits, takes, starts, finishes, successes}
use mcp_gateway.Worker.Once.Steps.{successes-bound}

abbrev write_file : ToolDefinition
write_file = record {
  name = "write_file";
  description = "";
  risk_class = mutating;
  input_schema = end;
  output_schema = end;
  input_model = valid;
  output_model = valid;
  handler = λ tick request. ok request;
  idempotent = false;
}

abbrev tools : ToolRegistry
tools = ("write_file", write_file) ∷ []

abbrev job : WorkerJob
job = record {
  job_id = "job-1";
  call_id = "call-1";
  tenant_id = "local";
  tool_name = "write_file";
  risk_class = mutating;
  arguments = field "text" (str "hello") end;
  idempotency_key = "call-1:write_file";
  submitted_at = 1;
  auth_token = "signature";
}

abbrev signature : WorkerJob → String
signature j = "signature"

abbrev history : List Step
history =
    starts
    ∷ submits 1 1 job
    ∷ takes
    ∷ submits 2 2 job
    ∷ takes
    ∷ finishes 3 0 0
    ∷ submits 4 4 job
    ∷ takes
    ∷ finishes 5 1 0
    ∷ []

abbrev breaker : CircuitBreaker
breaker = record { failure_threshold = 2; reset_timeout = 10; failures = 0; opened_at = none }

history-successes :
    successes signature tools 4 128 "call-1:write_file" history (new_service breaker) ≡ 1
unfolding successes allow string_eq lookup insert Registry.validate Registry.execute_validated
history-successes = refl

successes-bound_example :
    successes signature tools 4 128 "call-1:write_file" history (new_service breaker) ≤ 1
successes-bound_example = successes-bound signature tools 4 128 "call-1:write_file" history breaker

allow-record_failures_example :
    (allow 9 (record_failures ((1 ∷ []) ++ 3 ∷ []) (new_breaker 2 10))).0
    ≡ refused_if (leb (max 1 2) 2 && ltb 9 (3 + 10))
allow-record_failures_example = allow-record_failures 2 10 (1 ∷ []) 3 9
