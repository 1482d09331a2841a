-- ===== src/Tests/Tracked.antt =====
-- Inputs for gateway/server.py: a store that logs the states of a call, and a policy that allows.
use mcp_gateway.Base.{◌≡◌, refl, none, false, List, [], ◌∷◌}
use mcp_gateway.Base.Json.{end}
use mcp_gateway.Models.{ToolCallState, received}
use mcp_gateway.Effect.{ok, pure}
use mcp_gateway.Effect.Keeps.{Keeps-pure}
use mcp_gateway.Effect.Guards.{Guards}
use mcp_gateway.Policy.{allow}
use mcp_gateway.Pipeline.Services.{Services}
use mcp_gateway.Pipeline.Call.{Request}
use mcp_gateway.Pipeline.Run.{call_tool}
use mcp_gateway.Pipeline.Tracked.{Step, IsTracked}
use mcp_gateway.Pipeline.Tracked.Blocks.{In, reaches}
use mcp_gateway.Pipeline.Tracked.Whole.{EndsIn, call_tool-EndsIn}
use mcp_gateway.Tests.Pipeline.{tools}

-- The log, newest first, is a walk of steps that has come to the state.
abbrev At : ToolCallState → List ToolCallState → Type 0
At a [] = a ≡ received
At a (s ∷ log) = (a ≡ s) × ((b : ToolCallState) × At b log × Step b s)

abbrev logging : Services (List ToolCallState)
logging = record {
  registry = tools;
  store = record {
    create_call = λ r. pure tt;
    transition = λ id s error log. (ok tt, s ∷ log);
    finish_attempt = λ id n outcome error. pure tt;
    start_attempt = λ id n. pure tt;
    get_call = λ id. pure none;
  };
  evaluate = λ input. pure (record { outcome = allow; matched_rule = "rule"; reason = "" });
  approvals = none;
  control_plane = none;
  append_audit = none;
  advisor = none;
  now = λ w. (1, w);
  monotonic = λ w. (1, w);
  uniform = λ w. (record { negative = false; size = 0 }, w);
  sleep = λ t w. w;
  new_id = λ w. ("id", w);
  trace_id = λ w. ("trace", w);
  start_tool = λ name r w. (0, w);
}

logging-IsTracked : IsTracked At logging
logging-IsTracked = record {
  store = record {
    transition = λ id a s error step. record { at = λ log p. (refl, (a, p, step)) };
    finish_attempt = λ id n outcome error a. Keeps-pure tt;
    start_attempt = λ id n a. Keeps-pure tt;
    get_call = λ id a. Keeps-pure none;
  };
  evaluate = λ input a. Keeps-pure _;
  approvals = tt;
  control_plane = tt;
  append_audit = tt;
  advisor = tt;
  now = λ a w p. p;
  monotonic = λ a w p. p;
  uniform = λ a w p. p;
  sleep = λ t a w p. p;
  new_id = λ a w p. p;
  start_tool = λ name r a w p. p;
}

abbrev request : Request
request = record {
  call_id = "id";
  trace_id = "trace";
  session_id = "session";
  tool_name = "echo";
  arguments = end;
  principal = none;
  sandbox_runtime = "local";
  started = 0;
}

call_tool-EndsIn_example :
    Guards
      (In At received)
      (call_tool logging request)
      (reaches At (EndsIn logging request At logging-IsTracked))
call_tool-EndsIn_example = call_tool-EndsIn logging request At logging-IsTracked
