-- ===== src/Tests/Answered.antt =====
-- Inputs for gateway/server.py: the services of the other runs with a policy client that fails.
use mcp_gateway.Base.{ℕ, String, ◌≡◌, none, List, [], arith}
use mcp_gateway.Base.Dict.{lookup}
use mcp_gateway.Base.Json.{Fields, end}
use mcp_gateway.Errors.{other}
use mcp_gateway.Effect.{ok, throw}
use mcp_gateway.Effect.Answers.{AnyError, Foreseen, foreseen_ended, Answers-pure, Answers-throw}
use mcp_gateway.Registry
use mcp_gateway.Registry.Tool
use mcp_gateway.Pipeline.Services.{Services}
use mcp_gateway.Pipeline.Run.{Response, execute_tool_call}
use mcp_gateway.Pipeline.Answered.{IsAnswering}
use mcp_gateway.Pipeline.Answered.Whole.{execute_tool_call-answered}
use mcp_gateway.Tests.Pipeline.{Event, services}

abbrev failing : Services (List Event)
failing = record services { evaluate = λ input. throw (other "ConnectError") }

tools-Foreseen :
    (tick : ℕ) (name : String) (request : Fields)
    → Foreseen AnyError (Registry.execute_validated failing.registry tick name request)
unfolding Registry.execute_validated Registry.get Tool.execute_validated lookup
tools-Foreseen tick name request =
    foreseen_ended (Registry.execute_validated failing.registry tick name request) (ground arith)

failing-IsAnswering : IsAnswering failing
failing-IsAnswering = record {
  store = record {
    create_call = λ r. Answers-pure tt;
    transition = λ id state error. Answers-pure tt;
    finish_attempt = λ id n outcome error. Answers-pure tt;
    start_attempt = λ id n. Answers-pure tt;
    get_call = λ id. Answers-pure none;
  };
  evaluate = λ input. Answers-throw (other "ConnectError") tt;
  approvals = tt;
  control_plane = tt;
  append_audit = tt;
  advisor = λ name a schema d. Answers-pure a;
  tools = tools-Foreseen;
}

execute_tool_call-answered_example :
    (response : Response) × ((execute_tool_call failing "session" "echo" end none "local" []).0
      ≡ ok response)
execute_tool_call-answered_example =
    execute_tool_call-answered failing failing-IsAnswering "session" "echo" end none "local" []
