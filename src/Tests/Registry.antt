-- ===== src/Tests/Registry.antt =====
-- Inputs for gateway/registry.py and gateway/policy: one tool, and one answer of OPA.
use mcp_gateway.Base.{String, ◌≡◌, refl, true, none, some, [], ◌∷◌, string_eq}
use mcp_gateway.Base.Dict.{lookup}
use mcp_gateway.Base.Json.{Json, obj, str, Fields, end, field, json_get}
use mcp_gateway.Models.{read_only, PolicyDecision}
use mcp_gateway.Effect.{ok}
use mcp_gateway.Registry.{ToolRegistry, get, execute}
use mcp_gateway.Registry.Tool.{ToolDefinition, valid}
use mcp_gateway.Registry.Laws.{register_each, get-register_each}
use mcp_gateway.Policy.{Answer, body, evaluate, Decided, evaluate-Decided}

abbrev echo : ToolDefinition
echo = record {
  name = "echo";
  description = "";
  risk_class = read_only;
  input_schema = end;
  output_schema = end;
  input_model = valid;
  output_model = valid;
  handler = λ tick request. ok request;
  idempotent = true;
}

abbrev tools : ToolRegistry
tools = ("echo", echo) ∷ []

abbrev hello : Fields
hello = field "text" (str "hello") end

no_tools : lookup {K = String} {V = ToolDefinition} "echo" [] ≡ none
unfolding lookup
no_tools = refl

found_echo : lookup "echo" tools ≡ some echo
unfolding lookup string_eq
found_echo = refl

echoed : execute tools 0 "echo" hello ≡ ok hello
unfolding execute lookup string_eq
echoed = refl

got_echo : get tools "echo" ≡ ok echo
unfolding get lookup string_eq
got_echo = refl

abbrev other_echo : ToolDefinition
other_echo = record echo { description = "another" }

get-register_each_example : get (register_each (other_echo ∷ echo ∷ []) tools) "echo" ≡ ok echo
get-register_each_example = get-register_each (other_echo ∷ echo ∷ []) tools "echo" echo got_echo

abbrev denial : PolicyDecision
denial = record { outcome = "deny"; matched_rule = "unknown"; reason = "" }

abbrev py_text : Json → String
py_text v = "text"

abbrev denying : Answer
denying = body (obj (field "result" (obj (field "outcome" (str "deny") end)) end))

denied : evaluate py_text denying ≡ ok denial
unfolding evaluate json_get string_eq
denied = refl

evaluate-Decided_example : Decided py_text denying denial
evaluate-Decided_example = evaluate-Decided py_text denying denial denied
