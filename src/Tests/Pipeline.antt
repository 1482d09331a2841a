-- ===== src/Tests/Pipeline.antt =====
-- Inputs for gateway/server.py: a world that logs what is allowed and what runs, a policy that allows
-- every request, and one tool that accepts every request.
use mcp_gateway.Base.{
  String, ◌≡◌, refl, ap, ◌⊎◌, inl, inr, true, false, none, some, or_default, List, [], ◌∷◌, arith,
  string_eq,
}
use mathlib.Core.Path.{subst}
use mcp_gateway.Base.Dict.{lookup}
use mcp_gateway.Base.Json.{Fields, end, field, str, json_get, as_str, as_obj}
use mcp_gateway.Models.{PolicyDecision, read_only}
use mcp_gateway.Effect.{Result, ok, Exec, pure}
use mcp_gateway.Effect.Keeps.{Keeps, Keeps-pure}
use mcp_gateway.Policy.{allow}
use mcp_gateway.Registry
use mcp_gateway.Registry.{ToolRegistry}
use mcp_gateway.Registry.Tool
use mcp_gateway.Registry.Tool.{ToolDefinition, valid}
use mcp_gateway.Pipeline.Services.{Services, StateStore}
use mcp_gateway.Pipeline.Call.{input_of}
use mcp_gateway.Pipeline.Run.{execute_tool_call}
use mcp_gateway.Pipeline.Guarded.{Fact, safe, granted, queued, IsGuarded, IsStable, IsStoreQuiet}
use mcp_gateway.Pipeline.Safety.Loop.{TransitionsSucceed}
use mcp_gateway.Pipeline.Safety.Whole.{execute_tool_call-safe}

pub data Event : Type 0 where
  allowed ran : String → Fields → Event

abbrev IsGranted : String → Fields → List Event → Type 0
IsGranted n r [] = ⊥
IsGranted n r (allowed m q ∷ log) = ((m ≡ n) × (q ≡ r)) ⊎ IsGranted n r log
IsGranted n r (ran m q ∷ log) = IsGranted n r log

-- Every run comes after its grant.
abbrev IsSafe : List Event → Type 0
IsSafe [] = Unit
IsSafe (allowed m q ∷ log) = IsSafe log
IsSafe (ran m q ∷ log) = IsGranted m q log × IsSafe log

abbrev Logged : Fact → List Event → Type 0
Logged safe log = IsSafe log
Logged (granted n r) log = IsGranted n r log
Logged (queued r) log = Unit

abbrev echo : ToolDefinition
echo = record {
  name = "echo";
  description = "";
  risk_class = read_only;
  input_schema = end;
  output_schema = end;
  input_model = valid;
  output_model = valid;
  handler = λ tick request. ok request;
  idempotent = true;
}

abbrev pub tools : ToolRegistry
tools = ("echo", echo) ∷ []

echo-IsStable : IsStable tools
unfolding Registry.validate Tool.validate lookup
echo-IsStable name arguments request again h g = ground arith

abbrev allowing : PolicyDecision
allowing = record { outcome = allow; matched_rule = "rule"; reason = "" }

abbrev log_grant : Fields → List Event → List Event
log_grant input log =
    allowed (or_default (as_str (json_get "tool_name" input)) "")
      (or_default (as_obj (json_get "arguments" input)) end)
    ∷ log

abbrev log_decision : Fields → Exec (List Event) PolicyDecision
log_decision input log = (ok allowing, log_grant input log)

abbrev store : StateStore (List Event)
store = record {
  create_call = λ r. pure tt;
  transition = λ id state error. pure tt;
  finish_attempt = λ id n outcome error. pure tt;
  start_attempt = λ id n. pure tt;
  get_call = λ id. pure none;
}

abbrev pub services : Services (List Event)
services = record {
  registry = tools;
  store = store;
  evaluate = log_decision;
  approvals = none;
  control_plane = none;
  append_audit = none;
  advisor = some (λ name a schema d. pure a);
  now = λ w. (1, w);
  monotonic = λ w. (1, w);
  uniform = λ w. (record { negative = false; size = 0 }, w);
  sleep = λ t w. w;
  new_id = λ w. ("id", w);
  trace_id = λ w. ("trace", w);
  start_tool = λ name r w. (0, ran name r ∷ w);
}

store-quiet : IsStoreQuiet Logged store
store-quiet = record {
  create_call = λ r i. Keeps-pure tt;
  transition = λ id state error i. Keeps-pure tt;
  finish_attempt = λ id n outcome error i. Keeps-pure tt;
  start_attempt = λ id n i. Keeps-pure tt;
  get_call = λ id i. Keeps-pure none;
}

grant-Logged :
    (i : Fact) (input : Fields) (log : List Event) → Logged i log → Logged i (log_grant input log)
grant-Logged safe input log h = h
grant-Logged (granted n r) input log h = inr h
grant-Logged (queued r) input log h = tt

run-Logged :
    (name : String) (r : Fields) (log : List Event)
    → IsGranted name r log
    → (i : Fact) → Logged i log
    → Logged i (ran name r ∷ log)
run-Logged name r log g safe h = (g, h)
run-Logged name r log g (granted n q) h = h
run-Logged name r log g (queued q) h = tt

IsGranted-in :
    (name : String) (r input : Fields) (d : PolicyDecision) (log log' : List Event)
    → or_default (as_str (json_get "tool_name" input)) "" ≡ name
    → or_default (as_obj (json_get "arguments" input)) end ≡ r
    → log_decision input log ≡ (ok d, log')
    → IsGranted name r log'
IsGranted-in name r input d log log' n a e =
    subst (IsGranted name r) (ap (λ (x : Result PolicyDecision × List Event). x.1) e) (inl (n, a))

services-IsGuarded : IsGuarded Logged services
unfolding json_get string_eq
services-IsGuarded = record {
  store = store-quiet;
  evaluate = λ input i. record { at = grant-Logged i input };
  allowed =
      λ call t r d w w' e h. IsGranted-in call.tool_name r (input_of call t r) d w w' refl refl e;
  approvals = tt;
  control_plane = tt;
  append_audit = tt;
  advisor = λ name a schema d i. Keeps-pure a;
  now = λ i w h. h;
  monotonic = λ i w h. h;
  uniform = λ i w h. h;
  sleep = λ t i w h. h;
  new_id = λ i w h. h;
  trace_id = λ i w h. h;
  start_tool = run-Logged;
}

services-TransitionsSucceed : TransitionsSucceed services
unfolding pure
services-TransitionsSucceed id state error w w' x h = absurd (cc h)

execute_tool_call-safe_example :
    Keeps IsSafe
      (execute_tool_call services "session" "echo" (field "text" (str "hello") end) none "local")
execute_tool_call-safe_example =
    execute_tool_call-safe services Logged services-IsGuarded echo-IsStable
      (inr services-TransitionsSucceed) "session" "echo" (field "text" (str "hello") end) none
      "local"
