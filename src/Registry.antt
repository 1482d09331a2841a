-- ===== src/Registry.antt =====
-- gateway/registry.py: registered tools, validation and dispatch.
pub mod Tool
pub mod Laws
use mcp_gateway.Base.{ℕ, String, ◌<>◌, Option, none, some, List, string_eq, if◌then◌else◌}
use mcp_gateway.Base.Dict.{Dict, lookup, insert, values, has_key}
use mcp_gateway.Base.Json.{Fields}
use mcp_gateway.Errors.{gateway, other, tool_not_found_error}
use mcp_gateway.Effect.{Result, ok, raise, Exec}
use mcp_gateway.Registry.Tool
use mcp_gateway.Registry.Tool.{ToolDefinition, ◌then◌}

abbrev pub ToolRegistry : Type 0
ToolRegistry = Dict String ToolDefinition

-- `ValueError` for a name that is taken
unfoldable pub register : ToolDefinition → Exec ToolRegistry (Unit {0})
register t s =
    if has_key t.name s
    then (raise (other ("Tool already registered: " <> t.name)), s)
    else (ok tt, insert t.name t s)

unfoldable pub list_tools : ToolRegistry → List ToolDefinition
list_tools = values

abbrev found : String → Option ToolDefinition → Result ToolDefinition
found name none = raise (gateway (tool_not_found_error name))
found name (some t) = ok t

unfoldable pub get : ToolRegistry → String → Result ToolDefinition
get s name = found name (lookup name s)

unfoldable pub validate : ToolRegistry → String → Fields → Result Fields
unfolding get Tool.validate
validate s name arguments = get s name then λ t. Tool.validate t arguments

unfoldable pub execute_validated : ToolRegistry → ℕ → String → Fields → Result Fields
unfolding get Tool.execute_validated
execute_validated s tick name request = get s name then λ t. Tool.execute_validated t tick request

unfoldable pub execute : ToolRegistry → ℕ → String → Fields → Result Fields
unfolding get Tool.execute
execute s tick name arguments = get s name then λ t. Tool.execute t tick arguments
