-- ===== src/Registry/Laws.antt =====
-- The registry's contract in gateway/registry.py: unambiguous names.
use mcp_gateway.Base.{String, ◌≡◌, refl, none, some, [], ◌∷◌, ◌++◌}
use mcp_gateway.Base.{arith, ◌==◌, ==→eq, Bool-cases, inl, inr, List, string_eq}
use mcp_gateway.Base.Dict.{lookup, insert, values, lookup-insert}
use mcp_gateway.Effect.{ok}
use mcp_gateway.Registry.{ToolRegistry, register, get}
use mcp_gateway.Registry.Tool.{ToolDefinition}

pub values-insert_new :
    (s : ToolRegistry) (k : String) (t : ToolDefinition)
    → lookup k s ≡ none
    → values (insert k t s) ≡ values s ++ t ∷ []
unfolding values insert lookup
values-insert_new [] k t h = refl
values-insert_new ((j, w) ∷ s) k t h = ground (arith, values-insert_new s k t)

-- Registrations one after the other, where one that raises is passed over.
unfoldable pub register_each : List ToolDefinition → ToolRegistry → ToolRegistry
register_each [] s = s
register_each (t ∷ ts) s = register_each ts (register t s).1

found_ok :
    (s : ToolRegistry) (name : String) (t : ToolDefinition)
    → get s name ≡ ok t
    → lookup name s ≡ some t
unfolding get
found_ok s name t h = ground arith

get-register :
    (u : ToolDefinition) (s : ToolRegistry) (name : String) (t : ToolDefinition)
    → get s name ≡ ok t
    → get (register u s).1 name ≡ ok t
unfolding register get
get-register u s name t h =
    let e = found_ok s name t h in
    elim (Bool-cases (name == u.name)) [
      | inl same ↦ ground (arith, e, h, same, ==→eq name u.name same)
      | inr differ ↦ ground (arith, e, h, differ, lookup-insert name u.name u s)
    ]

-- A name keeps its tool: whatever tools are registered later, also under the same name, `get` finds
-- the tool that was registered first.
pub get-register_each :
    (us : List ToolDefinition) (s : ToolRegistry) (name : String) (t : ToolDefinition)
    → get s name ≡ ok t
    → get (register_each us s) name ≡ ok t
unfolding register_each
get-register_each [] s name t h = h
get-register_each (u ∷ us) s name t h =
    get-register_each us (register u s).1 name t (get-register u s name t h)
