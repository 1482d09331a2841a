-- ===== src/Base/Json.antt =====
-- JSON values: what `json.loads` returns, the `dict[str, Any]` of the models, and `model_dump`.
use Prim.Native.String.{String}
use mathlib.Core.Path.{◌≡◌, refl}
use mathlib.Core.Bool.{Bool, false}
use native.Mathlib.Omega.{arith}
use mathlib.Core.Option.{Option, none, some}
use mathlib.Core.List.{List, [], ◌∷◌}
use mcp_gateway.Base.Tests.{if◌then◌else◌}
use mcp_gateway.Base.Equality.{◌==◌, string_eq}

-- A number is kept as its text: the program does no arithmetic on the numbers of a JSON value.
mutual
  pub data Json : Type 0 where
    null : Json
    bool : Bool → Json
    number : String → Json
    str : String → Json
    arr : Items → Json
    obj : Fields → Json

  pub data Items : Type 0 where
    nil : Items
    cons : Json → Items → Items

  pub data Fields : Type 0 where
    end : Fields
    field : String → Json → Fields → Fields

-- `d.get(k)` of a JSON object
unfoldable pub json_get : String → Fields → Option Json
json_get k end = none
json_get k (field j v fs) = if k == j then some v else json_get k fs

-- `del d[k]`
unfoldable pub json_del : String → Fields → Fields
json_del k end = end
json_del k (field j v fs) = let rest = json_del k fs in if k == j then rest else field j v rest

-- `isinstance(v, str)`, with the text
abbrev pub as_str : Option Json → Option String
as_str (some (str s)) = some s
as_str _ = none

-- `isinstance(v, dict)`, with the object
abbrev pub as_obj : Option Json → Option Fields
as_obj (some (obj fs)) = some fs
as_obj _ = none

-- `isinstance(v, list)`, with the elements
abbrev pub as_list : Option Json → Option Items
as_list (some (arr xs)) = some xs
as_list _ = none

abbrev pub to_list : Items → List Json
to_list nil = []
to_list (cons x xs) = x ∷ to_list xs

-- Removing a key leaves every other.
pub json_get-json_del :
    (k j : String) (fs : Fields) → (j == k) ≡ false → json_get j (json_del k fs) ≡ json_get j fs
unfolding json_get json_del
json_get-json_del k j end h = refl
json_get-json_del k j (field i v fs) h = ground (arith, json_get-json_del k j fs h)
