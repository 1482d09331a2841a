-- ===== src/Registry/Tool.antt =====
-- `ToolDefinition` of gateway/registry.py. A tool's models and handler are parameters: what pydantic
-- accepts is a `Validation`, and a handler's answers may differ from call to call, which its first
-- argument numbers.
use mcp_gateway.Base.{ℕ, String, Bool, List}
use mcp_gateway.Base.Json.{Fields}
use mcp_gateway.Models.{RiskClass, ErrorIssue}
use mcp_gateway.Errors.{gateway, other, tool_input_error}
use mcp_gateway.Effect.{Result, ok, raise, cut_off}

-- `model_validate`: the instance, by its dump, or the items of the `ValidationError`.
pub data Validation : Type 0 where
  valid : Fields → Validation
  invalid : List ErrorIssue → Validation

pub record ToolDefinition : Type 0 where
  pub name : String
  pub description : String
  pub risk_class : RiskClass
  pub input_schema : Fields
  pub output_schema : Fields
  pub input_model : Fields → Validation
  pub output_model : Fields → Validation
  pub handler : ℕ → Fields → Result Fields
  pub idempotent : Bool

-- `ToolInputError.from_validation_error`
abbrev pub input_result : Validation → Result Fields
input_result (valid request) = ok request
input_result (invalid items) = raise (gateway (tool_input_error items))

-- A result that the output model rejects raises pydantic's own error.
abbrev pub output_result : Validation → Result Fields
output_result (valid output) = ok output
output_result (invalid items) = raise (other "ValidationError")

infixl 5 ◌then◌
abbrev pub ◌then◌ {ℓ κ} : {A : Type ℓ} {B : Type κ} → Result A → (A → Result B) → Result B
ok a then f = f a
raise e then f = raise e
cut_off then f = cut_off

unfoldable pub validate : ToolDefinition → Fields → Result Fields
validate t arguments = input_result (t.input_model arguments)

unfoldable pub execute_validated : ToolDefinition → ℕ → Fields → Result Fields
execute_validated t tick request = t.handler tick request then λ r. output_result (t.output_model r)

unfoldable pub execute : ToolDefinition → ℕ → Fields → Result Fields
unfolding validate execute_validated
execute t tick arguments = validate t arguments then execute_validated t tick
