-- ===== src/Repair/Advisor.antt =====
-- gateway/repair/advisor.py: arguments from a model. The exchange over HTTP and the texts of JSON
-- values are parameters; the exchange gives the decoded payload, or nothing where the source catches
-- an `httpx.HTTPError` or an error of decoding.
use mcp_gateway.Base.{
  String, ◌<>◌, Bool, Option, none, some, List, [], ◌∷◌, ◌&&◌, ◌==◌, string_eq, if◌then◌else◌,
}
use mcp_gateway.Base.Json.{
  Json, number, str, arr, obj, nil, cons, Fields, field, end, json_get, as_obj,
}
use mcp_gateway.Base.Text.{strip, split_lines, starts_with, ends_with, join, inner}
use mcp_gateway.Models.{RepairFailure, repair_failure_eq}
use mcp_gateway.Models.{schema_mismatch, malformed_json, missing_required_field, type_coercion}
use mcp_gateway.Models.{timeout, sandbox_crash, policy_denied, tool_error}
use mcp_gateway.Errors.{other}
use mcp_gateway.Effect.{Result, ok, raise, Exec, reads, lift, ◌>>=◌}
use mcp_gateway.Repair.Diagnose.{FailureDiagnosis}

abbrev pub failure_value : RepairFailure → String
failure_value schema_mismatch = "schema_mismatch"
failure_value malformed_json = "malformed_json"
failure_value missing_required_field = "missing_required_field"
failure_value type_coercion = "type_coercion"
failure_value timeout = "timeout"
failure_value sandbox_crash = "sandbox_crash"
failure_value policy_denied = "policy_denied"
failure_value tool_error = "tool_error"

-- `json.dumps(value, sort_keys=True)`, and `json.loads` of a text that it accepts.
pub record JsonTexts : Type 0 where
  pub dumps : Json → String
  pub loads : String → Option Json

-- The address of a model service: who is asked, and with what.
pub record Endpoint : Type 0 where
  pub url : String
  pub model : String
  pub api_key : String

unfoldable pub is_fenced : String → Bool
unfolding starts_with ends_with
is_fenced text = starts_with text "```" && ends_with text "```"

-- `_parse_arguments` up to `json.loads`
unfoldable pub normalized : String → String
unfolding is_fenced strip split_lines join
normalized content =
    let text = strip content in
    if is_fenced text then strip (join "\n" (inner (split_lines text))) else text

abbrev pub arguments_of : Option Json → Option Fields
arguments_of (some (obj decoded)) = as_obj (json_get "arguments" decoded)
arguments_of _ = none

-- `_parse_arguments`: every failure is an exception that its callers catch.
unfoldable pub parse_arguments : JsonTexts → Option Json → Option Fields
unfolding normalized
parse_arguments t (some (str content)) = arguments_of (t.loads (normalized content))
parse_arguments t _ = none

-- `value[key]` and `value[0]`
abbrev pub at_key : String → Option Json → Option Json
at_key key (some (obj fields)) = json_get key fields
at_key key _ = none

abbrev pub at_zero : Option Json → Option Json
at_zero (some (arr (cons x xs))) = some x
at_zero _ = none

abbrev tool_contract : String → Fields → Fields
tool_contract tool_name prompt =
    if tool_name == "db_query"
    then field "tool_contract"
        (str (
          "Query only the orders table. Its columns are order_id, customer_name, customer_email, status, "
          <> "and total_cents. max_rows limits returned rows and must not be used as a SQL parameter."))
        prompt
    else prompt

-- The prompt; the order of its members is that of the sorted dump.
unfoldable pub prompt : String → Fields → Fields → FailureDiagnosis → String → Json
prompt tool_name arguments tool_schema diagnosis instruction = obj (
    tool_contract tool_name (
      field "tool_name" (str tool_name) (
        field "tool_schema" (obj tool_schema) (
          field "arguments" (obj arguments) (
            field "failure_category" (str (failure_value diagnosis.category)) (
              field "validation_error" (str diagnosis.message)
                (field "instruction" (str instruction) end)))))))

abbrev message_of : String → String → Json
message_of role content = obj (field "role" (str role) (field "content" (str content) end))

unfoldable pub openai_body : JsonTexts → Endpoint → Json → Fields
openai_body t e p = field "model" (str e.model) (
    field "temperature" (number "0") (
      field "response_format" (obj (field "type" (str "json_object") end)) (
        field "messages"
          (arr (
            cons
              (message_of "system"
                "Repair tool arguments without changing the requested operation.")
              (cons (message_of "user" (t.dumps p)) nil)))
          end)))

unfoldable pub anthropic_body : JsonTexts → Endpoint → String → Json → Fields
anthropic_body t e max_tokens p = field "model" (str e.model) (
    field "max_tokens" (number max_tokens) (
      field "temperature" (number "0") (
        field "system"
          (str
            "Repair tool arguments without changing the requested operation. Return valid JSON only.")
          (field "messages" (arr (cons (message_of "user" (t.dumps p)) nil)) end))))

unfoldable pub openai_content : Option Json → Option Json
openai_content payload = at_key "content" (at_key "message" (at_zero (at_key "choices" payload)))

unfoldable pub anthropic_content : Option Json → Option Json
anthropic_content payload = at_key "text" (at_zero (at_key "content" payload))

-- What both advisors end with.
unfoldable pub accepted : String → RepairFailure → Option Fields → Result Fields
accepted invalid category none = raise (other invalid)
accepted invalid category (some repaired) =
    if category == policy_denied
    then raise (other "Policy denials cannot be repaired")
    else ok repaired

-- A post of a body with headers to a URL.
abbrev pub Exchange : Type 0 → Type 0
Exchange W = String → Fields → List (String × String) → W → Option Json × W

module _ {W : Type 0} (t : JsonTexts) (e : Endpoint) (exchange : Exchange W) where
  -- The exchange of `LLMRepairAdvisor`.
  unfoldable pub ask_openai : String → Fields → Fields → FailureDiagnosis → W → Option Json × W
  unfolding openai_body prompt
  ask_openai tool_name arguments tool_schema diagnosis =
      exchange e.url
        (openai_body t e (
          prompt tool_name arguments tool_schema diagnosis
            "Return only a JSON object named arguments with corrected tool arguments."))
        (("Authorization", "Bearer " <> e.api_key) ∷ [])

  -- `LLMRepairAdvisor.repair`
  unfoldable pub repair_openai : String → Fields → Fields → FailureDiagnosis → Exec W Fields
  unfolding accepted parse_arguments openai_content ask_openai
  repair_openai tool_name arguments tool_schema diagnosis = do
    payload ← reads (ask_openai tool_name arguments tool_schema diagnosis)
    lift (
        accepted "The repair model returned an invalid response" diagnosis.category
          (parse_arguments t (openai_content payload)))

  -- `AnthropicRepairAdvisor.repair`
  unfoldable pub repair_anthropic :
      String → String → String → Fields → Fields → FailureDiagnosis → Exec W Fields
  unfolding accepted parse_arguments anthropic_content anthropic_body prompt
  repair_anthropic anthropic_version max_tokens tool_name arguments tool_schema diagnosis = do
    payload ← reads (
        exchange e.url
          (anthropic_body t e max_tokens (
            prompt tool_name arguments tool_schema diagnosis (
              "Return only a JSON object named arguments with corrected tool arguments. "
              <> "Do not change the requested operation.")))
          (("x-api-key", e.api_key)
            ∷ ("anthropic-version", anthropic_version)
            ∷ ("content-type", "application/json")
            ∷ []))
    lift (
        accepted "The Anthropic repair model returned an invalid response" diagnosis.category
          (parse_arguments t (anthropic_content payload)))
