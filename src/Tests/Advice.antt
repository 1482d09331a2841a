-- ===== src/Tests/Advice.antt =====
-- Inputs for gateway/repair/advisor.py: an answer in a Markdown fence.
use mcp_gateway.Base.{ℕ, ◌≡◌, refl, some, string_eq, nat_eq}
use mcp_gateway.Base.Json.{Json, str, arr, obj, nil, cons, Fields, field, end, json_get}
use mcp_gateway.Base.Text.{
  strip, strip_left, strip_right, split_lines, starts_with, ends_with, join,
}
use mcp_gateway.Models.{schema_mismatch, repair_failure_eq}
use mcp_gateway.Effect.{ok, reads, lift, ◌>>=◌}
use mcp_gateway.Repair.Diagnose.{FailureDiagnosis}
use mcp_gateway.Repair.Advisor.{
  JsonTexts, Endpoint, Exchange, ask_openai, repair_openai, openai_content, accepted,
  parse_arguments, normalized, is_fenced,
}
use mcp_gateway.Repair.Fences.{fence, normalized-fence}
use mcp_gateway.Repair.Advice.{IsAdvice, repair_openai-IsAdvice}

abbrev arguments : Fields
arguments = field "query" (str "SELECT 1") end

abbrev texts : JsonTexts
texts = record {
  dumps = λ v. "{}";
  loads = λ t. some (obj (field "arguments" (obj arguments) end));
}

abbrev endpoint : Endpoint
endpoint = record { url = "https://models.test"; model = "m"; api_key = "k" }

abbrev payload : Json
payload = obj (
    field "choices"
      (arr (
        cons
          (obj (
            field "message" (obj (field "content" (str (fence "json" "{\"arguments\":{}}")) end))
              end))
          nil))
      end)

abbrev exchange : Exchange ℕ
exchange url body headers n = (some payload, n)

abbrev mismatch : FailureDiagnosis
mismatch = record { category = schema_mismatch; message = "wrong" }

repaired : (repair_openai texts endpoint exchange "db_query" end end mismatch 0).0 ≡ ok arguments
unfolding repair_openai openai_content accepted parse_arguments reads lift ◌>>=◌ json_get
    repair_failure_eq string_eq
repaired = refl

repair_openai-IsAdvice_example :
    IsAdvice texts schema_mismatch (openai_content (some payload)) arguments
unfolding ask_openai
repair_openai-IsAdvice_example =
    repair_openai-IsAdvice texts endpoint exchange "db_query" end end arguments mismatch 0 repaired

bare : strip "{\"arguments\":{}}" ≡ "{\"arguments\":{}}"
unfolding strip strip_left strip_right string_eq nat_eq
bare = refl

normalized-fence_example : normalized (fence "json" "{\"arguments\":{}}") ≡ "{\"arguments\":{}}"
unfolding nat_eq
normalized-fence_example = normalized-fence "json" "{\"arguments\":{}}" refl refl bare

two_lines : normalized " ```\na\r\nb\n``` " ≡ "a\nb"
unfolding normalized is_fenced strip strip_left strip_right split_lines starts_with ends_with join
    string_eq nat_eq
two_lines = refl
