-- ===== src/Repair/Advice.antt =====
-- What the advisors of gateway/repair/advisor.py let through.
use mcp_gateway.Base.{String, ◌≡◌, ◌≢◌, refl, Option, none, some, arith}
use mcp_gateway.Base.Json.{Json, null, bool, number, str, arr, obj, Fields, json_get, as_obj}
use mcp_gateway.Models.{RepairFailure, policy_denied, repair_failure_eq}
use mcp_gateway.Effect.{ok, reads, lift, ◌>>=◌}
use mcp_gateway.Repair.Diagnose.{FailureDiagnosis}
use mcp_gateway.Repair.Advisor.{
  JsonTexts, Endpoint, Exchange, arguments_of, parse_arguments, normalized, accepted,
  openai_content, ask_openai, repair_openai,
}

-- The arguments are those of a JSON object in the answer's text, and the failure is not a denial.
pub record IsAdvice (t : JsonTexts) (category : RepairFailure) (content : Option Json)
    (advice : Fields) : Type 0 where
  pub text : String
  pub decoded : Fields
  pub content_text : content ≡ some (str text)
  pub loaded : t.loads (normalized text) ≡ some (obj decoded)
  pub arguments : as_obj (json_get "arguments" decoded) ≡ some advice
  pub repairable : category ≢ policy_denied

decoded_object :
    (o : Option Json) (advice : Fields)
    → arguments_of o ≡ some advice
    → (decoded : Fields) × (o ≡ some (obj decoded))
      × (as_obj (json_get "arguments" decoded) ≡ some advice)
decoded_object (some (obj decoded)) advice h = (decoded, refl, h)
decoded_object none advice h = absurd (cc h)
decoded_object (some null) advice h = absurd (cc h)
decoded_object (some (bool b)) advice h = absurd (cc h)
decoded_object (some (number n)) advice h = absurd (cc h)
decoded_object (some (str s)) advice h = absurd (cc h)
decoded_object (some (arr xs)) advice h = absurd (cc h)

module _ (t : JsonTexts) (category : RepairFailure) (advice : Fields) where
  not_denied :
      (message : String) (parsed : Option Fields)
      → accepted message category parsed ≡ ok advice
      → (parsed ≡ some advice) × (category ≢ policy_denied)
  unfolding accepted
  not_denied message none h = absurd (cc h)
  not_denied message (some p) h = (ground (arith, h), λ e. ground (arith, h, e))

  advised :
      (message : String) (content : Option Json)
      → accepted message category (parse_arguments t content) ≡ ok advice
      → IsAdvice t category content advice
  unfolding parse_arguments
  advised message (some (str text)) h =
      let (parsed, fit) = not_denied message _ h in
      let (decoded, loaded, arguments) = decoded_object _ advice parsed in
      record {
        text = text;
        decoded = decoded;
        content_text = refl;
        loaded = loaded;
        arguments = arguments;
        repairable = fit;
      }
  advised message none h = absurd (cc (not_denied message none h).0)
  advised message (some null) h = absurd (cc (not_denied message none h).0)
  advised message (some (bool b)) h = absurd (cc (not_denied message none h).0)
  advised message (some (number n)) h = absurd (cc (not_denied message none h).0)
  advised message (some (obj fs)) h = absurd (cc (not_denied message none h).0)
  advised message (some (arr xs)) h = absurd (cc (not_denied message none h).0)

module _ {W : Type 0} (t : JsonTexts) (e : Endpoint) (exchange : Exchange W) (tool_name : String)
    (arguments tool_schema advice : Fields) (diagnosis : FailureDiagnosis) (w : W) where
  -- `LLMRepairAdvisor` returns arguments only if the model service answered with a text that, after the fence
  -- is taken off, is a JSON object whose `arguments` is that object; and never for a policy denial.
  pub repair_openai-IsAdvice :
      (repair_openai t e exchange tool_name arguments tool_schema diagnosis w).0 ≡ ok advice
      → let (payload, _) = ask_openai t e exchange tool_name arguments tool_schema diagnosis w in
        IsAdvice t diagnosis.category (openai_content payload) advice
  unfolding repair_openai ◌>>=◌ reads lift
  repair_openai-IsAdvice h = advised t diagnosis.category advice _ _ h
