-- ===== src/Tests/Evaluation.antt =====
-- Inputs for eval: a report with one adversarial scenario that was blocked, and three counted results.
use mcp_gateway.Base.{String, ◌≡◌, refl, true, false, some, List, [], ◌∷◌, string_eq, option_eq}
use mcp_gateway.Base.Json.{Json, bool, str, arr, obj, nil, cons, Fields, field, end, json_get}
use mcp_gateway.Base.Dict.{lookup, insert}
use mcp_gateway.Evaluation.Gate.{Numbers, validate_report, check_results, check_result}
use mcp_gateway.Evaluation.Verdict.{IsReleasable, validate_report-IsReleasable}
use mcp_gateway.Evaluation.Breakdown.{ScenarioResult, category_breakdown, entry_of, breakdown_from}

abbrev text_of : Json → String
text_of (str t) = t
text_of _ = "?"

abbrev numbers : Numbers
numbers = record { py_str = text_of; exceeds = λ v. some false; excess = λ v. "slow" }

abbrev report : Fields
report = field "metrics" (obj (field "latency_p95_ms" (str "12") end)) (
    field "results"
      (arr (
        cons
          (obj (
            field "category" (str "adversarial")
              (field "passed" (bool true) (field "observed" (str "blocked") end))))
          nil))
      end)

no_violation : validate_report numbers true report ≡ []
unfolding validate_report check_results check_result json_get string_eq option_eq
no_violation = refl

escaped :
    check_results numbers (
      obj (
        field "category"
          (str "adversarial")
          (field "passed" (bool true) (field "observed" (str "succeeded") end)))
      ∷ [])
    ≡ "security scenario was not blocked: unknown" ∷ "sandbox escape succeeded: unknown" ∷ []
unfolding check_results check_result json_get string_eq option_eq
escaped = refl

validate_report-IsReleasable_example : IsReleasable numbers true report
validate_report-IsReleasable_example = validate_report-IsReleasable numbers true report no_violation

abbrev results : List ScenarioResult
results =
    record { category = "malformed"; passed = true }
    ∷ record { category = "happy"; passed = true }
    ∷ record { category = "malformed"; passed = false }
    ∷ []

two_malformed :
    entry_of "malformed" (category_breakdown results) ≡ record { count = 2; passed = 1; failed = 1 }
unfolding category_breakdown breakdown_from lookup insert string_eq
two_malformed = refl
