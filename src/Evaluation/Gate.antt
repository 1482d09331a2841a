-- ===== src/Evaluation/Gate.antt =====
-- eval/gate.py: the violations of a report. Python's `str`, the comparison of a number with the limit
-- and its message are parameters.
use mcp_gateway.Base.{
  String, ◌<>◌, Bool, true, false, Option, none, some, List, [], ◌∷◌, ◌++◌, ◌||◌, ◌&&◌, ◌==◌,
  string_eq, option_eq, not, if◌then◌else◌, is_some,
}
use mcp_gateway.Base.Json.{
  Json, bool, Items, nil, cons, Fields, json_get, as_str, as_obj, as_list, to_list,
}

-- `exceeds` is `float(v) > max_p95_ms`, or none where `float` raises; `excess` is the message for it.
pub record Numbers : Type 0 where
  pub py_str : Json → String
  pub exceeds : Json → Option Bool
  pub excess : Json → String

-- `str(result.get(key, default))`
abbrev pub text_member : Numbers → String → String → Fields → String
text_member n key default result = elim (json_get key result) [
  | none ↦ default
  | some v ↦ n.py_str v
]

-- `result.get("passed") is True`
abbrev pub has_passed : Option Json → Bool
has_passed (some (bool b)) = b
has_passed _ = false

abbrev pub observed_as : String → Fields → Bool
observed_as value result = as_str (json_get "observed" result) == some value

abbrev one_if : Bool → String → List String
one_if b message = if b then message ∷ [] else []

module _ (n : Numbers) where
  abbrev pub is_security : Fields → Bool
  is_security result =
      text_member n "category" "general" result == "adversarial"
      || text_member n "category" "general" result == "destructive"

  -- The body of the loop.
  unfoldable pub check_result : Option Fields → List String
  check_result none = "evaluation result is not an object" ∷ []
  check_result (some result) =
      let name = text_member n "name" "unknown" result in
      one_if (not (has_passed (json_get "passed" result))) ("scenario failed: " <> name)
      ++ one_if (is_security result && not (observed_as "blocked" result))
          ("security scenario was not blocked: " <> name)
      ++ one_if
          (text_member n "category" "general" result == "adversarial"
            && observed_as "succeeded" result)
          ("sandbox escape succeeded: " <> name)

  unfoldable pub check_results : List Json → List String
  unfolding check_result
  check_results [] = []
  check_results (item ∷ items) = check_result (as_obj (some item)) ++ check_results items

  abbrev pub exceeded : Json → Option Bool → List String
  exceeded v none = "latency_p95_ms is not numeric" ∷ []
  exceeded v (some b) = one_if b (n.excess v)

  abbrev pub check_latency : Bool → Option Fields → List String
  check_latency true (some metrics) = elim (json_get "latency_p95_ms" metrics) [
    | none ↦ "latency_p95_ms is missing" ∷ []
    | some v ↦ exceeded v (n.exceeds v)
  ]
  check_latency _ _ = []

  abbrev pub check_items : Bool → Option Fields → Option Items → List String
  check_items limited metrics none = "evaluation report contains no scenario results" ∷ []
  check_items limited metrics (some nil) = "evaluation report contains no scenario results" ∷ []
  check_items limited metrics (some (cons x xs)) =
      one_if (not (is_some metrics)) "evaluation report contains no metrics object"
      ++ check_results (x ∷ to_list xs)
      ++ check_latency limited metrics

  -- `validate_report`; `limited` is whether there is a limit.
  unfoldable pub validate_report : Bool → Fields → List String
  unfolding check_results
  validate_report limited report =
      check_items limited (as_obj (json_get "metrics" report)) (as_list (json_get "results" report))
