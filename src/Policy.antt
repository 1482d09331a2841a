-- ===== src/Policy.antt =====
-- gateway/policy/client.py and decisions.py: the policy client fails closed. OPA's answer is a
-- parameter, and so is Python's `str` of a JSON value.
use mcp_gateway.Base.{String, ◌≡◌, refl, true, Option, none, some, List, [], ◌∷◌}
use mcp_gateway.Base.{arith, contains, string_eq, if◌then◌else◌}
use mcp_gateway.Base.Json.{Json, null, bool, number, str, arr, obj, Fields, json_get}
use mcp_gateway.Models.{PolicyDecision}
use mcp_gateway.Errors.{gateway, other, policy_unavailable_error}
use mcp_gateway.Effect.{Result, ok, raise}

abbrev pub allow : String
allow = "allow"

abbrev pub requires_approval : String
requires_approval = "requires_approval"

abbrev pub deny : String
deny = "deny"

abbrev pub outcomes : List String
outcomes = allow ∷ requires_approval ∷ deny ∷ []

-- The request to OPA: an `httpx.HTTPError`, a body that is not JSON, or the JSON body of a response
-- whose status is a success.
pub data Answer : Type 0 where
  no_answer : Answer
  body : Json → Answer

abbrev unavailable : Result PolicyDecision
unavailable = raise (gateway policy_unavailable_error)

module _ (py_str : Json → String) where
  abbrev member_text : String → String → Fields → String
  member_text key default fs = elim (json_get key fs) [ none ↦ default | some v ↦ py_str v ]

  -- `if outcome not in {…}`: a list or an object cannot be hashed, which is a `TypeError`.
  abbrev decide : Fields → Option Json → Result PolicyDecision
  decide fs (some (str outcome)) =
      if contains outcomes outcome
      then ok (record {
        outcome = outcome;
        matched_rule = member_text "matched_rule" "unknown" fs;
        reason = member_text "reason" "" fs;
      })
      else unavailable
  decide fs (some (arr items)) = raise (other "TypeError")
  decide fs (some (obj members)) = raise (other "TypeError")
  decide fs _ = unavailable

  abbrev decide_result : Option Json → Result PolicyDecision
  decide_result (some (obj fs)) = decide fs (json_get "outcome" fs)
  decide_result _ = unavailable

  -- `OpaPolicyClient.evaluate`; a body that is no object has no `get`.
  unfoldable pub evaluate : Answer → Result PolicyDecision
  evaluate no_answer = unavailable
  evaluate (body (obj fs)) = decide_result (json_get "result" fs)
  evaluate (body _) = raise (other "AttributeError")

  -- OPA answered with an object whose `result` is an object with this known outcome.
  pub record Decided (answer : Answer) (d : PolicyDecision) : Type 0 where
    pub document : Fields
    pub members : Fields
    pub answered : answer ≡ body (obj document)
    pub result : json_get "result" document ≡ some (obj members)
    pub outcome : json_get "outcome" members ≡ some (str d.outcome)
    pub known : contains outcomes d.outcome ≡ true

  decide_known :
      (fs : Fields) (o : Option Json) (d : PolicyDecision)
      → decide fs o ≡ ok d
      → (o ≡ some (str d.outcome)) × (contains outcomes d.outcome ≡ true)
  decide_known fs (some (str t)) d h = ground arith
  decide_known fs none d h = absurd (cc h)
  decide_known fs (some null) d h = absurd (cc h)
  decide_known fs (some (bool b)) d h = absurd (cc h)
  decide_known fs (some (number n)) d h = absurd (cc h)
  decide_known fs (some (arr items)) d h = absurd (cc h)
  decide_known fs (some (obj members)) d h = absurd (cc h)

  decide_result_known :
      (document : Fields) (o : Option Json) (d : PolicyDecision)
      → json_get "result" document ≡ o
      → decide_result o ≡ ok d
      → Decided (body (obj document)) d
  decide_result_known document (some (obj members)) d e h =
      let (outcome, known) = decide_known members (json_get "outcome" members) d h in
      record {
        document = document;
        members = members;
        answered = refl;
        result = e;
        outcome = outcome;
        known = known;
      }
  decide_result_known document none d e h = absurd (cc h)
  decide_result_known document (some null) d e h = absurd (cc h)
  decide_result_known document (some (bool b)) d e h = absurd (cc h)
  decide_result_known document (some (number n)) d e h = absurd (cc h)
  decide_result_known document (some (str t)) d e h = absurd (cc h)
  decide_result_known document (some (arr items)) d e h = absurd (cc h)

  -- The client fails closed: it returns a decision only if OPA answered with an object whose
  -- `result` is an object with that outcome, one of the three known ones. Any other answer, and no
  -- answer, is an error.
  pub evaluate-Decided :
      (answer : Answer) (d : PolicyDecision) → evaluate answer ≡ ok d → Decided answer d
  unfolding evaluate
  evaluate-Decided no_answer d h = absurd (cc h)
  evaluate-Decided (body (obj fs)) d h = decide_result_known fs (json_get "result" fs) d refl h
  evaluate-Decided (body null) d h = absurd (cc h)
  evaluate-Decided (body (bool b)) d h = absurd (cc h)
  evaluate-Decided (body (number n)) d h = absurd (cc h)
  evaluate-Decided (body (str t)) d h = absurd (cc h)
  evaluate-Decided (body (arr items)) d h = absurd (cc h)
