-- ===== src/Evaluation/Verdict.antt =====
-- What a report without violations says, by eval/gate.py.
use mcp_gateway.Base.{
  ◌≡◌, ◌≢◌, refl, Bool, true, false, String, Bool-cases, inl, inr, ◌==◌, Option, none, some, List,
  [], ◌∷◌, ◌++◌, All, arith, ◌||◌, string_eq, option_eq, not,
}
use mcp_gateway.Base.Json.{
  Json, str, obj, bool, as_str, Items, nil, cons, Fields, json_get, as_obj, as_list, to_list,
}
use mcp_gateway.Evaluation.Gate.{
  Numbers, text_member, has_passed, observed_as, is_security, check_result, check_results,
  check_latency, check_items, validate_report,
}

append_empty : {A : Type 0} (xs ys : List A) → xs ++ ys ≡ [] → (xs ≡ []) × (ys ≡ [])
append_empty [] ys h = (refl, h)
append_empty (x ∷ xs) ys h = absurd (cc h)

module _ (n : Numbers) where
  -- The category of a result, where one that names none is general.
  pub data HasCategory (result : Fields) (category : String) : Type 0 where
    named :
        (v : Json)
        → json_get "category" result ≡ some v
        → n.py_str v ≡ category
        → HasCategory result category
    unnamed : json_get "category" result ≡ none → category ≡ "general" → HasCategory result category

  -- A scenario that was blocked, or one that tests no security.
  pub data IsBlocked (result : Fields) : Type 0 where
    blocked : json_get "observed" result ≡ some (str "blocked") → IsBlocked result
    harmless :
        (category : String)
        → HasCategory result category
        → category ≢ "adversarial"
        → category ≢ "destructive"
        → IsBlocked result

  -- The result is an object that has passed, and is of a scenario that was blocked if it tests security.
  pub record IsSafe (item : Json) : Type 0 where
    pub result : Fields
    pub object : item ≡ obj result
    pub passed : json_get "passed" result ≡ some (bool true)
    pub is_blocked : IsBlocked result

  passed_true : (o : Option Json) → has_passed o ≡ true → o ≡ some (bool true)
  passed_true o h = ground arith

  observed_text : (o : Option Json) → (as_str o == some "blocked") ≡ true → o ≡ some (str "blocked")
  observed_text o h = ground arith

  object_of : (item : Json) (r : Fields) → as_obj (some item) ≡ some r → item ≡ obj r
  object_of item r h = ground arith

  category_of :
      (result : Fields) (o : Option Json)
      → json_get "category" result ≡ o
      → HasCategory result (text_member n "category" "general" result)
  category_of result none e = unnamed e (ground (arith, e))
  category_of result (some v) e = named v e (ground (arith, e))

  is_security-IsBlocked :
      (result : Fields)
      → (not (is_security n result) || observed_as "blocked" result) ≡ true
      → IsBlocked result
  is_security-IsBlocked result h = elim (Bool-cases (observed_as "blocked" result)) [
    | inl seen ↦ blocked (observed_text _ seen)
    | inr unseen ↦
        harmless _ (category_of result _ refl) (λ e. ground (arith, e, h, unseen, string_eq))
          λ e. ground (arith, e, h, unseen)
  ]

  safe :
      (item : Json) (o : Option Fields)
      → as_obj (some item) ≡ o
      → check_result n o ≡ []
      → IsSafe item
  unfolding check_result
  safe item none e h = absurd (cc h)
  safe item (some r) e h = record {
    result = r;
    object = object_of item r e;
    passed = passed_true _ (ground (arith, h));
    is_blocked = is_security-IsBlocked r (ground (arith, h));
  }

  check_results-IsSafe : (items : List Json) → check_results n items ≡ [] → All IsSafe items
  unfolding check_results
  check_results-IsSafe [] h = tt
  check_results-IsSafe (item ∷ items) h =
      let (first, rest) = append_empty _ _ h in
      (safe item _ refl first, check_results-IsSafe items rest)

  -- Where there is a limit, the latency is there, is a number and does not exceed it.
  pub data IsFast (metrics : Fields) : Bool → Type 0 where
    unlimited : IsFast metrics false
    under_limit :
        (v : Json)
        → json_get "latency_p95_ms" metrics ≡ some v
        → n.exceeds v ≡ some false
        → IsFast metrics true

  check_latency-IsFast :
      (limited : Bool) (metrics : Fields) (o : Option Json)
      → json_get "latency_p95_ms" metrics ≡ o
      → check_latency n limited (some metrics) ≡ []
      → IsFast metrics limited
  check_latency-IsFast false metrics o e h = unlimited
  check_latency-IsFast true metrics none e h = absurd (ground (arith, e, h))
  check_latency-IsFast true metrics (some v) e h = under_limit v e (ground (arith, e, h))

  -- What a report without violations has.
  pub record IsReleasable (limited : Bool) (report : Fields) : Type 0 where
    pub first : Json
    pub others : Items
    pub metrics : Fields
    pub results : as_list (json_get "results" report) ≡ some (cons first others)
    pub measured : as_obj (json_get "metrics" report) ≡ some metrics
    pub all : All IsSafe (first ∷ to_list others)
    pub fast : IsFast metrics limited

  releasable :
      (limited : Bool) (report : Fields) (metrics : Option Fields) (items : Option Items)
      → as_obj (json_get "metrics" report) ≡ metrics
      → as_list (json_get "results" report) ≡ items
      → check_items n limited metrics items ≡ []
      → IsReleasable limited report
  releasable limited report metrics none m e h = absurd (cc h)
  releasable limited report metrics (some nil) m e h = absurd (cc h)
  releasable limited report none (some (cons x xs)) m e h = absurd (cc h)
  releasable limited report (some metrics) (some (cons x xs)) m e h =
      let (results, fast) = append_empty _ _ h in
      record {
        first = x;
        others = xs;
        metrics = metrics;
        results = e;
        measured = m;
        all = check_results-IsSafe (x ∷ to_list xs) results;
        fast = check_latency-IsFast limited metrics _ refl fast;
      }

  -- The gate fails closed: a report without violations has metrics and at least one result, each
  -- result is an object that has passed, and each one of an adversarial or destructive scenario was
  -- blocked; where there is a limit, the latency is there, is a number and does not exceed it.
  pub validate_report-IsReleasable :
      (limited : Bool) (report : Fields)
      → validate_report n limited report ≡ []
      → IsReleasable limited report
  unfolding validate_report
  validate_report-IsReleasable limited report h = releasable limited report _ _ refl refl h
