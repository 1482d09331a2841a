-- ===== src/Evaluation/Breakdown.antt =====
-- eval/realistic.py: the counts by category. The rate of each entry, the quotient of its counts, is
-- left out, and a result is its category's text and whether it has passed.
use mcp_gateway.Base.{
  ℕ, suc, ◌+◌, String, ◌≡◌, Bool, true, false, List, [], ◌∷◌, arith, ◌==◌, string_eq, if◌then◌else◌,
  or_default, not, ◌&&◌,
}
use mcp_gateway.Base.Dict.{Dict, lookup, insert, lookup-insert}

pub record Entry : Type 0 where
  pub count : ℕ
  pub passed : ℕ
  pub failed : ℕ

pub record ScenarioResult : Type 0 where
  pub category : String
  pub passed : Bool

abbrev pub no_results : Entry
no_results = record { count = 0; passed = 0; failed = 0 }

abbrev pub counted : Bool → Entry → Entry
counted true e = record { count = suc e.count; passed = suc e.passed; failed = e.failed }
counted false e = record { count = suc e.count; passed = e.passed; failed = suc e.failed }

-- The loop, with `setdefault`.
unfoldable pub breakdown_from : List ScenarioResult → Dict String Entry → Dict String Entry
breakdown_from [] d = d
breakdown_from (r ∷ rs) d =
    breakdown_from rs
      (insert r.category (counted r.passed (or_default (lookup r.category d) no_results)) d)

unfoldable pub category_breakdown : List ScenarioResult → Dict String Entry
unfolding breakdown_from
category_breakdown rs = breakdown_from rs []

abbrev pub same_outcome : Bool → Bool → Bool
same_outcome true b = b
same_outcome false b = not b

-- How many results of a category have this outcome.
abbrev pub number_of : String → Bool → List ScenarioResult → ℕ
number_of category outcome [] = 0
number_of category outcome (r ∷ rs) =
    let rest = number_of category outcome rs in
    if category == r.category && same_outcome outcome r.passed then suc rest else rest

abbrev pub entry_of : String → Dict String Entry → Entry
entry_of category d = or_default (lookup category d) no_results

-- The counts of an entry grow by those of the results.
abbrev Grows : String → List ScenarioResult → Entry → Entry → Type 0
Grows category rs before after =
    (after.passed ≡ before.passed + number_of category true rs)
    × (after.failed ≡ before.failed + number_of category false rs)
    × (after.count ≡ before.count + (number_of category true rs + number_of category false rs))

breakdown_from-Grows :
    (category : String) (rs : List ScenarioResult) (d : Dict String Entry)
    → Grows category rs (entry_of category d) (entry_of category (breakdown_from rs d))
unfolding breakdown_from
breakdown_from-Grows category [] d = (omega arith, omega arith, omega arith)
breakdown_from-Grows category (r ∷ rs) d =
    let e = counted r.passed (entry_of r.category d) in
    let (p, f, c) = breakdown_from-Grows category rs (insert r.category e d) in
    let put = lookup-insert category r.category e d in
    (ground (arith, p, put), ground (arith, f, put), ground (arith, c, put))

-- The entry of a category counts its results that passed and those that failed, and `count` is all of
-- them; a category without results has no entry or an empty one.
category_breakdown-counts :
    (category : String) (rs : List ScenarioResult)
    → let e = entry_of category (category_breakdown rs) in
      (e.passed ≡ number_of category true rs)
      × (e.failed ≡ number_of category false rs)
      × (e.count ≡ e.passed + e.failed)
unfolding category_breakdown lookup
category_breakdown-counts category rs =
    let (p, f, c) = breakdown_from-Grows category rs [] in
    (ground (arith, p), ground (arith, f), ground (arith, p, f, c))
