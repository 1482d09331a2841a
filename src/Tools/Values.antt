-- ===== src/Tools/Values.antt =====
-- What gateway/tools/db_query.py makes of the rows that SQLite answers.
use mcp_gateway.Base.{
  suc, String, ◌≡◌, refl, ◌∙◌, ap, List, [], ◌∷◌, length, arith, if◌then◌else◌, Option, none, some,
  ◌==◌, string_eq, map,
}
use mathlib.Core.Path.{subst}
use mcp_gateway.Base.Dict.{lookup, insert, lookup-insert}
use mcp_gateway.Effect.{Result, ok, raise, cut_off}
use mcp_gateway.Registry.Tool.{◌then◌}
use mcp_gateway.Tools.DbQuery.{
  sqlite_action_eq, SqlScalar, scalar, blob, SqlValue, normalize_from, Row, normalize_row,
  normalize_rows,
}

result_ok : {A : Type 0} {x y : A} → ok x ≡ ok y → x ≡ y
result_ok h = cc h

-- The last scalar under a name, where the names and the scalars go side by side.
unfoldable pub last_value : String → List String → List SqlScalar → Option SqlScalar
last_value name (c ∷ cs) (v ∷ vs) =
    let later = last_value name cs vs in
    elim later [ some w ↦ some w | none ↦ if name == c then some v else none ]
last_value name _ _ = none

abbrev or_value : Option SqlScalar → Option SqlScalar → Option SqlScalar
or_value (some v) o = some v
or_value none o = o

-- The row is made of a scalar for each column, and has under each name the last of them.
pub record IsRow (columns : List String) (values : List SqlValue) (row : Row) : Type 0 where
  pub scalars : List SqlScalar
  pub all_scalar : values ≡ map scalar scalars
  pub one_each : length scalars ≡ length columns
  pub named : (name : String) → lookup name row ≡ last_value name columns scalars

pub data AreRows (columns : List String) : List (List SqlValue) → List Row → Type 0 where
  no_more : AreRows columns [] []
  next :
      {values : List SqlValue} {row : Row} {all : List (List SqlValue)} {rest : List Row}
      → IsRow columns values row
      → AreRows columns all rest
      → AreRows columns (values ∷ all) (row ∷ rest)

abbrev Normalized : List String → List SqlValue → Row → Row → Type 0
Normalized columns values start row =
    (scalars : List SqlScalar) × (values ≡ map scalar scalars)
    × (length scalars ≡ length columns)
    × ((name : String)
        → lookup name row ≡ or_value (last_value name columns scalars) (lookup name start))

one_more :
    (column : String) (columns : List String) (v : SqlScalar) (values : List SqlValue)
    (start row : Row)
    → Normalized columns values (insert column v start) row
    → Normalized (column ∷ columns) (scalar v ∷ values) start row
unfolding last_value
one_more column columns v values start row (vs, e, l, h) = (
  v ∷ vs,
  ap (λ l. scalar v ∷ l) e,
  ap suc l,
  λ name. ground (arith, h name, lookup-insert name column v start),
)

normalize_from-Normalized :
    (repr : String → String) (columns : List String) (values : List SqlValue) (start row : Row)
    → normalize_from repr columns values start ≡ ok row
    → Normalized columns values start row
unfolding normalize_from last_value
normalize_from-Normalized repr [] [] start row h = ([], refl, refl, λ name. ground (arith, h))
normalize_from-Normalized repr (c ∷ cs) (scalar v ∷ values) start row h =
    one_more c cs v values start row
      (normalize_from-Normalized repr cs values (insert c v start) row h)
normalize_from-Normalized repr (c ∷ cs) (blob ∷ values) start row h = absurd (cc h)
normalize_from-Normalized repr [] (v ∷ values) start row h = absurd (cc h)
normalize_from-Normalized repr (c ∷ cs) [] start row h = absurd (cc h)

or_none : (o : Option SqlScalar) → or_value o none ≡ o
or_none none = refl
or_none (some v) = refl

normalize_row-IsRow :
    (repr : String → String) (columns : List String) (values : List SqlValue) (row : Row)
    → normalize_row repr columns values ≡ ok row
    → IsRow columns values row
unfolding normalize_row lookup
normalize_row-IsRow repr columns values row h =
    let (vs, e, l, k) = normalize_from-Normalized repr columns values [] row h in
    record {
      scalars = vs;
      all_scalar = e;
      one_each = l;
      named = λ name. k name ∙ or_none (last_value name columns vs);
    }

next_row :
    (columns : List String) (values : List SqlValue) (all : List (List SqlValue)) (r : Result Row)
    (rs : Result (List Row)) (visible : List Row)
    → ((row : Row) → r ≡ ok row → IsRow columns values row)
    → ((more : List Row) → rs ≡ ok more → AreRows columns all more)
    → (r then λ row. rs then λ more. ok (row ∷ more)) ≡ ok visible
    → AreRows columns (values ∷ all) visible
next_row columns values all (ok row) (ok more) visible f g h =
    subst (AreRows columns (values ∷ all)) (result_ok h) (next (f row refl) (g more refl))
next_row columns values all (ok row) (raise x) visible f g h = absurd (cc h)
next_row columns values all (ok row) cut_off visible f g h = absurd (cc h)
next_row columns values all (raise x) rs visible f g h = absurd (cc h)
next_row columns values all cut_off rs visible f g h = absurd (cc h)

pub normalize_rows-AreRows :
    (repr : String → String) (columns : List String) (all : List (List SqlValue))
    (visible : List Row)
    → normalize_rows repr columns all ≡ ok visible
    → AreRows columns all visible
unfolding normalize_rows
normalize_rows-AreRows repr columns [] visible h = subst (AreRows columns []) (result_ok h) no_more
normalize_rows-AreRows repr columns (values ∷ all) visible h =
    next_row columns values all (normalize_row repr columns values)
      (normalize_rows repr columns all) visible (normalize_row-IsRow repr columns values)
      (normalize_rows-AreRows repr columns all) h
