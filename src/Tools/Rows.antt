-- ===== src/Tools/Rows.antt =====
-- The bound on the rows of gateway/tools/db_query.py.
use mcp_gateway.Base.{
  ℕ, zero, suc, min, String, ◌≡◌, refl, sym, ◌∙◌, ap, Bool, true, List, [], ◌∷◌, length, take, ltb,
  arith, if◌then◌else◌, string_eq, ◌⊎◌, inl, inr,
}
use mathlib.Core.Path.{subst}
use mcp_gateway.Base.Json.{Fields}
use mcp_gateway.Effect.{Result, ok, raise, cut_off}
use mcp_gateway.Registry.Tool.{◌then◌}
use mcp_gateway.Tools.DbQuery.{
  SqliteAction, read, select, function, recursive, savepoint, create_vtable, drop_vtable,
  alter_table, analyze, attach, create_index, create_table, create_temp_index, create_temp_table,
  create_temp_trigger, create_temp_view, create_trigger, create_view, delete, detach, drop_index,
  drop_table, drop_temp_index, drop_temp_table, drop_temp_trigger, drop_temp_view, drop_trigger,
  drop_view, insertion, pragma, reindex, transaction, update, sqlite_action_eq, SqlValue,
  QueryAnswer, rejected, no_rows, rows, DbQueryInput, DbQueryOutput, Row, normalize_row,
  normalize_rows, answered, execute_query, read_only_authorizer, query_output,
}
use mcp_gateway.Tools.Values.{AreRows, normalize_rows-AreRows}

length-take : {A : Type 0} (n : ℕ) (xs : List A) → length (take n xs) ≡ min n (length xs)
length-take zero xs = ground arith
length-take (suc n) [] = ground arith
length-take (suc n) (x ∷ xs) = ground (arith, length-take n xs)

take-take : {A : Type 0} (n : ℕ) (xs : List A) → take n (take (suc n) xs) ≡ take n xs
take-take zero xs = refl
take-take (suc n) [] = refl
take-take (suc n) (x ∷ xs) = ap (λ l. x ∷ l) (take-take n xs)

length_one_more :
    (r : Result Row) (rs : Result (List Row)) (visible : List Row) (n : ℕ)
    → ((more : List Row) → rs ≡ ok more → length more ≡ n)
    → (r then λ row. rs then λ more. ok (row ∷ more)) ≡ ok visible
    → length visible ≡ suc n
length_one_more (ok row) (ok more) visible n c h = ground (arith, h, c more refl)
length_one_more (ok row) (raise x) visible n c h = absurd (cc h)
length_one_more (ok row) cut_off visible n c h = absurd (cc h)
length_one_more (raise x) rs visible n c h = absurd (cc h)
length_one_more cut_off rs visible n c h = absurd (cc h)

length-normalize_rows :
    (repr : String → String) (columns : List String) (all : List (List SqlValue))
    (visible : List Row)
    → normalize_rows repr columns all ≡ ok visible
    → length visible ≡ length all
unfolding normalize_rows
length-normalize_rows repr columns [] visible h = ground (arith, h)
length-normalize_rows repr columns (values ∷ all) visible h =
    length_one_more (normalize_row repr columns values) (normalize_rows repr columns all) visible
      (length all) (length-normalize_rows repr columns all) h

-- The result has the first rows of the answer, at most as many as were asked for, and says whether
-- there were more.
pub record IsPage (n : ℕ) (columns : List String) (all : List (List SqlValue)) (out : DbQueryOutput)
    : Type 0 where
  pub columns_kept : out.columns ≡ columns
  pub first_rows : AreRows columns (take n all) out.rows
  pub counted : out.row_count ≡ min n (length all)
  pub truncated : out.truncated ≡ ltb n (length all)

page :
    (repr : String → String) (n : ℕ) (columns : List String) (all : List (List SqlValue))
    (out : DbQueryOutput)
    → query_output repr n columns (take (suc n) all) ≡ ok out
    → IsPage n columns all out
page repr n columns all out h = go _ refl h
  where
    rows_of :
        (visible : List Row)
        → ok (record {
          columns = columns;
          rows = visible;
          row_count = length visible;
          truncated = ltb n (length (take (suc n) all));
        })
          ≡ ok out
        → visible ≡ out.rows
    rows_of visible k = cc k

    go :
        (rs : Result (List Row))
        → normalize_rows repr columns (take n (take (suc n) all)) ≡ rs
        → (rs then λ visible. ok (record {
          columns = columns;
          rows = visible;
          row_count = length visible;
          truncated = ltb n (length (take (suc n) all));
        }))
          ≡ ok out
        → IsPage n columns all out
    go (ok visible) e k = record {
      columns_kept = cc k;
      first_rows = subst (AreRows columns (take n all)) (rows_of visible k) (
          normalize_rows-AreRows repr columns (take n all) visible
            (ap (normalize_rows repr columns) (sym (take-take n all)) ∙ e));
      counted = ground (
        arith,
        k,
        length-normalize_rows repr columns _ visible e,
        length-take n (take (suc n) all),
        length-take (suc n) all,
      );
      truncated = ground (arith, k, length-take (suc n) all);
    }
    go (raise x) e k = absurd (cc k)
    go cut_off e k = absurd (cc k)

paged :
    (repr : String → String) (n : ℕ) (a : QueryAnswer) (out : DbQueryOutput)
    → answered repr n a ≡ ok out
    → (columns : List String) × (all : List (List SqlValue)) × (a ≡ rows columns all)
      × IsPage n columns all out
paged repr n (rejected e) out h = absurd (cc h)
paged repr n no_rows out h = absurd (cc h)
paged repr n (rows columns all) out h = (columns, all, refl, page repr n columns all out h)

-- What the authorizer lets a statement do.
pub data IsPermitted : SqliteAction → Type 0 where
  reads : IsPermitted read
  selects : IsPermitted select
  calls : IsPermitted function
  recurs : IsPermitted recursive
  saves : IsPermitted savepoint
  creates_vtable : IsPermitted create_vtable
  drops_vtable : IsPermitted drop_vtable

denied_or_permitted :
    (action : SqliteAction) → (read_only_authorizer action ≡ true) ⊎ IsPermitted action
unfolding read_only_authorizer sqlite_action_eq
denied_or_permitted read = inr reads
denied_or_permitted select = inr selects
denied_or_permitted function = inr calls
denied_or_permitted recursive = inr recurs
denied_or_permitted savepoint = inr saves
denied_or_permitted create_vtable = inr creates_vtable
denied_or_permitted drop_vtable = inr drops_vtable
denied_or_permitted alter_table = inl refl
denied_or_permitted analyze = inl refl
denied_or_permitted attach = inl refl
denied_or_permitted create_index = inl refl
denied_or_permitted create_table = inl refl
denied_or_permitted create_temp_index = inl refl
denied_or_permitted create_temp_table = inl refl
denied_or_permitted create_temp_trigger = inl refl
denied_or_permitted create_temp_view = inl refl
denied_or_permitted create_trigger = inl refl
denied_or_permitted create_view = inl refl
denied_or_permitted delete = inl refl
denied_or_permitted detach = inl refl
denied_or_permitted drop_index = inl refl
denied_or_permitted drop_table = inl refl
denied_or_permitted drop_temp_index = inl refl
denied_or_permitted drop_temp_table = inl refl
denied_or_permitted drop_temp_trigger = inl refl
denied_or_permitted drop_temp_view = inl refl
denied_or_permitted drop_trigger = inl refl
denied_or_permitted drop_view = inl refl
denied_or_permitted insertion = inl refl
denied_or_permitted pragma = inl refl
denied_or_permitted reindex = inl refl
denied_or_permitted transaction = inl refl
denied_or_permitted update = inl refl

-- A query that returns has the columns and the first rows of what SQLite answered, at most `max_rows`
-- of them, each made of a scalar for each column, under each name the last; and `truncated` says
-- whether SQLite had more. SQLite was asked with an authorizer that denies every action but reading,
-- selecting, calling a function, recursion, a savepoint, and creating or dropping a virtual table.
pub execute_query-IsPage :
    (sqlite : String → (SqliteAction → Bool) → String → Fields → QueryAnswer)
    (repr : String → String) (path : String) (request : DbQueryInput) (out : DbQueryOutput)
    → execute_query sqlite repr path request ≡ ok out
    → (columns : List String) × (all : List (List SqlValue)) × (sqlite path read_only_authorizer
          request.query request.parameters
        ≡ rows columns all)
      × IsPage request.max_rows columns all out
      × ((action : SqliteAction) → (read_only_authorizer action ≡ true) ⊎ IsPermitted action)
unfolding execute_query
execute_query-IsPage sqlite repr path request out h =
    let (columns, all, e, page) = paged repr request.max_rows _ out h in
    (columns, all, e, page, denied_or_permitted)
