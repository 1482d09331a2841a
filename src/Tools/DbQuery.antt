-- ===== src/Tools/DbQuery.antt =====
-- gateway/tools/db_query.py: a bounded read-only query. What SQLite answers to a statement is a
-- parameter: an error, no result set, or one with its columns and rows; a row may hold any value of
-- SQLite's. Numbers are kept by their texts.
use mcp_gateway.Base.{
  ℕ, suc, String, ◌<>◌, Bool, true, Option, none, some, List, [], ◌∷◌, length, take, ltb, contains,
  Eq, string_eq, if◌then◌else◌,
}
use mcp_gateway.Base.Dict.{Dict, insert}
use mcp_gateway.Base.Json.{str, obj, Fields, field, end}
use mcp_gateway.Errors.{gateway, other, tool_execution_error}
use mcp_gateway.Effect.{Result, ok, raise}
use mcp_gateway.Models.{RiskClass}
use mcp_gateway.Registry.Tool.{ToolDefinition, Validation, valid, invalid, ◌then◌}
use mcp_gateway.Sandbox.Command.{SandboxProfile, Mount, profile_for_tool}

-- The codes that SQLite gives to an authorizer.
pub data SqliteAction : Type 0 where
  alter_table analyze attach : SqliteAction
  create_index create_table create_temp_index create_temp_table create_temp_trigger : SqliteAction
  create_temp_view create_trigger create_view delete detach : SqliteAction
  drop_index drop_table drop_temp_index drop_temp_table drop_temp_trigger : SqliteAction
  drop_temp_view drop_trigger drop_view insertion pragma reindex transaction update : SqliteAction
  read select function recursive savepoint create_vtable drop_vtable : SqliteAction

SqliteAction-discrete : Discrete SqliteAction
SqliteAction-discrete = hlevel

instance unfoldable pub sqlite_action_eq : Eq SqliteAction
unfolding SqliteAction-discrete
sqlite_action_eq = record { dec = SqliteAction-discrete }

abbrev pub write_actions : List SqliteAction
write_actions =
    alter_table ∷ analyze ∷ attach ∷ create_index ∷ create_table ∷ create_temp_index
    ∷ create_temp_table ∷ create_temp_trigger ∷ create_temp_view ∷ create_trigger ∷ create_view
    ∷ delete ∷ detach ∷ drop_index ∷ drop_table ∷ drop_temp_index ∷ drop_temp_table
    ∷ drop_temp_trigger ∷ drop_temp_view ∷ drop_trigger ∷ drop_view ∷ insertion ∷ pragma ∷ reindex
    ∷ transaction ∷ update ∷ []

-- Whether the action is denied.
unfoldable pub read_only_authorizer : SqliteAction → Bool
read_only_authorizer action = contains write_actions action

pub data SqlScalar : Type 0 where
  null : SqlScalar
  text integer real : String → SqlScalar

-- A value of SQLite: a scalar, or one of another type.
pub data SqlValue : Type 0 where
  scalar : SqlScalar → SqlValue
  blob : SqlValue

pub data QueryAnswer : Type 0 where
  rejected : String → QueryAnswer
  no_rows : QueryAnswer
  rows : List String → List (List SqlValue) → QueryAnswer

pub record DbQueryInput : Type 0 where
  pub query : String
  pub parameters : Fields
  pub max_rows : ℕ

abbrev pub Row : Type 0
Row = Dict String SqlScalar

pub record DbQueryOutput : Type 0 where
  pub columns : List String
  pub rows : List Row
  pub row_count : ℕ
  pub truncated : Bool

abbrev tool_failure : {A : Type 0} → String → Result A
tool_failure m = raise (gateway (tool_execution_error m))

-- The loop of `_normalize_row`, with Python's `repr` of a column's name.
unfoldable pub normalize_from : (String → String) → List String → List SqlValue → Row → Result Row
normalize_from repr [] [] row = ok row
normalize_from repr (column ∷ columns) (scalar value ∷ values) row =
    normalize_from repr columns values (insert column value row)
normalize_from repr (column ∷ columns) (blob ∷ values) row =
    tool_failure ("Column " <> repr column <> " returned an unsupported SQLite value type")
normalize_from repr _ _ row = raise (other "ValueError")

unfoldable pub normalize_row : (String → String) → List String → List SqlValue → Result Row
unfolding normalize_from
normalize_row repr columns values = normalize_from repr columns values []

unfoldable pub normalize_rows :
    (String → String) → List String → List (List SqlValue) → Result (List Row)
unfolding normalize_row
normalize_rows repr columns [] = ok []
normalize_rows repr columns (values ∷ rest) = normalize_row repr columns values then λ row.
    normalize_rows repr columns rest then λ rows. ok (row ∷ rows)

abbrev pub query_output :
    (String → String) → ℕ → List String → List (List SqlValue) → Result DbQueryOutput
query_output repr max_rows columns fetched =
    normalize_rows repr columns (take max_rows fetched) then λ visible. ok (record {
      columns = columns;
      rows = visible;
      row_count = length visible;
      truncated = ltb max_rows (length fetched);
    })

abbrev pub answered : (String → String) → ℕ → QueryAnswer → Result DbQueryOutput
answered repr max_rows (rejected e) = tool_failure ("SQLite rejected the query: " <> e)
answered repr max_rows no_rows = tool_failure "The SQL statement did not return rows"
answered repr max_rows (rows columns all_rows) =
    query_output repr max_rows columns (take (suc max_rows) all_rows)

-- `_execute_query`. The database is given the file's name, the authorizer, the statement and its
-- parameters, and opens the file read-only.
unfoldable pub execute_query :
    (String → (SqliteAction → Bool) → String → Fields → QueryAnswer)
    → (String → String)
    → String
    → DbQueryInput
    → Result DbQueryOutput
unfolding normalize_rows read_only_authorizer
execute_query sqlite repr path request =
    answered repr request.max_rows
      (sqlite path read_only_authorizer request.query request.parameters)

-- What pydantic makes of the tool's two models.
pub record DbQueryModels : Type 0 where
  pub input_schema : Fields
  pub output_schema : Fields
  pub input_model : Fields → Validation
  pub output_model : Fields → Validation
  pub read_input : Fields → DbQueryInput
  pub dump_output : DbQueryOutput → Fields

-- A runner's `run_worker`, whose answers may differ from call to call.
abbrev pub WorkerRunner : Type 0
WorkerRunner = ℕ → Fields → SandboxProfile → List Mount → Result Fields

abbrev pub model_result : Validation → Result Fields
model_result (valid output) = ok output
model_result (invalid items) = raise (other "ValidationError")

abbrev db_handler :
    DbQueryModels
    → (ℕ → DbQueryInput → Result DbQueryOutput)
    → String
    → Option WorkerRunner
    → ℕ
    → Fields
    → Result Fields
db_handler models query path none tick request =
    query tick (models.read_input request) then λ output. ok (models.dump_output output)
db_handler models query path (some run_worker) tick request =
    profile_for_tool "db_query" "."
    then (λ profile.
        run_worker tick
          (field "kind" (str "db_query") (
            field "database_path" (str "/data/gateway.sqlite") (field "request" (obj request) end)))
          profile
          (record { host_path = path; container_path = "/data/gateway.sqlite"; read_only = true }
            ∷ []))
    then λ result. model_result (models.output_model result)

-- `create_db_query_tool`; `query` is `query_database` on the file.
unfoldable pub create_db_query_tool :
    DbQueryModels
    → (ℕ → DbQueryInput → Result DbQueryOutput)
    → String
    → Option WorkerRunner
    → ToolDefinition
unfolding profile_for_tool
create_db_query_tool models query path runner = record {
  name = "db_query";
  description = "Run one read-only, parameterized query against synthetic orders";
  risk_class = RiskClass.read_only;
  input_schema = models.input_schema;
  output_schema = models.output_schema;
  input_model = models.input_model;
  output_model = models.output_model;
  handler = db_handler models query path runner;
  idempotent = true;
}
