-- ===== src/Tools/Contained.antt =====
-- gateway/sandbox/worker.py: the program inside the container, which runs the two tools. A shell, the
-- database and pydantic's models are parameters; a number is kept by its text.
use mcp_gateway.Base.{String, Option, none, some, ◌==◌, string_eq, option_eq, if◌then◌else◌}
use mcp_gateway.Base.Json.{Json, number, str, Fields, field, end, json_get, as_str, as_obj}
use mcp_gateway.Errors.{other}
use mcp_gateway.Effect.{Result, ok, raise}
use mcp_gateway.Registry.Tool.{◌then◌}
use mcp_gateway.Tools.DbQuery.{DbQueryModels, DbQueryInput, DbQueryOutput, model_result}

-- A finished subprocess.
pub record Completed : Type 0 where
  pub returncode : String
  pub stdout : String
  pub stderr : String

abbrev pub completed_fields : Completed → Fields
completed_fields c =
    field "exit_code" (number c.returncode)
      (field "stdout" (str c.stdout) (field "stderr" (str c.stderr) end))

-- What the program runs: a shell on a command, and a query on the database at a path.
pub record ContainerTools : Type 0 where
  pub shell : Json → Completed
  pub query : String → DbQueryInput → Result DbQueryOutput
  pub py_str : Json → String

-- `payload[key]`
abbrev pub required : String → Fields → Result Json
required key payload = elim (json_get key payload) [
  | none ↦ raise (other "KeyError")
  | some v ↦ ok v
]

abbrev pub validated_request : DbQueryModels → Option Fields → Result Fields
validated_request models none = raise (other "ValidationError")
validated_request models (some request) = model_result (models.input_model request)

abbrev pub run_shell : ContainerTools → Fields → Result Fields
run_shell c payload =
    required "command" payload then λ command. ok (completed_fields (c.shell command))

abbrev pub run_query : DbQueryModels → ContainerTools → Fields → Result Fields
run_query models c payload =
    required "request" payload
    then (λ request. validated_request models (as_obj (some request)))
    then λ request. required "database_path" payload then λ path.
        c.query (c.py_str path) (models.read_input request) then λ output.
        ok (models.dump_output output)

-- `main`, from the payload on its input to the object on its output.
unfoldable pub main : DbQueryModels → ContainerTools → Fields → Result Fields
main models c payload = required "kind" payload then λ kind.
    if as_str (some kind) == some "shell_exec"
    then run_shell c payload
    else if as_str (some kind) == some "db_query"
    then run_query models c payload
    else raise (other "ValueError")
