-- ===== src/Tools/ShellExec.antt =====
-- gateway/tools/shell_exec.py: a shell command in a sandbox, or refused where there is none. Python's
-- `str` and `int` are parameters.
use mcp_gateway.Base.{ℕ, String, false, Option, none, some, []}
use mcp_gateway.Base.Json.{Json, str, number, Fields, field, end, json_get}
use mcp_gateway.Errors.{gateway, other, tool_not_enabled_error}
use mcp_gateway.Effect.{Result, ok, raise}
use mcp_gateway.Models.{RiskClass}
use mcp_gateway.Registry.Tool.{ToolDefinition, Validation, ◌then◌}
use mcp_gateway.Sandbox.Command.{profile_for_tool}
use mcp_gateway.Tools.DbQuery.{WorkerRunner}

-- `int` of a text is the number's text, or `ValueError`.
pub record ShellModels : Type 0 where
  pub input_schema : Fields
  pub output_schema : Fields
  pub input_model : Fields → Validation
  pub output_model : Fields → Validation
  pub read_command : Fields → String
  pub py_str : Json → String
  pub py_int : String → Option String

-- `shell_exec_disabled`
unfoldable pub shell_exec_disabled : Result Fields
shell_exec_disabled = raise (
    gateway
      (tool_not_enabled_error "shell_exec is not enabled until Phase 4 sandboxing is implemented"))

-- `result[key]`
abbrev member : String → Fields → Result Json
member key fields = elim (json_get key fields) [ none ↦ raise (other "KeyError") | some v ↦ ok v ]

abbrev to_int : Option String → Result String
to_int none = raise (other "ValueError")
to_int (some n) = ok n

unfoldable pub shell_output : ShellModels → Fields → Result Fields
shell_output models result =
    member "exit_code" result
    then (λ code. to_int (models.py_int (models.py_str code)))
    then λ exit_code. member "stdout" result then λ stdout. member "stderr" result then λ stderr.
        ok (
          field "exit_code" (number exit_code) (
            field "stdout" (str (models.py_str stdout))
              (field "stderr" (str (models.py_str stderr)) end)))

abbrev shell_handler : ShellModels → Option WorkerRunner → ℕ → Fields → Result Fields
shell_handler models none tick request = shell_exec_disabled
shell_handler models (some run_worker) tick request =
    profile_for_tool "shell_exec" "."
    then (λ profile.
        run_worker tick
          (field "kind" (str "shell_exec")
            (field "command" (str (models.read_command request)) end))
          profile [])
    then shell_output models

unfoldable pub create_shell_exec_tool : ShellModels → Option WorkerRunner → ToolDefinition
unfolding shell_exec_disabled shell_output profile_for_tool
create_shell_exec_tool models runner = record {
  name = "shell_exec";
  description = "Run a shell command inside an isolated sandbox";
  risk_class = RiskClass.destructive;
  input_schema = models.input_schema;
  output_schema = models.output_schema;
  input_model = models.input_model;
  output_model = models.output_model;
  handler = shell_handler models runner;
  idempotent = false;
}
