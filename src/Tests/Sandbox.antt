-- ===== src/Tests/Sandbox.antt =====
-- Inputs for gateway/sandbox and gateway/tools: a command that prints a line, and a query with two rows
-- of which one is asked for.
use mcp_gateway.Base.{
  String, ◌≡◌, refl, ◌⊎◌, Bool, true, false, none, List, [], ◌∷◌, ◌++◌, string_eq, nat_eq,
}
use mcp_gateway.Base.Dict.{insert}
use mcp_gateway.Base.Json.{Fields, end}
use mcp_gateway.Effect.{ok, is_cut_off, finally}
use mcp_gateway.Sandbox.Command.{SandboxProfile, RunnerConfig, gvisor, docker_command}
use mcp_gateway.Sandbox.Runner.{
  Captured, exited, started, Docker, Processes, SandboxResult, run, communicate, check_output,
  clean_up,
}
use mcp_gateway.Sandbox.Lifecycle.{before_removal, removal, IsBounded, run-reaped, run-IsBounded}
use mcp_gateway.Tools.DbQuery.{
  SqliteAction, SqlValue, scalar, text, QueryAnswer, rows, DbQueryInput, DbQueryOutput,
  execute_query, normalize_rows, normalize_row, normalize_from, read_only_authorizer,
}
use mcp_gateway.Tools.Rows.{IsPage, IsPermitted, execute_query-IsPage}

abbrev profile : SandboxProfile
profile = record {
  name = "shell_exec";
  timeout = 5000000;
  memory = "128m";
  cpus = "0.5";
  pids_limit = 16;
  network = false;
  workspace = ".";
}

abbrev config : RunnerConfig
config = record {
  runtime = gvisor;
  image = "tool:local";
  output_limit = 10;
  digits = λ n. "16";
  resolve = λ p. p;
  cwd = "/srv";
}

abbrev printed : Captured
printed = record { size = 3; text = "ok\n" }

abbrev docker : Docker
docker = record {
  run = λ arguments stdin timeout. started (exited none printed (record { size = 0; text = "" }));
  removes = λ name. true;
  join = λ command. "echo ok";
  strip = λ t. t;
  dumps = λ fields. "";
  loads = λ t. none;
}

abbrev idle : Processes
idle = record { running = false; events = [] }

abbrev command : List String
command = "echo" ∷ "ok" ∷ []

abbrev output : SandboxResult
output = record { stdout = "ok\n"; stderr = "" }

printed_in_time : (run config docker "mcp-tool-1" command profile [] none idle).0 ≡ ok output
unfolding run communicate check_output clean_up finally
printed_in_time = refl

run-reaped_example :
    let (r, t) = run config docker "mcp-tool-1" command profile [] none idle in
    (is_cut_off r ≡ false)
    × (t.running ≡ false)
    × (t.events
        ≡ before_removal config docker "mcp-tool-1" command profile [] none idle
            (docker.run (docker_command config "mcp-tool-1" profile [] command) none 5000000)
          ++ removal config docker "mcp-tool-1" command profile [] none idle ∷ [])
run-reaped_example = run-reaped config docker "mcp-tool-1" command profile [] none idle refl

run-IsBounded_example : IsBounded config docker "mcp-tool-1" command profile [] none idle output
run-IsBounded_example =
    run-IsBounded config docker "mcp-tool-1" command profile [] none idle output printed_in_time

abbrev orders : String → (SqliteAction → Bool) → String → Fields → QueryAnswer
orders path denies query parameters =
    rows ("status" ∷ []) ((scalar (text "pending") ∷ []) ∷ (scalar (text "shipped") ∷ []) ∷ [])

abbrev query : DbQueryInput
query = record { query = "SELECT status FROM orders"; parameters = end; max_rows = 1 }

abbrev answer : DbQueryOutput
answer = record {
  columns = "status" ∷ [];
  rows = (("status", text "pending") ∷ []) ∷ [];
  row_count = 1;
  truncated = true;
}

abbrev quoted : String → String
quoted s = s

one_row : execute_query orders quoted "orders.sqlite" query ≡ ok answer
unfolding execute_query normalize_rows normalize_row normalize_from insert
one_row = refl

execute_query-IsPage_example :
    (columns : List String) × (all : List (List SqlValue)) × (orders "orders.sqlite"
        read_only_authorizer query.query query.parameters
      ≡ rows columns all)
    × IsPage 1 columns all answer
    × ((action : SqliteAction) → (read_only_authorizer action ≡ true) ⊎ IsPermitted action)
execute_query-IsPage_example =
    execute_query-IsPage orders quoted "orders.sqlite" query answer one_row
