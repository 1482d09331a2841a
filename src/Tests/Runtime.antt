-- ===== src/Tests/Runtime.antt =====
-- Inputs for the runtime of gateway/server.py: the remote mode.
use mcp_gateway.Base.{String, ◌≡◌, refl, false, none, some, [], string_eq}
use mcp_gateway.Base.Dict.{lookup, insert, values}
use mcp_gateway.Base.Json.{Json, end}
use mcp_gateway.Effect.{ok, ◌>>=◌, pure}
use mcp_gateway.Registry.{register, list_tools}
use mcp_gateway.Registry.Tool.{valid}
use mcp_gateway.Tools.DbQuery.{DbQueryOutput, create_db_query_tool}
use mcp_gateway.Tools.ShellExec.{create_shell_exec_tool}
use mcp_gateway.Worker.Proxy.{ProxyContext, create_proxy, proxied}
use mcp_gateway.Pipeline.Runtime.{
  ToolSettings, RuntimeSettings, Runtime, ServesTools, create_registry, create_execution_runtime,
  create_execution_runtime-ServesTools,
}

abbrev nothing : DbQueryOutput
nothing = record { columns = []; rows = []; row_count = 0; truncated = false }

abbrev py_str : Json → String
py_str v = "?"

abbrev tools : ToolSettings
tools = record {
  db = record {
    input_schema = end;
    output_schema = end;
    input_model = valid;
    output_model = valid;
    read_input = λ request. record { query = ""; parameters = end; max_rows = 1 };
    dump_output = λ output. end;
  };
  query = λ tick request. ok nothing;
  database_path = "gateway.sqlite";
  shell = record {
    input_schema = end;
    output_schema = end;
    input_model = valid;
    output_model = valid;
    read_command = λ request. "";
    py_str = py_str;
    py_int = λ t. some "0";
  };
}

abbrev client : ProxyContext
client = record {
  client = λ tick c. ok c.arguments;
  context = none;
  fresh = λ tick. "call";
  digest = λ arguments. "digest";
}

abbrev settings : RuntimeSettings
settings = record {
  worker_mode = "remote";
  worker_shared_secret = some "secret";
  worker_url = some "http://worker";
}

abbrev runtime : Runtime
runtime = record {
  registry = (create_proxy client (create_registry tools none).1).1;
  workers = none;
  remote_secret = some "secret";
}

remote_mode : create_execution_runtime tools client client "random" settings none ≡ ok runtime
unfolding create_execution_runtime create_registry create_proxy proxied register list_tools values
    lookup insert create_db_query_tool create_shell_exec_tool string_eq ◌>>=◌ pure
remote_mode = refl

create_execution_runtime-ServesTools_example : ServesTools tools runtime.registry
create_execution_runtime-ServesTools_example =
    create_execution_runtime-ServesTools tools client client "random" settings none runtime
      remote_mode
