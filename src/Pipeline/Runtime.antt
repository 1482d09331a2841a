-- ===== src/Pipeline/Runtime.antt =====
-- gateway/server.py: the registry of the tools, the runtime that executes them, and how a tool is shown
-- to a client. The random secret and the text of a JSON value are parameters.
use mathlib.Core.Path.{subst}
use mcp_gateway.Base.{
  ℕ, String, ◌≡◌, refl, ◌∙◌, Bool, true, false, Option, none, some, [], ◌∷◌, ◌==◌, string_eq,
  if◌then◌else◌, arith, or_default,
}
use mcp_gateway.Base.Dict.{lookup, insert}
use mcp_gateway.Base.Json.{Json, obj, str, Fields, field, end}
use mcp_gateway.Models.{RiskClass, risk_class_eq, risk_value}
use mcp_gateway.Errors.{other}
use mcp_gateway.Effect.{Result, ok, raise, cut_off, pure, ◌>>=◌, ◌>>◌}
use mcp_gateway.Registry
use mcp_gateway.Registry.{ToolRegistry, register}
use mcp_gateway.Registry.Tool
use mcp_gateway.Registry.Tool.{ToolDefinition, ◌then◌}
use mcp_gateway.Tools.DbQuery.{
  DbQueryModels, DbQueryInput, DbQueryOutput, WorkerRunner, create_db_query_tool,
}
use mcp_gateway.Tools.ShellExec.{ShellModels, create_shell_exec_tool}
use mcp_gateway.Worker.Proxy.{ProxyContext, create_proxy, register_all, create_proxy-faithful}

-- What the tools are made of.
pub record ToolSettings : Type 0 where
  pub db : DbQueryModels
  pub query : ℕ → DbQueryInput → Result DbQueryOutput
  pub database_path : String
  pub shell : ShellModels

pub record RuntimeSettings : Type 0 where
  pub worker_mode : String
  pub worker_shared_secret : Option String
  pub worker_url : Option String

-- The registry that the gateway serves, that of the workers with their secret, if the gateway has
-- workers, and the secret of the remote client, if it has one.
pub record Runtime : Type 0 where
  pub registry : ToolRegistry
  pub workers : Option (ToolRegistry × String)
  pub remote_secret : Option String

pub record ToolAnnotations : Type 0 where
  pub read_only_hint : Bool
  pub destructive_hint : Bool
  pub idempotent_hint : Bool
  pub open_world_hint : Bool

unfoldable pub annotations_for : ToolDefinition → ToolAnnotations
annotations_for t =
    if t.risk_class == RiskClass.read_only
    then record {
      read_only_hint = true;
      destructive_hint = false;
      idempotent_hint = t.idempotent;
      open_world_hint = false;
    }
    else record {
      read_only_hint = false;
      destructive_hint = t.risk_class == RiskClass.destructive;
      idempotent_hint = false;
      open_world_hint = false;
    }

pub record McpTool : Type 0 where
  pub name : String
  pub description : String
  pub input_schema : Fields
  pub output_schema : Fields
  pub annotations : ToolAnnotations
  pub meta : Fields

unfoldable pub mcp_tool : ToolDefinition → McpTool
unfolding annotations_for
mcp_tool t = record {
  name = t.name;
  description = t.description;
  input_schema = t.input_schema;
  output_schema = t.output_schema;
  annotations = annotations_for t;
  meta = field "gateway/riskClass" (str (risk_value t.risk_class)) end;
}

pub record CallToolResult : Type 0 where
  pub text : String
  pub structured_content : Fields
  pub is_error : Bool

-- `_tool_result`
unfoldable pub tool_result : (Json → String) → Fields → Bool → CallToolResult
tool_result dumps payload is_error = record {
  text = dumps (obj payload);
  structured_content = payload;
  is_error = is_error;
}

module _ (t : ToolSettings) where
  abbrev pub db_tool : Option WorkerRunner → ToolDefinition
  db_tool runner = create_db_query_tool t.db t.query t.database_path runner

  abbrev pub shell_tool : Option WorkerRunner → ToolDefinition
  shell_tool runner = create_shell_exec_tool t.shell runner

  unfoldable pub create_registry : Option WorkerRunner → Result (Unit {0}) × ToolRegistry
  create_registry runner = (register (db_tool runner) >> register (shell_tool runner)) []

  module _ (remote local : ProxyContext) (random_secret : String) where
    abbrev served :
        Result (Unit {0}) × ToolRegistry
        → Option (ToolRegistry × String)
        → Option String
        → Result Runtime
    served (ok u, registry) workers secret =
        ok (record { registry = registry; workers = workers; remote_secret = secret })
    served (raise e, registry) workers secret = raise e
    served (cut_off, registry) workers secret = cut_off

    abbrev remote_runtime : Option String → Option String → Result Runtime
    remote_runtime (some secret) (some url) =
        served (create_proxy remote (create_registry none).1) none (some secret)
    remote_runtime _ _ = raise (other "ValueError")

    -- `remote` and `local` have the clients that the two modes make.
    unfoldable pub create_execution_runtime : RuntimeSettings → Option WorkerRunner → Result Runtime
    unfolding create_registry create_proxy
    create_execution_runtime settings runner =
        if settings.worker_mode == "in_process"
        then served (create_registry runner) none none
        else if settings.worker_mode == "remote"
        then remote_runtime settings.worker_shared_secret settings.worker_url
        else served (create_proxy local (create_registry runner).1)
            (some
              ((create_registry runner).1, or_default settings.worker_shared_secret random_secret))
            none

  create_registry_ok :
      (runner : Option WorkerRunner)
      → register_all (db_tool runner ∷ shell_tool runner ∷ []) []
        ≡ (ok tt, (create_registry runner).1)
  unfolding create_registry register pure ◌>>=◌ lookup insert create_db_query_tool
      create_shell_exec_tool string_eq
  create_registry_ok runner = refl

  create_registry-validate :
      (runner : Option WorkerRunner) (name : String) (arguments : Fields)
      → Registry.validate (create_registry runner).1 name arguments
        ≡ Registry.validate (create_registry none).1 name arguments
  unfolding Registry.validate Registry.get Tool.validate create_registry register pure ◌>>=◌ lookup
      insert create_db_query_tool create_shell_exec_tool string_eq
  create_registry-validate runner name arguments = ground arith

  -- The registry accepts the calls that the two tools accept.
  abbrev pub ServesTools : ToolRegistry → Type 0
  ServesTools s =
      (name : String) (arguments : Fields)
      → Registry.validate s name arguments
        ≡ Registry.validate (create_registry none).1 name arguments

  proxy-ServesTools :
      (c : ProxyContext) (runner : Option WorkerRunner)
      → ((create_proxy c (create_registry runner).1).0 ≡ ok tt)
        × ServesTools (create_proxy c (create_registry runner).1).1
  proxy-ServesTools c runner =
      let (built, validates, _) =
        create_proxy-faithful c (db_tool runner ∷ shell_tool runner ∷ []) _
          (create_registry_ok runner) in
      (
        built,
        λ name arguments. validates name arguments ∙ create_registry-validate runner name arguments,
      )

  module _ (remote local : ProxyContext) (random_secret : String) where
    the_registry :
        {registry : ToolRegistry} {workers : Option (ToolRegistry × String)}
        {secret : Option String} {rt : Runtime}
        → served remote local random_secret (ok tt, registry) workers secret ≡ ok rt
        → registry ≡ rt.registry
    the_registry h = cc h

    served-ServesTools :
        (o : Result (Unit {0}) × ToolRegistry) (workers : Option (ToolRegistry × String))
        (secret : Option String) (rt : Runtime)
        → ServesTools o.1
        → served remote local random_secret o workers secret ≡ ok rt
        → ServesTools rt.registry
    served-ServesTools (ok u, registry) workers secret rt v h = subst ServesTools (the_registry h) v
    served-ServesTools (raise e, registry) workers secret rt v h = absurd (cc h)
    served-ServesTools (cut_off, registry) workers secret rt v h = absurd (cc h)

    remote-ServesTools :
        (secret url : Option String) (rt : Runtime)
        → remote_runtime remote local random_secret secret url ≡ ok rt
        → ServesTools rt.registry
    remote-ServesTools (some secret) (some url) rt h =
        served-ServesTools _ none (some secret) rt (proxy-ServesTools remote none).1 h
    remote-ServesTools none url rt h = absurd (cc h)
    remote-ServesTools (some secret) none rt h = absurd (cc h)

    -- In each worker mode, the registry that the gateway serves accepts exactly the calls that the
    -- registry of the two tools accepts, with the same errors for the others: the proxies of the remote
    -- and the pooled mode change none of it.
    pub create_execution_runtime-ServesTools :
        (settings : RuntimeSettings) (runner : Option WorkerRunner) (rt : Runtime)
        → create_execution_runtime remote local random_secret settings runner ≡ ok rt
        → ServesTools rt.registry
    unfolding create_execution_runtime
    create_execution_runtime-ServesTools settings runner rt h = go _ _ h
      where
        go :
            (in_process is_remote : Bool)
            → (if in_process
                then served remote local random_secret (create_registry runner) none none
                else if is_remote
                then remote_runtime remote local random_secret settings.worker_shared_secret
                    settings.worker_url
                else served remote local random_secret
                    (create_proxy local (create_registry runner).1)
                    (some (
                      (create_registry runner).1,
                      or_default settings.worker_shared_secret random_secret,
                    ))
                    none)
              ≡ ok rt
            → ServesTools rt.registry
        go true is_remote k =
            served-ServesTools (create_registry runner) none none rt
              (create_registry-validate runner) k
        go false true k = remote-ServesTools settings.worker_shared_secret settings.worker_url rt k
        go false false k = served-ServesTools _ _ none rt (proxy-ServesTools local runner).1 k
