-- ===== src/Worker/Proxy.antt =====
-- `create_worker_proxy_registry` of gateway/workers/service.py: the gateway's registry, whose handlers
-- submit jobs. The client, the digest of arguments and the identifiers that `uuid4` draws are
-- parameters; the worker context is that of the call.
use mcp_gateway.Base.{
  ℕ, String, ◌<>◌, ◌≡◌, refl, ◌∙◌, ap, Option, none, some, arith, string_eq, if◌then◌else◌,
}
use mcp_gateway.Base.{List, [], ◌∷◌, ◌++◌, map, append-nil, append_assoc}
use mcp_gateway.Base.Dict.{Dict, lookup, insert, values}
use mcp_gateway.Base.Json.{Fields}
use mcp_gateway.Models.{RiskClass}
use mcp_gateway.Effect.{Result, ok, Exec, pure, ◌>>=◌, ◌>>◌}
use mcp_gateway.Registry.{ToolRegistry, register, list_tools, get, validate, execute_validated}
use mcp_gateway.Registry.Laws.{values-insert_new}
use mcp_gateway.Registry.Tool
use mcp_gateway.Registry.Tool.{ToolDefinition, ◌then◌, output_result}

pub record ClientCall : Type 0 where
  pub tool_name : String
  pub arguments : Fields
  pub risk_class : RiskClass
  pub call_id : String
  pub tenant_id : String
  pub idempotency_key : String

-- What a handler may draw or read.
pub record ProxyContext : Type 0 where
  pub client : ℕ → ClientCall → Result Fields
  pub context : Option (String × String)
  pub fresh : ℕ → String
  pub digest : Fields → String

-- `_idempotency_key`
unfoldable pub argument_key : ProxyContext → String → Fields → String
argument_key c tool_name arguments = tool_name <> ":" <> c.digest arguments

unfoldable pub proxy_call : ProxyContext → ToolDefinition → ℕ → Fields → ClientCall
unfolding argument_key
proxy_call c t tick arguments = elim c.context [
  | none ↦ record {
    tool_name = t.name;
    arguments = arguments;
    risk_class = t.risk_class;
    call_id = c.fresh tick;
    tenant_id = "worker-proxy";
    idempotency_key = argument_key c t.name arguments;
  }
  | some (call_id, tenant_id) ↦ record {
    tool_name = t.name;
    arguments = arguments;
    risk_class = t.risk_class;
    call_id = call_id;
    tenant_id = tenant_id;
    idempotency_key = call_id <> ":" <> t.name;
  }
]

unfoldable pub proxied : ProxyContext → ToolDefinition → ToolDefinition
unfolding proxy_call
proxied c t = record t { handler = λ tick arguments. c.client tick (proxy_call c t tick arguments) }

-- A loop of `register`.
abbrev pub register_all : List ToolDefinition → Exec ToolRegistry (Unit {0})
register_all [] = pure tt
register_all (t ∷ ts) = register t >> register_all ts

unfoldable pub create_proxy : ProxyContext → ToolRegistry → Result (Unit {0}) × ToolRegistry
unfolding proxied list_tools
create_proxy c source = register_all (map (proxied c) (list_tools source)) []

abbrev pub map_values {ℓ κ μ} :
    {K : Type ℓ} {V : Type κ} {W : Type μ} → (V → W) → Dict K V → Dict K W
map_values f [] = []
map_values f ((k, v) ∷ d) = (k, f v) ∷ map_values f d

lookup-map_values :
    (f : ToolDefinition → ToolDefinition) (k : String) (s : ToolRegistry)
    → lookup k (map_values f s) ≡ elim (lookup k s) [ none ↦ none | some t ↦ some (f t) ]
unfolding lookup
lookup-map_values f k [] = refl
lookup-map_values f k ((j, t) ∷ s) = ground (arith, lookup-map_values f k s)

insert-map_values :
    (f : ToolDefinition → ToolDefinition) (k : String) (t : ToolDefinition) (s : ToolRegistry)
    → insert k (f t) (map_values f s) ≡ map_values f (insert k t s)
unfolding insert
insert-map_values f k t [] = refl
insert-map_values f k t ((j, u) ∷ s) = ground (arith, insert-map_values f k t s)

first_ok :
    (t : ToolDefinition) (ts : List ToolDefinition) (s s' : ToolRegistry)
    → register_all (t ∷ ts) s ≡ (ok tt, s')
    → (lookup t.name s ≡ none) × (register_all ts (insert t.name t s) ≡ (ok tt, s'))
unfolding ◌>>=◌ register
first_ok t ts s s' h = ground arith

values-register_all :
    (ts : List ToolDefinition) (s s' : ToolRegistry)
    → register_all ts s ≡ (ok tt, s')
    → values s' ≡ values s ++ ts
unfolding pure
values-register_all [] s s' h = ground (arith, h, append-nil (values s))
values-register_all (t ∷ ts) s s' h =
    let (new, rest) = first_ok t ts s s' h in
    values-register_all ts (insert t.name t s) s' rest
    ∙ ap (λ l. l ++ ts) (values-insert_new s t.name t new)
    ∙ append_assoc (values s) (t ∷ []) ts

module _ (c : ProxyContext) where
  register_all-proxied :
      (ts : List ToolDefinition) (s s' : ToolRegistry)
      → register_all ts s ≡ (ok tt, s')
      → register_all (map (proxied c) ts) (map_values (proxied c) s)
        ≡ (ok tt, map_values (proxied c) s')
  unfolding pure ◌>>=◌ register proxied
  register_all-proxied [] s s' h = ground (arith, h)
  register_all-proxied (t ∷ ts) s s' h =
      let (new, rest) = first_ok t ts s s' h in
      ground (
        arith,
        new,
        lookup-map_values (proxied c) t.name s,
        insert-map_values (proxied c) t.name t s,
        register_all-proxied ts (insert t.name t s) s' rest,
      )

  -- The job for a request to a tool within a call: its key is of the call and the tool alone.
  abbrev pub job_within : String → String → ToolDefinition → Fields → ClientCall
  job_within call_id tenant_id t request = record {
    tool_name = t.name;
    arguments = request;
    risk_class = t.risk_class;
    call_id = call_id;
    tenant_id = tenant_id;
    idempotency_key = call_id <> ":" <> t.name;
  }

  -- The job outside of a call, with a fresh identifier: its key is of the tool and its arguments.
  abbrev pub job_outside : ℕ → ToolDefinition → Fields → ClientCall
  job_outside tick t request = record {
    tool_name = t.name;
    arguments = request;
    risk_class = t.risk_class;
    call_id = c.fresh tick;
    tenant_id = "worker-proxy";
    idempotency_key = t.name <> ":" <> c.digest request;
  }

  abbrev pub job_in : Option (String × String) → ℕ → ToolDefinition → Fields → ClientCall
  job_in (some (call_id, tenant_id)) tick t request = job_within call_id tenant_id t request
  job_in none tick t request = job_outside tick t request

  -- What the proxies' `execute_validated` is to do: the job goes to the client, and what it returns
  -- passes the output model.
  abbrev pub submitted : ToolRegistry → ℕ → String → Fields → Result Fields
  submitted s tick name request = get s name then λ t.
      c.client tick (job_in c.context tick t request) then λ r. output_result (t.output_model r)

  create_proxy-mapped :
      (ts : List ToolDefinition) (s : ToolRegistry)
      → register_all ts [] ≡ (ok tt, s)
      → create_proxy c s ≡ (ok tt, map_values (proxied c) s)
  unfolding create_proxy list_tools values
  create_proxy-mapped ts s h =
      ap (λ (l : List ToolDefinition). register_all (map (proxied c) l) [])
        (values-register_all ts [] s h)
      ∙ register_all-proxied ts [] s h

  -- The registry of proxies for any registered tools is built without an error; it validates every
  -- name and arguments as the registry of the tools does, and in place of running a tool it submits
  -- the validated request to the client and checks the output. Within a call, the job has the call's
  -- identifier and tenant and a key of the call and the tool alone, the same for each attempt; outside
  -- of one, it has a fresh identifier and a key of the tool and its arguments.
  pub create_proxy-faithful :
      (ts : List ToolDefinition) (s : ToolRegistry)
      → register_all ts [] ≡ (ok tt, s)
      → let (r, p) = create_proxy c s in
        (r ≡ ok tt)
        × ((name : String) (arguments : Fields)
            → validate p name arguments ≡ validate s name arguments)
        × ((tick : ℕ) (name : String) (request : Fields)
            → execute_validated p tick name request ≡ submitted s tick name request)
  unfolding validate execute_validated get proxied proxy_call argument_key Tool.validate
      Tool.execute_validated
  create_proxy-faithful ts s h =
      let e = create_proxy-mapped ts s h in
      (
        ap (λ (o : Result (Unit {0}) × ToolRegistry). o.0) e,
        λ name arguments. ground (arith, e, lookup-map_values (proxied c) name s),
        λ tick name request. ground (arith, e, lookup-map_values (proxied c) name s),
      )
