-- ===== src/Http.antt =====
-- gateway/http_server.py: the authentication in front of the HTTP application. The application, what
-- sends a response, and the key set's endpoint are parameters; header values are Latin-1 texts.
pub mod Admission
use mcp_gateway.Base.{
  ℕ, String, Bool, ◌&&◌, ◌||◌, not, Option, none, some, List, [], ◌∷◌, contains, ◌==◌, string_eq,
  if◌then◌else◌, or_default,
}
use mcp_gateway.Base.Text.{same_lower, partition_space}
use mcp_gateway.Models.{Principal}
use mcp_gateway.Errors.{Exn, gateway, authentication_error}
use mcp_gateway.Effect.{Result, ok, raise, cut_off, Exec, throw, finally}
use mcp_gateway.Auth
use mcp_gateway.Auth.{Oidc, Keys, static_principal}

pub record Scope : Type 0 where
  pub scope_type : String
  pub path : Option String
  pub headers : List (String × String)

-- The context variable of the principal, the authenticator's keys, and all else.
pub record HttpState (W : Type 0) : Type 0 where
  pub current : Option Principal
  pub keys : Keys
  pub world : W

-- `headers.get(name)` of the dictionary of the headers under their names in lower case
unfoldable pub header_value : String → List (String × String) → Option String
header_value name [] = none
header_value name ((k, v) ∷ hs) = elim (header_value name hs) [
  | some later ↦ some later
  | none ↦ if same_lower k name then some v else none
]

abbrev probe_paths : List String
probe_paths = "/livez" ∷ "/readyz" ∷ "/startupz" ∷ []

abbrev pub is_probe : Option String → Bool
is_probe none = Bool.false
is_probe (some path) = contains probe_paths path

-- The scheme and the credential.
unfoldable pub authorization : Scope → String × String
unfolding header_value
authorization scope = partition_space (or_default (header_value "authorization" scope.headers) "")

abbrev pub is_bearer : String × String → Bool
is_bearer (scheme, credential) = same_lower scheme "bearer" && not (credential == "")

-- `AuthenticationMiddleware`, with the number of the request to the key set's endpoint.
pub record Middleware (W : Type 0) : Type 0 where
  pub app : Exec (HttpState W) (Unit {0})
  pub send_unauthorized : Exec (HttpState W) (Unit {0})
  pub mode : String
  pub token : Option String
  pub oidc : Option Oidc

abbrev refuse : {A : Type 0} → String → Result A
refuse m = raise (gateway (authentication_error m))

module _ {W : Type 0} (m : Middleware W) where
  unfoldable pub passes : Scope → Bool
  passes scope = not (scope.scope_type == "http") || is_probe scope.path || m.mode == "none"

  abbrev static_check : String → Option String → Result Principal
  static_check credential none = refuse "Bearer token is invalid"
  static_check credential (some token) =
      if credential == token then ok static_principal else refuse "Bearer token is invalid"

  abbrev pub oidc_check : ℕ → String → Option Oidc → Exec Keys Principal
  oidc_check tick credential none keys = (refuse "OIDC authentication is not configured", keys)
  oidc_check tick credential (some o) keys = Auth.authenticate o tick credential keys

  -- The body of the `try`.
  unfoldable pub check_credential : ℕ → String → Exec Keys Principal
  check_credential tick credential keys =
      if m.mode == "static_token"
      then (static_check credential m.token, keys)
      else if m.mode == "oidc"
      then oidc_check tick credential m.oidc keys
      else (refuse "HTTP authentication mode is invalid", keys)

  -- The application under a principal, with `reset_current_principal` in the `finally`.
  unfoldable pub run_as : Principal → Exec (HttpState W) (Unit {0})
  run_as p s = finally m.app (λ t. record t { current = s.current }) (record s { current = some p })

  abbrev pub admit : Result Principal → Exec (HttpState W) (Unit {0})
  admit (ok p) s = run_as p s
  admit (raise (gateway (authentication_error _))) s = m.send_unauthorized s
  admit (raise e) s = (raise e, s)
  admit cut_off s = (cut_off, s)

  abbrev pub authenticated : ℕ → String × String → Exec (HttpState W) (Unit {0})
  authenticated tick (scheme, credential) s =
      if is_bearer (scheme, credential)
      then (let (r, keys) = check_credential tick credential s.keys in
          admit r (record s { keys = keys }))
      else m.send_unauthorized s

  -- `__call__`
  unfoldable pub handle : ℕ → Scope → Exec (HttpState W) (Unit {0})
  unfolding passes authorization check_credential run_as
  handle tick scope s = if passes scope then m.app s else authenticated tick (authorization scope) s

-- `_health_response`, by its status code and its `status`
unfoldable pub health_response : String → ℕ × String
health_response status = (if status == "ok" then 200 else 503, status)

-- `readyz`: what each dependency's health check answers, where it has one.
unfoldable pub readyz : Option Bool → Option Bool → Option Bool → Option Bool → ℕ × String
unfolding health_response
readyz state_store policy control_plane worker = health_response (
    if or_default state_store Bool.true
      && or_default policy Bool.true
      && or_default control_plane Bool.true
      && or_default worker Bool.true
    then "ok"
    else "unready")
