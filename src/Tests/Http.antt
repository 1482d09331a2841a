-- ===== src/Tests/Http.antt =====
-- Inputs for gateway/http_server.py: a request with a bearer token in the mode "static_token".
use mcp_gateway.Base.{String, ◌≡◌, refl, none, some, [], ◌∷◌, string_eq, nat_eq}
use mcp_gateway.Effect.{Exec, ok, finally}
use mcp_gateway.Http.{
  Scope, HttpState, Middleware, passes, authorization, header_value, check_credential, run_as,
  handle,
}
use mcp_gateway.Http.Admission.{Handled, handle-Handled, handle-current}

-- The application notes the principal that it is called for.
abbrev note : Exec (HttpState String) (Unit {0})
note s = elim s.current [
  | none ↦ (ok tt, record s { world = "nobody" })
  | some p ↦ (ok tt, record s { world = p.subject })
]

abbrev deny : Exec (HttpState String) (Unit {0})
deny s = (ok tt, record s { world = "401" })

abbrev middleware : Middleware String
middleware = record {
  app = note;
  send_unauthorized = deny;
  mode = "static_token";
  token = some "t0ken";
  oidc = none;
}

abbrev request : String → Scope
request value = record {
  scope_type = "http";
  path = some "/mcp";
  headers = ("Accept", "text/plain") ∷ ("Authorization", value) ∷ [];
}

abbrev idle : HttpState String
idle = record { current = none; keys = []; world = "" }

admitted :
    handle middleware 0 (request "BEARER t0ken") idle
    ≡ (ok tt, record idle { world = "static-local-user" })
unfolding handle passes authorization header_value check_credential run_as finally string_eq nat_eq
admitted = refl

denied : handle middleware 0 (request "Bearer other") idle ≡ (ok tt, record idle { world = "401" })
unfolding handle passes authorization header_value check_credential run_as finally string_eq nat_eq
denied = refl

handle-Handled_example :
    Handled middleware 0
      (request "Bearer t0ken")
      idle
      (handle middleware 0 (request "Bearer t0ken") idle)
handle-Handled_example = handle-Handled middleware 0 (request "Bearer t0ken") idle

handle-current_example : (handle middleware 0 (request "Bearer t0ken") idle).1.current ≡ none
unfolding handle passes authorization header_value check_credential run_as finally string_eq nat_eq
handle-current_example =
    handle-current middleware 0 (request "Bearer t0ken") idle (λ t. refl) refl refl
