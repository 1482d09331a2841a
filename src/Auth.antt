-- ===== src/Auth.antt =====
-- gateway/auth.py: from a bearer token to a principal. PyJWT, the key set's endpoint and Python's
-- `str` of a JSON value are parameters.
pub mod Published
pub mod Claims
use mcp_gateway.Base.{ℕ, String, Bool, true, false, Option, none, some, List, [], ◌∷◌, leb, ◌&&◌}
use mcp_gateway.Base.{◌==◌, string_eq, if◌then◌else◌}
use mcp_gateway.Base.Dict.{Dict, lookup, insert}
use mcp_gateway.Base.Json.{Json, null, obj, Items, nil, cons, Fields, json_get}
use mcp_gateway.Base.Json.{as_str, as_list, to_list}
use mcp_gateway.Models.{Principal, Role}
use mcp_gateway.Errors.{gateway, other, authentication_error}
use mcp_gateway.Effect.{Result, ok, raise, cut_off, Exec}
use mcp_gateway.Registry.Tool.{◌then◌}

abbrev pub refused : {A : Type 0} → String → Result A
refused m = raise (gateway (authentication_error m))

-- What other code answers about a token: its unverified header, the claims that `jwt.decode`
-- verifies under a key, and the document of the key set. `none` is any of the exceptions that
-- `authenticate` turns into an `AuthenticationError`.
pub record Oidc : Type 0 where
  pub header : String → Option Fields
  pub decode : Fields → String → Option Fields
  pub key_set : ℕ → Option Json
  pub py_str : Json → String
  -- The number of characters of a text.
  pub count : String → ℕ

abbrev pub Keys : Type 0
Keys = Dict String Fields

-- The dictionary of the keys that have a text for `kid`; a later one replaces an earlier.
abbrev pub add_key : Json → Keys → Keys
add_key (obj item) keys = elim (as_str (json_get "kid" item)) [
  | none ↦ keys
  | some k ↦ insert k item keys
]
add_key _ keys = keys

unfoldable pub keys_of : List Json → Keys → Keys
keys_of [] keys = keys
keys_of (item ∷ items) keys = keys_of items (add_key item keys)

-- `document.get("keys") if isinstance(document, dict) else None`, if it is a list
abbrev key_list : Json → Option Items
key_list (obj document) = as_list (json_get "keys" document)
key_list _ = none

abbrev pub role_of : String → Option Role
role_of t =
    if t == "user"
    then some Role.user
    else if t == "operator"
    then some Role.operator
    else if t == "admin"
    then some Role.admin
    else none

module _ (o : Oidc) where
  abbrev pub refreshed : String → Keys → Result Fields × Keys
  refreshed key_id keys = (
    elim (lookup key_id keys) [
      | none ↦ refused "Token signing key was not found"
      | some key ↦ ok key
    ],
    keys,
  )

  abbrev pub fetched : String → Option Json → Exec Keys Fields
  fetched key_id none keys = (refused "Token validation failed", keys)
  fetched key_id (some document) keys = elim (key_list document) [
    | none ↦ (refused "OIDC JWKS response is invalid", keys)
    | some items ↦ refreshed key_id (keys_of (to_list items) [])
  ]

  -- `_get_key`, with what its caller makes of the endpoint's errors; `tick` numbers the requests.
  unfoldable pub get_key : ℕ → String → Exec Keys Fields
  unfolding keys_of
  get_key tick key_id keys = elim (lookup key_id keys) [
    | some key ↦ (ok key, keys)
    | none ↦ fetched key_id (o.key_set tick) keys
  ]

  abbrev pub parsed_roles : List Json → List Role
  parsed_roles [] = []
  parsed_roles (r ∷ rs) = elim (role_of (o.py_str r)) [
    | none ↦ parsed_roles rs
    | some role ↦ role ∷ parsed_roles rs
  ]

  -- `claims.get(key, default)`
  abbrev pub or_member : Option Json → Option Json → Option Json
  or_member none d = d
  or_member (some v) d = some v

  abbrev is_absent : Option Json → Bool
  is_absent none = true
  is_absent (some null) = true
  is_absent (some _) = false

  abbrev realm_roles : Option Json → Option Json
  realm_roles (some (obj realm)) = json_get "roles" realm
  realm_roles _ = none

  -- `roles`, from the claim or from `realm_access`
  unfoldable pub claimed_roles : Fields → Option Json
  claimed_roles claims =
      if is_absent (json_get "roles" claims)
      then realm_roles (json_get "realm_access" claims)
      else json_get "roles" claims

  abbrev pub in_length : String → Bool
  in_length t = leb 1 (o.count t) && leb (o.count t) 256

  -- The constructor of `Principal`, with the limits of its two required texts.
  unfoldable pub make_principal :
      String → String → List Role → Option String → Option String → Result Principal
  make_principal subject tenant_id roles issuer agent_id =
      if in_length subject && in_length tenant_id
      then ok (record {
        subject = subject;
        tenant_id = tenant_id;
        roles = roles;
        issuer = issuer;
        agent_id = agent_id;
      })
      else raise (other "ValidationError")

  abbrev pub py_text : Option Json → String
  py_text none = "None"
  py_text (some v) = o.py_str v

  -- `None` and a missing `agent_id` are both no agent.
  abbrev pub agent_text : Option Json → Option String
  agent_text none = none
  agent_text (some null) = none
  agent_text (some v) = some (o.py_str v)

  abbrev pub with_roles : Fields → String → String → List Role → Result Principal
  with_roles claims subject tenant_id [] = refused "Token contains an unsupported role"
  with_roles claims subject tenant_id (r ∷ rs) =
      make_principal subject tenant_id (r ∷ rs) (some (py_text (json_get "iss" claims)))
        (agent_text (json_get "agent_id" claims))

  abbrev pub with_identity : Fields → String → String → Option Items → Result Principal
  with_identity claims subject tenant_id none = refused "Token requires at least one role"
  with_identity claims subject tenant_id (some nil) = refused "Token requires at least one role"
  with_identity claims subject tenant_id (some (cons r rs)) =
      with_roles claims subject tenant_id (parsed_roles (r ∷ to_list rs))

  abbrev pub identified : Fields → Option String → Option String → Result Principal
  identified claims (some subject) (some tenant_id) =
      with_identity claims subject tenant_id (as_list (claimed_roles claims))
  identified claims _ _ = refused "Token requires sub and tenant_id claims"

  unfoldable pub principal_from_claims : Fields → Result Principal
  unfolding make_principal claimed_roles
  principal_from_claims claims =
      identified claims (as_str (json_get "sub" claims))
        (as_str (or_member (json_get "tenant_id" claims) (json_get "tenant" claims)))

  abbrev pub decoded : Option Fields → Result Principal
  decoded none = refused "Token validation failed"
  decoded (some claims) = principal_from_claims claims

  abbrev pub with_key : String → Result Fields → Exec Keys Principal
  with_key token (ok key) keys = (decoded (o.decode key token), keys)
  with_key token (raise e) keys = (raise e, keys)
  with_key token cut_off keys = (cut_off, keys)

  -- The algorithm and the key's name from the header.
  abbrev pub header_key : Fields → Option String
  header_key header = elim (as_str (json_get "alg" header)) [
    | none ↦ none
    | some alg ↦ if alg == "RS256" then as_str (json_get "kid" header) else none
  ]

  abbrev pub with_key_id : ℕ → String → Option String → Exec Keys Principal
  with_key_id tick token none keys = (refused "Token must use an RS256 key with kid", keys)
  with_key_id tick token (some key_id) keys =
      let (r, keys') = get_key tick key_id keys in with_key token r keys'

  abbrev pub with_header : ℕ → String → Option Fields → Exec Keys Principal
  with_header tick token none keys = (refused "Token validation failed", keys)
  with_header tick token (some header) keys = with_key_id tick token (header_key header) keys

  unfoldable pub authenticate : ℕ → String → Exec Keys Principal
  unfolding get_key principal_from_claims
  authenticate tick token keys = with_header tick token (o.header token) keys

-- `principal_from_static_token`
abbrev pub static_principal : Principal
static_principal = record {
  subject = "static-local-user";
  tenant_id = "local";
  roles = Role.admin ∷ [];
  issuer = some "local-static-token";
  agent_id = none;
}
