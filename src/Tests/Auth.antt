-- ===== src/Tests/Auth.antt =====
-- Inputs for gateway/auth.py: one token, whose key the endpoint has.
use mcp_gateway.Base.{String, ◌≡◌, refl, none, some, [], ◌∷◌, string_eq}
use mcp_gateway.Base.Dict.{lookup, insert}
use mcp_gateway.Base.Json.{Json, str, arr, obj, nil, cons, Fields, field, end, json_get}
use mcp_gateway.Models.{Principal, Role}
use mcp_gateway.Effect.{ok}
use mcp_gateway.Auth.{
  Oidc, Keys, authenticate, get_key, keys_of, principal_from_claims, make_principal, claimed_roles,
}
use mcp_gateway.Auth.Claims.{IsAuthentic, authenticate-IsAuthentic}

abbrev key : Fields
key = field "kid" (str "k-1") end

abbrev claims : Fields
claims = field "sub" (str "ann") (
    field "tenant_id" (str "acme")
      (field "iss" (str "issuer") (field "roles" (arr (cons (str "user") nil)) end)))

abbrev text_of : Json → String
text_of (str t) = t
text_of _ = "?"

abbrev provider : Oidc
provider = record {
  header = λ token. some (field "alg" (str "RS256") (field "kid" (str "k-1") end));
  decode = λ k token. some claims;
  key_set = λ tick. some (obj (field "keys" (arr (cons (obj key) nil)) end));
  py_str = text_of;
  count = λ t. 4;
}

abbrev ann : Principal
ann = record {
  subject = "ann";
  tenant_id = "acme";
  roles = Role.user ∷ [];
  issuer = some "issuer";
  agent_id = none;
}

abbrev fetched_keys : Keys
fetched_keys = ("k-1", key) ∷ []

authenticated : authenticate provider 0 "token" [] ≡ (ok ann, fetched_keys)
unfolding authenticate get_key keys_of principal_from_claims make_principal claimed_roles json_get
    lookup insert string_eq
authenticated = refl

authenticate-IsAuthentic_example : IsAuthentic provider 0 [] "token" ann
authenticate-IsAuthentic_example =
    authenticate-IsAuthentic provider 0 "token" [] fetched_keys ann authenticated
