-- ===== src/Auth/Claims.antt =====
-- What a principal that gateway/auth.py returns says of its token.
use mcp_gateway.Base.{ℕ, String, ◌≡◌, ◌≢◌, refl, ap, Option, none, some, List, [], ◌∷◌, arith}
use mcp_gateway.Base.{string_eq}
use mcp_gateway.Base.Json.{Fields, Items, nil, cons, json_get, as_str}
use mcp_gateway.Models.{Principal, Role}
use mcp_gateway.Effect.{Result, ok, raise, cut_off}
use mcp_gateway.Auth.{Oidc, Keys, authenticate, principal_from_claims, make_principal}
use mcp_gateway.Auth.{
  with_roles, with_identity, identified, decoded, with_key, header_key, with_key_id, with_header,
  or_member,
}
use mcp_gateway.Auth.Published.{IsPublished, get_key-IsPublished}

module _ (o : Oidc) where
  -- The claims name the principal, and at least one role.
  pub record IsClaimed (claims : Fields) (p : Principal) : Type 0 where
    pub subject : as_str (json_get "sub" claims) ≡ some p.subject
    pub tenant :
        as_str (or_member o (json_get "tenant_id" claims) (json_get "tenant" claims))
        ≡ some p.tenant_id
    pub role : p.roles ≢ []

  -- The token's header asks for RS256 and names a key, and that key of the provider verifies its claims.
  pub record IsAuthentic (tick : ℕ) (keys : Keys) (token : String) (p : Principal) : Type 0 where
    pub header : Fields
    pub key_id : String
    pub key : Fields
    pub claims : Fields
    pub header_read : o.header token ≡ some header
    pub algorithm : as_str (json_get "alg" header) ≡ some "RS256"
    pub named : as_str (json_get "kid" header) ≡ some key_id
    pub published : IsPublished o tick keys key_id key
    pub verified : o.decode key token ≡ some claims
    pub claimed : IsClaimed claims p

  made :
      (subject tenant : String) (roles : List Role) (issuer agent : Option String) (p : Principal)
      → make_principal o subject tenant roles issuer agent ≡ ok p
      → (subject ≡ p.subject) × (tenant ≡ p.tenant_id) × (roles ≡ p.roles)
  unfolding make_principal
  made subject tenant roles issuer agent p h = ground arith

  with_roles_ok :
      (claims : Fields) (subject tenant : String) (roles : List Role) (p : Principal)
      → with_roles o claims subject tenant roles ≡ ok p
      → (subject ≡ p.subject) × (tenant ≡ p.tenant_id) × (p.roles ≢ [])
  with_roles_ok claims subject tenant [] p h = absurd (cc h)
  with_roles_ok claims subject tenant (r ∷ rs) p h =
      let (s, t, roles) = made subject tenant (r ∷ rs) _ _ p h in (s, t, λ e. cc (roles, e))

  with_identity_ok :
      (claims : Fields) (subject tenant : String) (items : Option Items) (p : Principal)
      → with_identity o claims subject tenant items ≡ ok p
      → (subject ≡ p.subject) × (tenant ≡ p.tenant_id) × (p.roles ≢ [])
  with_identity_ok claims subject tenant none p h = absurd (cc h)
  with_identity_ok claims subject tenant (some nil) p h = absurd (cc h)
  with_identity_ok claims subject tenant (some (cons r rs)) p h =
      with_roles_ok claims subject tenant _ p h

  identified_ok :
      (claims : Fields) (subject tenant : Option String) (p : Principal)
      → identified o claims subject tenant ≡ ok p
      → (subject ≡ some p.subject) × (tenant ≡ some p.tenant_id) × (p.roles ≢ [])
  identified_ok claims (some subject) (some tenant) p h =
      let (s, t, roles) = with_identity_ok claims subject tenant _ p h in
      (ap some s, ap some t, roles)
  identified_ok claims (some subject) none p h = absurd (cc h)
  identified_ok claims none tenant p h = absurd (cc h)

  principal_from_claims-IsClaimed :
      (claims : Fields) (p : Principal) → principal_from_claims o claims ≡ ok p → IsClaimed claims p
  unfolding principal_from_claims
  principal_from_claims-IsClaimed claims p h =
      let (s, t, roles) = identified_ok claims _ _ p h in
      record { subject = s; tenant = t; role = roles }

  name_of :
      (header : Fields) (key_id : String)
      → header_key o header ≡ some key_id
      → as_str (json_get "kid" header) ≡ some key_id
  name_of header key_id h = ground arith

  algorithm_of :
      (header : Fields) (key_id : String)
      → header_key o header ≡ some key_id
      → as_str (json_get "alg" header) ≡ some "RS256"
  algorithm_of header key_id h = ground arith

  decoded_ok :
      (tick : ℕ) (token key_id : String) (header key : Fields) (keys : Keys) (c : Option Fields)
      (p : Principal)
      → o.header token ≡ some header
      → header_key o header ≡ some key_id
      → IsPublished o tick keys key_id key
      → o.decode key token ≡ c
      → decoded o c ≡ ok p
      → IsAuthentic tick keys token p
  decoded_ok tick token key_id header key keys none p e a i d h = absurd (cc h)
  decoded_ok tick token key_id header key keys (some claims) p e a i d h = record {
    header = header;
    key_id = key_id;
    key = key;
    claims = claims;
    header_read = e;
    algorithm = algorithm_of header key_id a;
    named = name_of header key_id a;
    published = i;
    verified = d;
    claimed = principal_from_claims-IsClaimed claims p h;
  }

  with_key_ok :
      (tick : ℕ) (token key_id : String) (header : Fields) (r : Result Fields)
      (keys kept keys' : Keys) (p : Principal)
      → o.header token ≡ some header
      → header_key o header ≡ some key_id
      → ((key : Fields) → r ≡ ok key → IsPublished o tick keys key_id key)
      → with_key o token r kept ≡ (ok p, keys')
      → IsAuthentic tick keys token p
  with_key_ok tick token key_id header (ok key) keys kept keys' p e a i h =
      decoded_ok tick token key_id header key keys _ p e a (i key refl) refl
        (ap (λ (x : Result Principal × Keys). x.0) h)
  with_key_ok tick token key_id header (raise x) keys kept keys' p e a i h = absurd (cc h)
  with_key_ok tick token key_id header cut_off keys kept keys' p e a i h = absurd (cc h)

  with_key_id_ok :
      (tick : ℕ) (token : String) (header : Fields) (k : Option String) (keys keys' : Keys)
      (p : Principal)
      → o.header token ≡ some header
      → header_key o header ≡ k
      → with_key_id o tick token k keys ≡ (ok p, keys')
      → IsAuthentic tick keys token p
  with_key_id_ok tick token header none keys keys' p e k h = absurd (cc h)
  with_key_id_ok tick token header (some key_id) keys keys' p e k h =
      with_key_ok tick token key_id header _ keys _ keys' p e k
        (get_key-IsPublished o tick key_id keys) h

  with_header_ok :
      (tick : ℕ) (token : String) (header : Option Fields) (keys keys' : Keys) (p : Principal)
      → o.header token ≡ header
      → with_header o tick token header keys ≡ (ok p, keys')
      → IsAuthentic tick keys token p
  with_header_ok tick token none keys keys' p e h = absurd (cc h)
  with_header_ok tick token (some header) keys keys' p e h =
      with_key_id_ok tick token header _ keys keys' p e refl h

  -- `authenticate` returns a principal only for a token whose header asks for RS256 and whose claims
  -- verify under the key that the header names, which is one of the cached keys or is in the document
  -- that the provider answers; the principal's subject and tenant are those of the claims, and it has
  -- at least one role.
  pub authenticate-IsAuthentic :
      (tick : ℕ) (token : String) (keys keys' : Keys) (p : Principal)
      → authenticate o tick token keys ≡ (ok p, keys')
      → IsAuthentic tick keys token p
  unfolding authenticate
  authenticate-IsAuthentic tick token keys keys' p h =
      with_header_ok tick token _ keys keys' p refl h
