-- ===== src/Http/Admission.antt =====
-- Who reaches the application behind the middleware of gateway/http_server.py.
use mcp_gateway.Base.{
  ℕ, String, ◌≡◌, refl, ap, sym, ◌∙◌, inl, inr, Bool, true, false, Option, none, some, Bool-cases,
  ◌==◌, string_eq, ==→eq, if◌then◌else◌, arith,
}
use mcp_gateway.Models.{Principal}
use mcp_gateway.Errors.{Exn, gateway, authentication_error}
use mcp_gateway.Effect.{Result, ok, raise, cut_off, finally, is_cut_off}
use mcp_gateway.Auth.{Oidc, Keys, static_principal}
use mcp_gateway.Auth.Claims.{IsAuthentic, authenticate-IsAuthentic}
use mcp_gateway.Http.{
  Scope, HttpState, Middleware, passes, authorization, is_bearer, check_credential, oidc_check,
  run_as, admit, authenticated, handle,
}

module _ {W : Type 0} (m : Middleware W) where
  -- The credential is the configured token, or a token that the provider's key of its name verifies.
  pub data IsCredential (tick : ℕ) (cache : Keys) (credential : String) (p : Principal)
      : Type 0 where
    static :
        m.mode ≡ "static_token"
        → m.token ≡ some credential
        → p ≡ static_principal
        → IsCredential tick cache credential p
    verified :
        (o : Oidc)
        → m.mode ≡ "oidc"
        → m.oidc ≡ some o
        → IsAuthentic o tick cache credential p
        → IsCredential tick cache credential p

  -- The ways that a request can go: through to the application without a check, to the application
  -- under the principal of its credential, to a response 401, or to an error of the authenticator that
  -- is not an `AuthenticationError`. On the last three, only the cached keys have changed before.
  pub data Handled (tick : ℕ) (scope : Scope) (s : HttpState W)
      (o : Result (Unit {0}) × HttpState W) : Type 0 where
    passed : passes m scope ≡ true → o ≡ m.app s → Handled tick scope s o
    admitted :
        (p : Principal) (keys : Keys)
        → is_bearer (authorization scope) ≡ true
        → IsCredential tick s.keys (authorization scope).1 p
        → o ≡ run_as m p (record s { keys = keys })
        → Handled tick scope s o
    unauthorized :
        (keys : Keys) → o ≡ m.send_unauthorized (record s { keys = keys }) → Handled tick scope s o
    failed :
        (keys : Keys) (e : Exn) → o ≡ (raise e, record s { keys = keys }) → Handled tick scope s o
    cut : (keys : Keys) → o ≡ (cut_off, record s { keys = keys }) → Handled tick scope s o

  oidc_ok :
      (tick : ℕ) (credential : String) (provider : Option Oidc) (keys keys' : Keys) (p : Principal)
      → m.mode ≡ "oidc"
      → m.oidc ≡ provider
      → oidc_check m tick credential provider keys ≡ (ok p, keys')
      → IsCredential tick keys credential p
  oidc_ok tick credential none keys keys' p e q h = absurd (cc h)
  oidc_ok tick credential (some o) keys keys' p e q h =
      verified o e q (authenticate-IsAuthentic o tick credential keys keys' p h)

  check_credential-IsCredential :
      (tick : ℕ) (credential : String) (keys keys' : Keys) (p : Principal)
      → check_credential m tick credential keys ≡ (ok p, keys')
      → IsCredential tick keys credential p
  unfolding check_credential
  check_credential-IsCredential tick credential keys keys' p h =
      elim (Bool-cases (m.mode == "static_token")) [
        | inl local ↦
            static (==→eq m.mode "static_token" local) (ground (arith, h, local))
              (ground (arith, h, local))
        | inr remote ↦ elim (Bool-cases (m.mode == "oidc")) [
          | inl oidc ↦
              oidc_ok tick credential m.oidc keys keys' p (==→eq m.mode "oidc" oidc) refl
                (ground (arith, h, remote, oidc))
          | inr neither ↦ absurd (ground (arith, h, remote, neither))
        ]
      ]

  admit-Handled :
      (tick : ℕ) (scope : Scope) (s : HttpState W) (r : Result Principal) (keys : Keys)
      → is_bearer (authorization scope) ≡ true
      → check_credential m tick (authorization scope).1 s.keys ≡ (r, keys)
      → Handled tick scope s (admit m r (record s { keys = keys }))
  admit-Handled tick scope s (ok p) keys b h =
      admitted p keys b (check_credential-IsCredential tick _ s.keys keys p h) refl
  admit-Handled tick scope s (raise (gateway (authentication_error t))) keys b h =
      unauthorized keys refl
  admit-Handled tick scope s (raise e) keys b h = failed keys e refl
  admit-Handled tick scope s cut_off keys b h = cut keys refl

  authenticated-Handled :
      (tick : ℕ) (scope : Scope) (s : HttpState W)
      → Handled tick scope s (authenticated m tick (authorization scope) s)
  authenticated-Handled tick scope s = go _ refl
    where
      go :
          (b : Bool)
          → is_bearer (authorization scope) ≡ b
          → Handled tick scope s (
              if b
              then (let (r, keys) = check_credential m tick (authorization scope).1 s.keys in
                  admit m r (record s { keys = keys }))
              else m.send_unauthorized s)
      go true e = admit-Handled tick scope s _ _ e refl
      go false e = unauthorized s.keys refl

  -- Whatever the configuration and the request, the middleware does one of these: it lets the request
  -- through, only for a scope that is not HTTP, a probe's path or the mode "none"; it runs the
  -- application under a principal, only for a bearer credential that is the configured token or a token
  -- that verifies under the key that it names, among the cached keys or in the document that the
  -- provider answers; or it does not run the application.
  pub handle-Handled :
      (tick : ℕ) (scope : Scope) (s : HttpState W) → Handled tick scope s (handle m tick scope s)
  unfolding handle
  handle-Handled tick scope s = go _ refl
    where
      go :
          (b : Bool)
          → passes m scope ≡ b
          → Handled tick scope s
              (if b then m.app s else authenticated m tick (authorization scope) s)
      go true e = passed e refl
      go false e = authenticated-Handled tick scope s

  run_as-current :
      (p : Principal) (s : HttpState W)
      → is_cut_off (run_as m p s).0 ≡ false
      → (run_as m p s).1.current ≡ s.current
  unfolding run_as finally
  run_as-current p s h = ground (arith, h)

  Handled-current :
      (tick : ℕ) (scope : Scope) (s : HttpState W) (o : Result (Unit {0}) × HttpState W)
      → ((t : HttpState W) → (m.send_unauthorized t).1.current ≡ t.current)
      → passes m scope ≡ false
      → is_cut_off o.0 ≡ false
      → Handled tick scope s o
      → o.1.current ≡ s.current
  Handled-current tick scope s o c n d (passed y e) = absurd (cc (y, n))
  Handled-current tick scope s o c n d (admitted p keys b i e) = cc (
    e,
    run_as-current p (record s { keys = keys })
        (ap (λ (x : Result (Unit {0}) × HttpState W). is_cut_off x.0) (sym e) ∙ d),
  )
  Handled-current tick scope s o c n d (unauthorized keys e) = cc (e, c (record s { keys = keys }))
  Handled-current tick scope s o c n d (failed keys x e) =
      ap (λ (x : Result (Unit {0}) × HttpState W). x.1.current) e
  Handled-current tick scope s o c n d (cut keys e) =
      ap (λ (x : Result (Unit {0}) × HttpState W). x.1.current) e

  pub handle-current :
      (tick : ℕ) (scope : Scope) (s : HttpState W)
      → ((t : HttpState W) → (m.send_unauthorized t).1.current ≡ t.current)
      → passes m scope ≡ false
      → is_cut_off (handle m tick scope s).0 ≡ false
      → (handle m tick scope s).1.current ≡ s.current
  handle-current tick scope s c n d =
      Handled-current tick scope s _ c n d (handle-Handled tick scope s)
