-- ===== src/ControlPlane/Resolved.antt =====
-- Approvals in gateway/control_plane/repository.py are resolved once.
use mcp_gateway.Base.{
  ℕ, ◌+◌, ◌≤◌, String, ◌≡◌, refl, ◌∙◌, Bool, true, false, Option, none, some, List, [], ◌∷◌, arith,
  ◌==◌, string_eq, is_some, if◌then◌else◌, Bool-cases, inl, inr,
}
use mcp_gateway.Base.Dict.{lookup, insert, lookup-insert}
use mcp_gateway.Base.Json.{Fields}
use mcp_gateway.Models.{Principal, ToolCallRecord, ApprovalRequest}
use mcp_gateway.Effect.{Result, ok, raise, cut_off}
use mcp_gateway.ControlPlane.Rows.{ApprovalRow, Database, Engine, transaction, committed}
use mcp_gateway.ControlPlane.Repository.{
  upsert_tenant, upsert_principal, create_approval, resolve_approval, upsert_tool_call,
  put_idempotency_key, record_policy_version, set_configuration, resolve_row, approval_row,
  decided_row, finish_resolution,
}

-- The operations that write, each with what its engine does.
pub data Operation : Type 0 where
  tenant : ℕ → String → String → Operation
  principal : ℕ → Principal → Operation
  creation : ApprovalRequest → Option String → Operation
  resolution : String → String → String → String → ℕ → Operation
  tool_call : ToolCallRecord → Operation
  idempotency_key : ℕ → String → String → String → String → Operation
  policy_version : ℕ → String → String → Option String → Bool → Operation
  configuration : ℕ → String → Fields → ℕ → Operation

module _ (engine : Engine) where
  unfoldable pub perform : Operation → Database → Database
  unfolding upsert_tenant upsert_principal create_approval resolve_approval upsert_tool_call
      put_idempotency_key record_policy_version set_configuration
  perform (tenant now id name) s = (upsert_tenant engine now id name s).1
  perform (principal now p) s = (upsert_principal engine now p s).1
  perform (creation r tenant_id) s = (create_approval engine r tenant_id s).1
  perform (resolution id decision approver reason at) s =
      (resolve_approval engine id decision approver reason at s).1
  perform (tool_call r) s = (upsert_tool_call engine r s).1
  perform (idempotency_key now tenant_id key call_id status) s =
      (put_idempotency_key engine now tenant_id key call_id status s).1
  perform (policy_version now version hash uri signed) s =
      (record_policy_version engine now version hash uri signed s).1
  perform (configuration now key value version) s =
      (set_configuration engine now key value version s).1

abbrev is_true : Result Bool → Bool
is_true (ok b) = b
is_true (raise e) = false
is_true cut_off = false

-- Whether an operation resolves this approval.
unfoldable pub resolves : String → Engine → Operation → Database → Bool
unfolding resolve_approval
resolves id engine (resolution j decision approver reason at) s =
    if id == j then is_true (resolve_approval engine j decision approver reason at s).0 else false
resolves id engine _ s = false

abbrev pub one_if : Bool → ℕ
one_if true = 1
one_if false = 0

-- How often this approval is resolved.
unfoldable pub resolutions : String → List (Engine × Operation) → Database → ℕ
unfolding resolves perform
resolutions id [] s = 0
resolutions id ((engine, o) ∷ os) s =
    let rest = resolutions id os (perform engine o s) in one_if (resolves id engine o s) + rest

-- The approval has a decision.
unfoldable pub is_decided : String → Database → Bool
is_decided id s = elim (lookup id s.approvals) [ none ↦ false | some row ↦ is_some row.decision ]

module _ (id : String) (engine : Engine) where
  resolve_kept :
      (j decision approver reason : String) (at : ℕ) (s : Database) (row : Option ApprovalRow)
      → lookup j s.approvals ≡ row
      → is_decided id s ≡ true
      → let done =
          committed engine.fault s (resolve_row engine j decision approver reason at row s) in
        (lookup id done.1.approvals ≡ lookup id s.approvals)
        × ((if id == j then is_true done.0 else false) ≡ false)
  unfolding is_decided
  resolve_kept j decision approver reason at s none e h = (ground arith, ground arith)
  resolve_kept j decision approver reason at s (some row) e h = (
    ground
        (arith, e, h, lookup-insert id j (decided_row decision approver reason at row) s.approvals),
    ground (arith, e, h),
  )

  decided_kept :
      (o : Operation) (s : Database)
      → is_decided id s ≡ true
      → (lookup id (perform engine o s).approvals ≡ lookup id s.approvals)
        × (resolves id engine o s ≡ false)
  unfolding perform is_decided resolves upsert_tenant upsert_principal create_approval
      resolve_approval finish_resolution upsert_tool_call put_idempotency_key record_policy_version
      set_configuration transaction
  decided_kept (tenant now t name) s h = (ground arith, refl)
  decided_kept (principal now p) s h = (ground arith, refl)
  decided_kept (creation r tenant_id) s h = (
    ground (arith, h, lookup-insert id r.approval_id (approval_row r tenant_id) s.approvals),
    refl,
  )
  decided_kept (resolution j decision approver reason at) s h =
      resolve_kept j decision approver reason at s (lookup j s.approvals) refl h
  decided_kept (tool_call r) s h = (ground arith, refl)
  decided_kept (idempotency_key now tenant_id key call_id status) s h = (ground arith, refl)
  decided_kept (policy_version now version hash uri signed) s h = (ground arith, refl)
  decided_kept (configuration now key value version) s h = (ground arith, refl)

  resolve-decides :
      (j decision approver reason : String) (at : ℕ) (s : Database) (row : Option ApprovalRow)
      → lookup j s.approvals ≡ row
      → let done =
          committed engine.fault s (resolve_row engine j decision approver reason at row s) in
        (if id == j then is_true done.0 else false) ≡ true → is_decided id done.1 ≡ true
  unfolding is_decided
  resolve-decides j decision approver reason at s none e h = ground (arith, e, h)
  resolve-decides j decision approver reason at s (some row) e h =
      ground
        (arith, e, h, lookup-insert id j (decided_row decision approver reason at row) s.approvals)

  -- An operation that resolves an approval leaves it decided.
  resolves-decides :
      (o : Operation) (s : Database)
      → resolves id engine o s ≡ true
      → is_decided id (perform engine o s) ≡ true
  unfolding resolves perform resolve_approval finish_resolution transaction
  resolves-decides (resolution j decision approver reason at) s h =
      resolve-decides j decision approver reason at s (lookup j s.approvals) refl h
  resolves-decides o s h = absurd (cc h)

abbrev pub perform_all : List (Engine × Operation) → Database → Database
perform_all [] s = s
perform_all ((engine, o) ∷ os) s = perform_all os (perform engine o s)

still_decided :
    (id : String) (engine : Engine) (o : Operation) (s : Database)
    → is_decided id s ≡ true
    → is_decided id (perform engine o s) ≡ true
unfolding is_decided
still_decided id engine o s h = ground (arith, (decided_kept id engine o s h).0, h)

-- Whatever operations follow, an approval that has a decision keeps its row: the decision, who decided
-- it, why and when.
perform_all-decided :
    (id : String) (os : List (Engine × Operation)) (s : Database)
    → is_decided id s ≡ true
    → lookup id (perform_all os s).approvals ≡ lookup id s.approvals
perform_all-decided id [] s h = refl
perform_all-decided id ((engine, o) ∷ os) s h =
    perform_all-decided id os (perform engine o s) (still_decided id engine o s h)
    ∙ (decided_kept id engine o s h).0

resolutions-decided :
    (id : String) (os : List (Engine × Operation)) (s : Database)
    → is_decided id s ≡ true
    → resolutions id os s ≡ 0
unfolding resolutions
resolutions-decided id [] s h = refl
resolutions-decided id ((engine, o) ∷ os) s h = ground (
  arith,
  (decided_kept id engine o s h).1,
  resolutions-decided id os (perform engine o s) (still_decided id engine o s h),
)

-- Over any operations that run one after the other, also ones that fail or lose their connection,
-- `resolve_approval` returns true for one approval at most once: no other transaction commits between
-- its read of the row and its update.
pub resolutions-bound :
    (id : String) (os : List (Engine × Operation)) (s : Database) → resolutions id os s ≤ 1
unfolding resolutions
resolutions-bound id [] s = omega arith
resolutions-bound id ((engine, o) ∷ os) s = elim (Bool-cases (resolves id engine o s)) [
  | inl first ↦ ground (
    arith,
    first,
    resolutions-decided id os (perform engine o s) (resolves-decides id engine o s first),
  )
  | inr later ↦ ground (arith, later, resolutions-bound id os (perform engine o s))
]

-- Two resolutions that both read the row of an approval without a decision before either of them is
-- committed, and whose transactions do not fail, both return true, and the approval keeps only what the
-- later one wrote.
pub finish_resolution-twice :
    (first second : Engine) (id decision approver reason decision' approver' reason' : String)
    (at at' : ℕ) (s : Database) (row : ApprovalRow)
    → first.fault ≡ none
    → second.fault ≡ none
    → lookup id s.approvals ≡ some row
    → row.decision ≡ none
    → let (r, t) = finish_resolution first id decision approver reason at (some row) s in
      let (r', u) = finish_resolution second id decision' approver' reason' at' (some row) t in
      (r ≡ ok true)
      × (r' ≡ ok true)
      × (lookup id u.approvals
          ≡ some (record row {
            decision = some decision';
            approver = some approver';
            reason = some reason';
            decided_at = some at';
          }))
unfolding finish_resolution transaction
finish_resolution-twice first second id decision approver reason decision' approver' reason' at at'
      s row f g e n =
    let written = lookup-insert id id (decided_row decision approver reason at row) s.approvals in
    let once = decided_row decision approver reason at row in
    let rewritten =
      lookup-insert id id (decided_row decision' approver' reason' at' once)
        (insert id once s.approvals) in
    (
      ground (arith, f, e, n),
      ground (arith, f, g, e, n, written),
      ground (arith, f, g, e, n, written, rewritten),
    )
