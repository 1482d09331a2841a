-- ===== src/ControlPlane/Rows.antt =====
-- gateway/control_plane/models.py: the tables, with their keys, and SQLAlchemy's sessions over them.
-- The generated numbers of principals and attempts are left out: the source reads neither.
use mcp_gateway.Base.{
  ℕ, String, Bool, true, Option, none, some, List, [], ◌∷◌, ◌&&◌, ◌||◌, string_eq, nat_eq, pair_eq,
  not, map, contains,
}
use mcp_gateway.Base.Dict.{Dict, has_key}
use mcp_gateway.Base.Json.{Fields}
use mcp_gateway.Errors.{Exn, other}
use mcp_gateway.Effect.{Result, ok, raise, cut_off, Exec}

pub record TenantRow : Type 0 where
  pub name : String
  pub created_at : ℕ

pub record PrincipalRow : Type 0 where
  pub roles : List String
  pub issuer : Option String
  pub agent_id : Option String
  pub created_at : ℕ

pub record ToolCallRow : Type 0 where
  pub trace_id : String
  pub session_id : String
  pub tenant_id : Option String
  pub subject : Option String
  pub tool_name : String
  pub risk_class : Option String
  pub arguments : Fields
  pub current_state : String
  pub policy_decision : Option String
  pub policy_rule : Option String
  pub outcome : Option String
  pub created_at : ℕ
  pub updated_at : ℕ

pub record AttemptRow : Type 0 where
  pub call_id : String
  pub attempt : ℕ
  pub started_at : ℕ
  pub finished_at : Option ℕ
  pub outcome : Option String
  pub error : Option String

pub record ApprovalRow : Type 0 where
  pub call_id : String
  pub tenant_id : Option String
  pub tool_name : String
  pub arguments : Fields
  pub policy_input : Fields
  pub matched_rule : String
  pub decision : Option String
  pub approver : Option String
  pub reason : Option String
  pub created_at : ℕ
  pub decided_at : Option ℕ

pub record IdempotencyKeyRow : Type 0 where
  pub call_id : String
  pub status : String
  pub created_at : ℕ
  pub updated_at : ℕ

pub record PolicyVersionRow : Type 0 where
  pub bundle_hash : String
  pub bundle_uri : Option String
  pub signed : Bool
  pub created_at : ℕ

pub record ConfigurationRow : Type 0 where
  pub value : Fields
  pub version : ℕ
  pub updated_at : ℕ

-- The tables by their keys: of a principal its tenant and subject, which are unique, of an idempotency
-- key the key and its tenant.
pub record Database : Type 0 where
  pub tenants : Dict String TenantRow
  pub principals : Dict (String × String) PrincipalRow
  pub tool_calls : Dict String ToolCallRow
  pub attempts : List AttemptRow
  pub approvals : Dict String ApprovalRow
  pub idempotency_keys : Dict (String × String) IdempotencyKeyRow
  pub policy_versions : Dict String PolicyVersionRow
  pub configurations : Dict String ConfigurationRow

-- What the engine does: whether it enforces foreign keys, and the error of this transaction, if it
-- does not reach the database or its commit.
pub record Engine : Type 0 where
  pub foreign_keys : Bool
  pub fault : Option Exn

abbrev pub integrity_error : {A : Type 0} → Result A
integrity_error = raise (other "IntegrityError")

-- `async with session_factory.begin()`: what the block wrote is committed only if nothing was raised.
abbrev pub committed {ℓ} :
    {A : Type ℓ} → Option Exn → Database → Result A × Database → Result A × Database
committed none before (ok a, after) = (ok a, after)
committed (some e) before (ok a, after) = (raise e, before)
committed fault before (raise e, after) = (raise e, before)
committed fault before (cut_off, after) = (cut_off, before)

unfoldable pub transaction {ℓ} : {A : Type ℓ} → Engine → Exec Database A → Exec Database A
transaction engine block s = committed engine.fault s (block s)

-- The foreign key to `tenants`.
unfoldable pub has_tenant : Engine → Option String → Database → Bool
has_tenant engine none s = true
has_tenant engine (some id) s = not engine.foreign_keys || has_key id s.tenants

-- The check of `uq_attempt_call_number` for the attempts of one call.
unfoldable pub unique_attempts : List AttemptRow → Bool
unique_attempts [] = true
unique_attempts (row ∷ rows) =
    not (contains (map (λ (r : AttemptRow). r.attempt) rows) row.attempt) && unique_attempts rows
