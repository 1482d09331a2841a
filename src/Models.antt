-- ===== src/Models.antt =====
-- gateway/models.py: the records that the components exchange. An instant is a number of
-- microseconds. A validated instance of a tool's own model is its `model_dump(mode="json")`.
use mcp_gateway.Base.{ℕ, String, Bool, Option, List, contains, Eq}
use mcp_gateway.Base.Json.{Fields, Json}

pub data RiskClass : Type 0 where
  read_only mutating destructive : RiskClass

RiskClass-discrete : Discrete RiskClass
RiskClass-discrete = hlevel

instance unfoldable pub risk_class_eq : Eq RiskClass
unfolding RiskClass-discrete
risk_class_eq = record { dec = RiskClass-discrete }

pub data Role : Type 0 where
  user operator admin : Role

Role-discrete : Discrete Role
Role-discrete = hlevel

instance unfoldable pub role_eq : Eq Role
unfolding Role-discrete
role_eq = record { dec = Role-discrete }

-- The values of the `StrEnum`s.
abbrev pub risk_value : RiskClass → String
risk_value RiskClass.read_only = "read_only"
risk_value RiskClass.mutating = "mutating"
risk_value RiskClass.destructive = "destructive"

abbrev pub role_value : Role → String
role_value Role.user = "user"
role_value Role.operator = "operator"
role_value Role.admin = "admin"

pub record Principal : Type 0 where
  pub subject : String
  pub tenant_id : String
  pub roles : List Role
  pub issuer : Option String
  pub agent_id : Option String

unfoldable pub has_role : Principal → Role → Bool
has_role p role = contains p.roles role

pub data ToolCallState : Type 0 where
  received validated policy_checked awaiting_approval executing succeeded failed denied :
      ToolCallState

ToolCallState-discrete : Discrete ToolCallState
ToolCallState-discrete = hlevel

instance unfoldable pub tool_call_state_eq : Eq ToolCallState
unfolding ToolCallState-discrete
tool_call_state_eq = record { dec = ToolCallState-discrete }

pub record StateTransition : Type 0 where
  pub state : ToolCallState
  pub timestamp : ℕ
  pub error : Option String

pub record AttemptRecord : Type 0 where
  pub attempt : ℕ
  pub started_at : ℕ
  pub finished_at : Option ℕ
  pub outcome : Option String
  pub error : Option String

pub data RepairFailure : Type 0 where
  schema_mismatch malformed_json missing_required_field type_coercion : RepairFailure
  timeout sandbox_crash policy_denied tool_error : RepairFailure

RepairFailure-discrete : Discrete RepairFailure
RepairFailure-discrete = hlevel

instance unfoldable pub repair_failure_eq : Eq RepairFailure
unfolding RepairFailure-discrete
repair_failure_eq = record { dec = RepairFailure-discrete }

pub record RepairAttemptRecord : Type 0 where
  pub category : RepairFailure
  pub original_arguments : Fields
  pub proposed_arguments : Fields
  pub validation_passed : Bool
  pub policy_outcome : Option String
  pub outcome : String

pub record ToolCallRecord : Type 0 where
  pub call_id : String
  pub trace_id : String
  pub session_id : String
  pub tool_name : String
  pub risk_class : Option RiskClass
  pub arguments : Fields
  pub current_state : ToolCallState
  pub transitions : List StateTransition
  pub attempts : List AttemptRecord
  pub created_at : ℕ
  pub updated_at : ℕ
  pub principal : Option Principal

pub record PolicyDecision : Type 0 where
  pub outcome : String
  pub matched_rule : String
  pub reason : String

pub record ApprovalRequest : Type 0 where
  pub approval_id : String
  pub call_id : String
  pub tool_name : String
  pub arguments : Fields
  pub policy_input : Fields
  pub matched_rule : String
  pub created_at : ℕ
  pub decision : Option String
  pub approver : Option String
  pub reason : Option String

pub record ErrorIssue : Type 0 where
  pub location : List Json
  pub error_type : String
  pub message : String
