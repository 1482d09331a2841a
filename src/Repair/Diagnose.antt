-- ===== src/Repair/Diagnose.antt =====
-- gateway/repair/diagnose.py: from an exception to a repair category.
use text.Mathlib.Text.{find?}
use mcp_gateway.Base.{String, Bool, false, ◌||◌, List, [], ◌∷◌, is_some}
use mcp_gateway.Base.{◌==◌, contains, string_eq, if◌then◌else◌}
use mcp_gateway.Models.{RepairFailure, ErrorIssue}
use mcp_gateway.Models.{schema_mismatch, malformed_json, missing_required_field, type_coercion}
use mcp_gateway.Models.{timeout, sandbox_crash, policy_denied, tool_error}
use mcp_gateway.Errors.{GatewayError, Exn, gateway, other, code, message, issues}
use mcp_gateway.Errors.{is_sandbox_timeout, is_sandbox}

pub record FailureDiagnosis : Type 0 where
  pub category : RepairFailure
  pub message : String

-- The codes that end a call as denied, in `diagnose` and in the gateway's `fail`.
abbrev pub denial_codes : List String
denial_codes =
    "policy_denied" ∷ "policy_unavailable" ∷ "approval_timeout" ∷ "approval_rejected" ∷ []

-- `any(word in issue_type for issue_type in issue_types)`
unfoldable pub any_type : String → List ErrorIssue → Bool
any_type word [] = false
any_type word (i ∷ is) = is_some (find? i.error_type word) || any_type word is

unfoldable pub schema_category : List ErrorIssue → RepairFailure
schema_category is =
    if any_type "missing" is
    then missing_required_field
    else if any_type "json" is
    then malformed_json
    else if any_type "type" is
    then type_coercion
    else schema_mismatch

unfoldable pub gateway_category : GatewayError → RepairFailure
unfolding schema_category
gateway_category e =
    if contains denial_codes (code e)
    then policy_denied
    else if code e == "schema_validation"
    then schema_category (issues e)
    else if is_sandbox_timeout e
    then timeout
    else if is_sandbox e
    then sandbox_crash
    else tool_error

unfoldable pub diagnose : Exn → FailureDiagnosis
unfolding gateway_category
diagnose (gateway e) = record { category = gateway_category e; message = message e }
diagnose (other m) = record { category = tool_error; message = m }
