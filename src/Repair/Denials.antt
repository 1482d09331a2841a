-- ===== src/Repair/Denials.antt =====
-- Which errors gateway/repair/diagnose.py calls policy denials.
use mcp_gateway.Base.{◌≡◌, refl, ◌↔◌, List, arith, string_eq}
use mcp_gateway.Models.{ErrorIssue, policy_denied}
use mcp_gateway.Errors.{Exn, gateway, other, policy_denied_error}
use mcp_gateway.Errors.{policy_unavailable_error, approval_timeout_error, approval_rejected_error}
use mcp_gateway.Errors.{tool_input_error}
use mcp_gateway.Repair.Diagnose.{diagnose, schema_category}

-- The four error classes that say no: a denial, no answer from the policy engine, and an approval
-- that timed out or was rejected.
abbrev pub IsDenial : Exn → Type 0
IsDenial (gateway (policy_denied_error _)) = Unit
IsDenial (gateway policy_unavailable_error) = Unit
IsDenial (gateway approval_timeout_error) = Unit
IsDenial (gateway (approval_rejected_error _)) = Unit
IsDenial _ = ⊥

schema_not_denied : (is : List ErrorIssue) → schema_category is ≡ policy_denied → ⊥
unfolding schema_category
schema_not_denied is h = ground arith

-- An exception is diagnosed as a policy denial exactly when it is of one of those four classes.
pub diagnose-IsDenial : (e : Exn) → ((diagnose e).category ≡ policy_denied) ↔ IsDenial e
unfolding diagnose string_eq
diagnose-IsDenial (gateway (policy_denied_error m)) = (λ h. tt, λ h. refl)
diagnose-IsDenial (gateway policy_unavailable_error) = (λ h. tt, λ h. refl)
diagnose-IsDenial (gateway approval_timeout_error) = (λ h. tt, λ h. refl)
diagnose-IsDenial (gateway (approval_rejected_error m)) = (λ h. tt, λ h. refl)
diagnose-IsDenial (gateway (tool_input_error is)) = (schema_not_denied is, λ h. absurd h)
diagnose-IsDenial (gateway e) = (λ h. cc, λ h. absurd h)
diagnose-IsDenial (other m) = (λ h. cc, λ h. absurd h)
