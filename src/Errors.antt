-- ===== src/Errors.antt =====
-- gateway/errors.py: the exception hierarchy, with each class's client-safe code and message.
use mcp_gateway.Base.{String, ◌<>◌, Bool, true, false, List, []}
use mcp_gateway.Models.{ErrorIssue}

-- A constructor for each subclass of `GatewayError`, with what its initialiser is given.
pub data GatewayError : Type 0 where
  authentication_error authorization_error : String → GatewayError
  tool_not_found_error : String → GatewayError
  tool_input_error : List ErrorIssue → GatewayError
  tool_not_enabled_error tool_execution_error : String → GatewayError
  sandbox_error : String → GatewayError
  sandbox_timeout_error : GatewayError
  needs_review_error : String → GatewayError
  state_store_unavailable_error : GatewayError
  policy_denied_error : String → GatewayError
  policy_unavailable_error : GatewayError
  approval_timeout_error : GatewayError
  approval_rejected_error : String → GatewayError

-- `error.response.error.code`
abbrev pub code : GatewayError → String
code (authentication_error _) = "authentication_failed"
code (authorization_error _) = "authorization_failed"
code (tool_not_found_error _) = "tool_not_found"
code (tool_input_error _) = "schema_validation"
code (tool_not_enabled_error _) = "tool_not_enabled"
code (tool_execution_error _) = "tool_execution_failed"
code (sandbox_error _) = "sandbox_error"
code sandbox_timeout_error = "sandbox_error"
code (needs_review_error _) = "needs_review"
code state_store_unavailable_error = "state_store_unavailable"
code (policy_denied_error _) = "policy_denied"
code policy_unavailable_error = "policy_unavailable"
code approval_timeout_error = "approval_timeout"
code (approval_rejected_error _) = "approval_rejected"

-- `error.response.error.message`, which is also `str(error)`
abbrev pub message : GatewayError → String
message (authentication_error m) = m
message (authorization_error m) = m
message (tool_not_found_error name) = "Unknown tool: " <> name
message (tool_input_error _) = "Tool arguments did not match the required schema"
message (tool_not_enabled_error m) = m
message (tool_execution_error m) = m
message (sandbox_error m) = m
message sandbox_timeout_error = "Sandbox execution exceeded its wall-clock timeout"
message (needs_review_error m) = m
message state_store_unavailable_error = "The gateway could not persist tool-call state"
message (policy_denied_error m) = m
message policy_unavailable_error = "Policy evaluation is unavailable"
message approval_timeout_error = "Approval timed out; the call was denied"
message (approval_rejected_error m) = m

-- `error.response.error.issues`
abbrev pub issues : GatewayError → List ErrorIssue
issues (tool_input_error is) = is
issues _ = []

-- `isinstance(error, SandboxTimeoutError)` and `isinstance(error, SandboxError)`
abbrev pub is_sandbox_timeout : GatewayError → Bool
is_sandbox_timeout sandbox_timeout_error = true
is_sandbox_timeout _ = false

abbrev pub is_sandbox : GatewayError → Bool
is_sandbox sandbox_timeout_error = true
is_sandbox (sandbox_error _) = true
is_sandbox _ = false

-- What an `except Exception` clause may see: a gateway error, or any other exception by its text.
pub data Exn : Type 0 where
  gateway : GatewayError → Exn
  other : String → Exn

-- `str(error)`
abbrev pub exn_text : Exn → String
exn_text (gateway e) = message e
exn_text (other m) = m
