-- ===== src/Store.antt =====
-- gateway/state/redis_store.py: lifecycle records of tool calls, in memory and in Redis.
pub mod Updates
pub mod Memory
pub mod Redis
use mcp_gateway.Base.{ℕ, String, Option, List}
use mcp_gateway.Models.{ToolCallRecord, ToolCallState}
use mcp_gateway.Effect.{Exec}

-- The protocol that the gateway uses. An operation that reads the clock is given its readings.
pub record StateStore : Type 1 where
  pub State : Type 0
  pub create_call : ToolCallRecord → Exec State (Unit {0})
  pub transition : ℕ → String → ToolCallState → Option String → Exec State (Unit {0})
  pub finish_attempt : ℕ → ℕ → String → ℕ → String → Option String → Exec State (Unit {0})
  pub start_attempt : ℕ → ℕ → String → ℕ → Exec State (Unit {0})
  pub get_call : String → Exec State (Option ToolCallRecord)
  pub list_session_calls : String → Exec State (List String)
