-- ===== src/Store/Updates.antt =====
-- The changes that the store's operations make to one call record: the nested `update` functions of
-- gateway/state/redis_store.py, which both stores share word for word.
pub mod Attempts
use mcp_gateway.Base.{ℕ, String, Option, none, some, List, [], ◌∷◌, ◌++◌, ◌==◌, nat_eq}
use mcp_gateway.Base.{if◌then◌else◌}
use mcp_gateway.Models.{ToolCallRecord, ToolCallState, AttemptRecord}
use mcp_gateway.Errors.{gateway, state_store_unavailable_error}
use mcp_gateway.Effect.{Result, ok, raise}

-- `transition`: both timestamps are the one reading.
unfoldable pub add_transition : ℕ → ToolCallState → Option String → ToolCallRecord → ToolCallRecord
add_transition now state error r = record r {
  current_state = state;
  updated_at = now;
  transitions = r.transitions ++ record { state = state; timestamp = now; error = error } ∷ [];
}

-- What is written to an attempt that ends.
unfoldable pub complete : ℕ → String → Option String → AttemptRecord → AttemptRecord
complete now outcome error a = record a {
  finished_at = some now;
  outcome = some outcome;
  error = error;
}

-- The `for` loop over `reversed(attempts)`: the last attempt of that number is completed. `none`
-- means that there is none.
unfoldable pub complete_last :
    ℕ → ℕ → String → Option String → List AttemptRecord → Option (List AttemptRecord)
complete_last now attempt outcome error [] = none
complete_last now attempt outcome error (a ∷ rest) =
    elim (complete_last now attempt outcome error rest) [
      | some rest' ↦ some (a ∷ rest')
      | none ↦ if a.attempt == attempt then some (complete now outcome error a ∷ rest) else none
    ]

-- `finish_attempt`, with its two readings of the clock.
unfoldable pub end_attempt :
    ℕ → ℕ → ℕ → String → Option String → ToolCallRecord → Result ToolCallRecord
end_attempt finished updated attempt outcome error r =
    elim (complete_last finished attempt outcome error r.attempts) [
      | some attempts ↦ ok (record r { attempts = attempts; updated_at = updated })
      | none ↦ raise (gateway state_store_unavailable_error)
    ]

-- `start_attempt`, with its two readings of the clock.
unfoldable pub add_attempt : ℕ → ℕ → ℕ → ToolCallRecord → ToolCallRecord
add_attempt started updated attempt r = record r {
  attempts =
      r.attempts
      ++ record {
        attempt = attempt;
        started_at = started;
        finished_at = none;
        outcome = none;
        error = none;
      }
        ∷ [];
  updated_at = updated;
}
