-- ===== src/Store/Memory.antt =====
-- `InMemoryStateStore`. The lock makes each operation one step; `model_copy(deep=True)` makes the
-- records values, so that nothing outside the store shares them.
pub mod Laws
use mcp_gateway.Base.{ℕ, String, Option, none, some, List, [], ◌∷◌, ◌++◌, or_default, string_eq}
use mcp_gateway.Base.Dict.{Dict, lookup, insert}
use mcp_gateway.Models.{ToolCallRecord, ToolCallState}
use mcp_gateway.Errors.{gateway, state_store_unavailable_error}
use mcp_gateway.Effect.{Result, ok, raise, cut_off, Exec}
use mcp_gateway.Store.Updates.{add_transition, end_attempt, add_attempt}

pub record MemoryStore : Type 0 where
  pub calls : Dict String ToolCallRecord
  pub sessions : Dict String (List String)

abbrev pub empty_store : MemoryStore
empty_store = record { calls = []; sessions = [] }

unfoldable pub create_call : ToolCallRecord → Exec MemoryStore (Unit {0})
create_call r s = (
  ok tt,
  record {
    calls = insert r.call_id r s.calls;
    sessions =
        insert r.session_id (or_default (lookup r.session_id s.sessions) [] ++ r.call_id ∷ [])
          s.sessions;
  },
)

abbrev write_back : String → Result ToolCallRecord → Exec MemoryStore (Unit {0})
write_back call_id (ok r) s = (ok tt, record s { calls = insert call_id r s.calls })
write_back call_id (raise e) s = (raise e, s)
write_back call_id cut_off s = (cut_off, s)

abbrev update_found :
    (ToolCallRecord → Result ToolCallRecord)
    → String
    → Option ToolCallRecord
    → Exec MemoryStore (Unit {0})
update_found updater call_id none s = (raise (gateway state_store_unavailable_error), s)
update_found updater call_id (some r) s = write_back call_id (updater r) s

-- `_update`: the updaters raise before they write, so an error leaves the record as it was.
unfoldable pub update :
    String → (ToolCallRecord → Result ToolCallRecord) → Exec MemoryStore (Unit {0})
update call_id updater s = update_found updater call_id (lookup call_id s.calls) s

unfoldable pub transition : ℕ → String → ToolCallState → Option String → Exec MemoryStore (Unit {0})
unfolding update
transition now call_id state error = update call_id (λ r. ok (add_transition now state error r))

unfoldable pub finish_attempt :
    ℕ → ℕ → String → ℕ → String → Option String → Exec MemoryStore (Unit {0})
unfolding update
finish_attempt finished updated call_id attempt outcome error =
    update call_id (end_attempt finished updated attempt outcome error)

unfoldable pub start_attempt : ℕ → ℕ → String → ℕ → Exec MemoryStore (Unit {0})
unfolding update
start_attempt started updated call_id attempt =
    update call_id (λ r. ok (add_attempt started updated attempt r))

unfoldable pub get_call : String → Exec MemoryStore (Option ToolCallRecord)
get_call call_id s = (ok (lookup call_id s.calls), s)

unfoldable pub list_session_calls : String → Exec MemoryStore (List String)
list_session_calls session_id s = (ok (or_default (lookup session_id s.sessions) []), s)
