-- ===== src/Tests/Store.antt =====
-- Inputs for gateway/state: one call, in both stores.
use mcp_gateway.Base.{
  String, ◌≡◌, refl, sym, ap, ◌∙◌, none, some, List, [], ◌∷◌, ◌==◌, string_eq, nat_eq,
}
use mcp_gateway.Base.{if◌then◌else◌, arith}
use mcp_gateway.Base.Dict.{lookup, insert}
use mcp_gateway.Base.Json.{end}
use mcp_gateway.Models.{ToolCallRecord, ToolCallState, AttemptRecord}
use mcp_gateway.Effect.{Result, ok}
use mcp_gateway.Store.Updates.{complete, complete_last}
use mcp_gateway.Store.Updates.Attempts.{CompletesLast, complete_last-CompletesLast}
use mcp_gateway.Store.Memory
use mcp_gateway.Store.Memory.{MemoryStore, empty_store}
use mcp_gateway.Store.Memory.Laws.{
  IsWellFormed, empty-IsWellFormed, perform_all, perform_all-IsWellFormed,
}
use mcp_gateway.Store.Memory.Laws.{create, move, finish, start, Operation}
use mcp_gateway.Store.Redis.{Server, Codec, Round, quiet, touched, update}
use mcp_gateway.Store.Redis.Refines.{ReadsBack, Represents, update-refines}

abbrev attempt_1 : AttemptRecord
attempt_1 = record { attempt = 1; started_at = 5; finished_at = none; outcome = none; error = none }

abbrev attempt_2 : AttemptRecord
attempt_2 = record { attempt = 2; started_at = 6; finished_at = none; outcome = none; error = none }

-- The second of two attempts with one number is completed.
abbrev twice : List AttemptRecord
twice = attempt_1 ∷ attempt_1 ∷ attempt_2 ∷ []

abbrev completed_twice : List AttemptRecord
completed_twice = attempt_1 ∷ complete 9 "succeeded" none attempt_1 ∷ attempt_2 ∷ []

complete_last-twice : complete_last 9 1 "succeeded" none twice ≡ some completed_twice
unfolding complete_last nat_eq
complete_last-twice = refl

complete_last-CompletesLast_example : CompletesLast 9 1 "succeeded" none twice completed_twice
complete_last-CompletesLast_example =
    complete_last-CompletesLast 9 1 "succeeded" none twice completed_twice complete_last-twice

abbrev call : ToolCallRecord
call = record {
  call_id = "call-1";
  trace_id = "trace-1";
  session_id = "session-1";
  tool_name = "filesystem_read";
  risk_class = none;
  arguments = end;
  current_state = ToolCallState.received;
  transitions = record { state = ToolCallState.received; timestamp = 1; error = none } ∷ [];
  attempts = [];
  created_at = 1;
  updated_at = 1;
  principal = none;
}

abbrev history : List Operation
history =
    create call
    ∷ move 2 "call-1" ToolCallState.executing none
    ∷ start 3 4 "call-1" 1
    ∷ finish 5 6 "call-1" 1 "succeeded" none
    ∷ finish 7 8 "call-1" 2 "failed" none
    ∷ []

perform_all-IsWellFormed_example : IsWellFormed (perform_all history empty_store)
perform_all-IsWellFormed_example =
    perform_all-IsWellFormed history empty_store (refl, (tt, (tt, (tt, (tt, tt)))))
      empty-IsWellFormed

-- A codec for two records, that name their texts.
abbrev executing_call : ToolCallRecord
executing_call = record call { current_state = ToolCallState.executing; updated_at = 2 }

abbrev dump_state : ToolCallState → String
dump_state ToolCallState.received = "received"
dump_state _ = "executing"

abbrev two_records : Codec
two_records = record {
  dump = λ r. dump_state r.current_state;
  load = λ t.
      if t == "received" then some call else if t == "executing" then some executing_call else none;
}

abbrev set_executing : ToolCallRecord → Result ToolCallRecord
set_executing r = ok executing_call

set_executing-ReadsBack : ReadsBack two_records set_executing
unfolding string_eq
set_executing-ReadsBack r r' h =
    ap (λ (x : ToolCallRecord). two_records.load (two_records.dump x)) (sym same) ∙ ap some same
  where
    same : executing_call ≡ r'
    same = ground arith

abbrev server : Server
server = record { texts = ("call-1", "received") ∷ []; lists = [] }

abbrev executing_server : Server
executing_server = record { texts = ("call-1", "executing") ∷ []; lists = [] }

abbrev memory : MemoryStore
memory = record { calls = ("call-1", call) ∷ []; sessions = [] }

-- Another client writes the key in the first round, and leaves it in the second.
abbrev rounds : List Round
rounds = touched (λ s. s) ∷ quiet (λ s. s) ∷ []

updated_server : update two_records rounds "call-1" set_executing server ≡ (ok tt, executing_server)
unfolding update lookup insert string_eq
updated_server = refl

server-Represents : Represents two_records server memory
unfolding string_eq lookup
server-Represents k = ground arith

update-refines_example :
    ((Memory.update "call-1" set_executing memory).0 ≡ ok tt)
    × Represents two_records executing_server (Memory.update "call-1" set_executing memory).1
update-refines_example =
    update-refines two_records "call-1" set_executing set_executing-ReadsBack rounds server
      executing_server memory (tt, ((λ s. refl), tt)) updated_server server-Represents
