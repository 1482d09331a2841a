-- ===== src/Store/Redis.antt =====
-- `RedisStateStore`. The server is a map from a call's key to its JSON text and from a session's key
-- to its list; expiry is not modelled. A key is named by its identifier: the prefixes that
-- `_call_key` and `_session_key` add keep the two maps apart. `dump` and `load` stand for pydantic's
-- `model_dump_json` and `model_validate_json`.
pub mod Refines
use mcp_gateway.Base.{ℕ, String, Option, none, some, List, [], ◌∷◌, ◌++◌, or_default, string_eq}
use mcp_gateway.Base.Dict.{Dict, lookup, insert}
use mcp_gateway.Models.{ToolCallRecord, ToolCallState}
use mcp_gateway.Errors.{Exn, gateway, other, state_store_unavailable_error}
use mcp_gateway.Effect.{Result, ok, raise, cut_off, Exec}
use mcp_gateway.Store.Updates.{add_transition, end_attempt, add_attempt}

pub record Server : Type 0 where
  pub texts : Dict String String
  pub lists : Dict String (List String)

pub record Codec : Type 0 where
  pub dump : ToolCallRecord → String
  pub load : String → Option ToolCallRecord

-- What the other clients and the connection do in one round of WATCH, GET and EXEC. Each function
-- is what the other clients write between the GET and the EXEC.
pub data Round : Type 0 where
  -- A `RedisError`, an `OSError` or the timeout before the GET is answered.
  unreachable : Round
  -- The watched key is left alone, and the transaction is executed.
  quiet : (Server → Server) → Round
  -- The watched key is written: a `WatchError`.
  touched : (Server → Server) → Round
  -- An error or the timeout before the transaction is executed.
  broken : (Server → Server) → Round
  -- The transaction is executed, and an error or the timeout takes the place of its reply.
  lost : (Server → Server) → Round

-- What becomes of a command that is not watched.
pub data Reply : Type 0 where
  executed failed lost_reply : Reply

abbrev unavailable : {A : Type 0} → Exec Server A
unavailable s = (raise (gateway state_store_unavailable_error), s)

abbrev pub after_reply : Reply → (Server → Server) → Exec Server (Unit {0})
after_reply executed write s = (ok tt, write s)
after_reply failed write s = unavailable s
after_reply lost_reply write s = unavailable (write s)

-- `lrange(key, 0, -1)`
unfoldable pub list_session_calls : Reply → String → Exec Server (List String)
list_session_calls executed session_id s = (ok (or_default (lookup session_id s.lists) []), s)
list_session_calls failed session_id s = unavailable s
list_session_calls lost_reply session_id s = unavailable s

module _ (codec : Codec) where
  abbrev pub put_text : String → ToolCallRecord → Server → Server
  put_text call_id r s = record s { texts = insert call_id (codec.dump r) s.texts }

  -- The transaction of SET, RPUSH and EXPIRE.
  unfoldable pub create_call : Reply → ToolCallRecord → Exec Server (Unit {0})
  create_call reply r = after_reply reply (λ s. record {
    texts = insert r.call_id (codec.dump r) s.texts;
    lists =
        insert r.session_id (or_default (lookup r.session_id s.lists) [] ++ r.call_id ∷ []) s.lists;
  })

  -- `model_validate_json`, whose `ValidationError` no clause of the store catches.
  abbrev pub validated : Option ToolCallRecord → Result ToolCallRecord
  validated none = raise (other "ValidationError")
  validated (some r) = ok r

  abbrev pub loaded : Option String → Result (Option ToolCallRecord)
  loaded none = ok none
  loaded (some text) = elim (codec.load text) [
    | none ↦ raise (other "ValidationError")
    | some r ↦ ok (some r)
  ]

  unfoldable pub get_call : Reply → String → Exec Server (Option ToolCallRecord)
  get_call executed call_id s = (loaded (lookup call_id s.texts), s)
  get_call failed call_id s = unavailable s
  get_call lost_reply call_id s = unavailable s

  -- What a round has read, changed by the updater: what it is about to write.
  abbrev pub proposed :
      (ToolCallRecord → Result ToolCallRecord) → Option String → Result ToolCallRecord
  proposed updater none = raise (gateway state_store_unavailable_error)
  proposed updater (some text) = elim (codec.load text) [
    | none ↦ raise (other "ValidationError")
    | some r ↦ updater r
  ]

  abbrev pub commit :
      Exec Server (Unit {0}) → String → Round → Result ToolCallRecord → Exec Server (Unit {0})
  commit again call_id unreachable r s = unavailable s
  commit again call_id (quiet others) (ok r) s = (ok tt, put_text call_id r (others s))
  commit again call_id (touched others) (ok r) s = again (others s)
  commit again call_id (broken others) (ok r) s = unavailable (others s)
  commit again call_id (lost others) (ok r) s = unavailable (put_text call_id r (others s))
  commit again call_id round (raise e) s = (raise e, s)
  commit again call_id round cut_off s = (cut_off, s)

  -- `_update`: `while True` over the rounds that the environment grants.
  unfoldable pub update :
      List Round → String → (ToolCallRecord → Result ToolCallRecord) → Exec Server (Unit {0})
  update [] call_id updater s = (cut_off, s)
  update (round ∷ rounds) call_id updater s =
      commit (update rounds call_id updater) call_id round
        (proposed updater (lookup call_id s.texts)) s

  -- One reading of the clock stands for those of all rounds, here and below.
  unfoldable pub transition :
      List Round → ℕ → String → ToolCallState → Option String → Exec Server (Unit {0})
  unfolding update
  transition rounds now call_id state error =
      update rounds call_id (λ r. ok (add_transition now state error r))

  unfoldable pub finish_attempt :
      List Round → ℕ → ℕ → String → ℕ → String → Option String → Exec Server (Unit {0})
  unfolding update
  finish_attempt rounds finished updated call_id attempt outcome error =
      update rounds call_id (end_attempt finished updated attempt outcome error)

  unfoldable pub start_attempt : List Round → ℕ → ℕ → String → ℕ → Exec Server (Unit {0})
  unfolding update
  start_attempt rounds started updated call_id attempt =
      update rounds call_id (λ r. ok (add_attempt started updated attempt r))
