-- ===== src/Audit/Log.antt =====
-- gateway/audit/log.py: `AuditLogger`. The file is its list of lines. `canonical` is `json.dumps`
-- with sorted keys, `digest` the hexadecimal SHA-256 of its text, `print` pydantic's
-- `model_dump_json` of the record that has the given dump, and `parse` is `json.loads`.
use mcp_gateway.Base.{String, Bool, Option, none, some, List, [], ◌∷◌, ◌++◌, ◌<>◌, or_default}
use mcp_gateway.Base.{if◌then◌else◌, string_eq}
use mcp_gateway.Base.Json.{Json, obj, Fields, json_get, json_del}
use mcp_gateway.Base.Json.{as_str}
use mcp_gateway.Errors.{other}
use mcp_gateway.Effect.{Result, ok, raise, Exec}
use mcp_gateway.Audit.Record.{Printer, AuditEvent, AuditRecord, dump}

pub record Format : Type 0 where
  pub printer : Printer
  pub canonical : Fields → String
  pub digest : String → String
  pub print : Fields → String
  pub parse : String → Option Json
  -- `not line.strip()`
  pub is_blank : String → Bool

-- `"0" * 64`
abbrev pub genesis : String
genesis = "0000000000000000000000000000000000000000000000000000000000000000"

-- The file is its lines, and the text after the last line break: empty, or what is left of a write
-- that was cut short.
pub record AuditLogger : Type 0 where
  pub lines : List String
  pub rest : String
  pub last_hash : String

-- What the file system does with a line: it is written durably; the directory or the file cannot be
-- opened; a text, the beginning of the line, is written and the rest is not; or the whole line is
-- written and `fsync` fails.
pub data Write : Type 0 where
  durable unopened unsynced : Write
  partial : String → Write

module _ (f : Format) where
  unfoldable pub record_hash : Fields → String
  record_hash payload = f.digest (f.canonical payload)

  -- The last line that is not blank, where `last` is the one before.
  unfoldable pub last_line : Option String → List String → Option String
  last_line last [] = last
  last_line last (l ∷ ls) = last_line (if f.is_blank l then last else some l) ls

  -- `payload.get("record_hash")`, of what need not be an object.
  abbrev hash_of : Option Json → Result String
  hash_of none = raise (other "JSONDecodeError")
  hash_of (some (obj fs)) = ok (or_default (as_str (json_get "record_hash" fs)) genesis)
  hash_of (some _) = raise (other "AttributeError")

  abbrev last_line_hash : Option String → Result String
  last_line_hash none = ok genesis
  last_line_hash (some l) = hash_of (f.parse l)

  -- A file that does not exist has no lines.
  unfoldable pub read_last_hash : List String → Result String
  unfolding last_line
  read_last_hash lines = last_line_hash (last_line none lines)

  -- The record of an event that follows a record with the given hash.
  unfoldable pub sign : String → AuditEvent → AuditRecord
  unfolding record_hash
  sign previous event =
      let pending : AuditRecord = record {
        event = event;
        previous_hash = previous;
        record_hash = "pending";
      } in
      record pending { record_hash = record_hash (json_del "record_hash" (dump f.printer pending)) }

  -- `_append_sync`. The line is written and flushed before `fsync`, and the hash is kept only after.
  unfoldable pub append : Write → AuditEvent → Exec AuditLogger AuditRecord
  unfolding sign
  append durable event s =
      let r = sign s.last_hash event in
      (
        ok r,
        record {
          lines = s.lines ++ (s.rest <> f.print (dump f.printer r)) ∷ [];
          rest = "";
          last_hash = r.record_hash;
        },
      )
  append unopened event s = (raise (other "OSError"), s)
  append (partial text) event s = (raise (other "OSError"), record s { rest = s.rest <> text })
  append unsynced event s =
      let r = sign s.last_hash event in
      (
        raise (other "OSError"),
        record s { lines = s.lines ++ (s.rest <> f.print (dump f.printer r)) ∷ []; rest = "" },
      )
