-- ===== src/Tests/Audit.antt =====
-- Inputs for gateway/audit: a format whose texts stand for two records that differ in a member that
-- is not signed, and a log of one event.
use mcp_gateway.Base.{
  String, ◌≡◌, refl, ap, ◌∙◌, sym, ◌⊎◌, Option, none, some, [], ◌∷◌, ◌==◌, string_eq, if◌then◌else◌,
}
use mcp_gateway.Effect.{ok}
use mcp_gateway.Base.Json.{Json, obj, str, Fields, end, field, json_get, json_del, as_str}
use mcp_gateway.Audit.Record.{Printer, AuditEvent, AuditRecord, dump}
use mcp_gateway.Audit.Log.{
  Format, genesis, AuditLogger, sign, append, durable, unsynced, record_hash, read_last_hash,
  last_line,
}
use mcp_gateway.Audit.Verify.{intact, faulty, broken_link, verify, verify_from, check_line}
use mcp_gateway.Audit.Chain.{
  IsReadable, IsChained, signed_fields, Appended, append-Appended, append-unsynced,
}
use mcp_gateway.Audit.Tamper.{SameRecords, NoBlank, Collision, DeterminesLink, verify-SameRecords}

-- The link, behind a letter that tells it from no link.
abbrev link : String → String
link t = String.◌∷◌ "l" t

abbrev link_text : Option String → String
link_text none = String.[]
link_text (some t) = link t

abbrev text_link : String → Option String
text_link String.[] = none
text_link (String.◌∷◌ c t) = some t

text_link-link_text : (o : Option String) → text_link (link_text o) ≡ o
text_link-link_text none = refl
text_link-link_text (some t) = refl

abbrev printer : Printer
printer = record { iso = λ t. "instant"; integer = λ n. "1"; float = λ t. "1.0" }

abbrev event : AuditEvent
event = record {
  timestamp = 1;
  call_id = "call-1";
  session_id = "session-1";
  trace_id = "trace-1";
  tool_name = "db_query";
  arguments = end;
  policy_input = end;
  policy_decision = "allow";
  matched_rule = none;
  approver_identity = none;
  sandbox_runtime = "local";
  attempts = [];
  repair_attempts = [];
  outcome = "succeeded";
  duration_ms = 1;
  principal = none;
}

abbrev canonical_link : Fields → String
canonical_link fs = link_text (as_str (json_get "previous_hash" fs))

-- The record of the event that follows another with the given hash, as the format below signs it.
abbrev signed : String → AuditRecord
signed previous = record { event = event; previous_hash = previous; record_hash = link previous }

abbrev first_record : Fields
first_record = dump printer (signed genesis)

abbrev second_record : Fields
second_record = dump printer (signed (link genesis))

abbrev marked : Fields → Fields
marked fs = field "mark" (str "") fs

abbrev parse_line : String → Option Json
parse_line t =
    if t == "1"
    then some (obj first_record)
    else if t == "2"
    then some (obj second_record)
    else if t == "1 marked"
    then some (obj (marked first_record))
    else none

-- It prints the two records, told apart by their links.
abbrev print_link : Option String → String
print_link none = "2"
print_link (some t) = if t == genesis then "1" else "2"

abbrev two_lines : Format
two_lines = record {
  printer = printer;
  canonical = canonical_link;
  digest = λ t. t;
  print = λ fs. print_link (as_str (json_get "previous_hash" fs));
  parse = parse_line;
  is_blank = λ t. t == "";
}

links_determined : DeterminesLink two_lines
links_determined a b h =
    sym (text_link-link_text (as_str (json_get "previous_hash" a)))
    ∙ (ap text_link h ∙ text_link-link_text (as_str (json_get "previous_hash" b)))

abbrev one_line : AuditLogger
one_line = record { lines = "1" ∷ []; rest = ""; last_hash = link genesis }

log-verify : verify two_lines ("1" ∷ []) ≡ intact (link genesis)
unfolding verify verify_from check_line record_hash json_get json_del dump string_eq
log-verify = refl

marked-verify : verify two_lines ("1 marked" ∷ []) ≡ intact (link genesis)
unfolding verify verify_from check_line record_hash json_get json_del dump string_eq
marked-verify = refl

pair-verify : verify two_lines ("1" ∷ "2" ∷ []) ≡ intact (link (link genesis))
unfolding verify verify_from check_line record_hash json_get json_del dump string_eq
pair-verify = refl

one_line-IsChained : IsChained two_lines one_line
unfolding read_last_hash last_line json_get dump string_eq
one_line-IsChained = record { verified = log-verify; resumed = refl; ended = refl }

second-IsReadable : IsReadable two_lines (signed_fields two_lines (link genesis) event)
unfolding sign json_get json_del dump string_eq record_hash
second-IsReadable = record { parse-print = refl; not_blank = refl }

append-Appended_example :
    Appended two_lines event one_line (append two_lines unsynced event one_line)
append-Appended_example =
    append-Appended two_lines unsynced event one_line second-IsReadable one_line-IsChained

append-unsynced_example :
    let (r, s) = append two_lines durable event (append two_lines unsynced event one_line).1 in
    (r ≡ ok (sign two_lines (link genesis) event))
    × (verify two_lines s.lines ≡ faulty (broken_link 3))
unfolding sign record_hash json_get json_del dump string_eq
append-unsynced_example =
    append-unsynced two_lines event event one_line second-IsReadable second-IsReadable
      one_line-IsChained refl

one_text_line : NoBlank two_lines ("1" ∷ [])
unfolding string_eq
one_text_line = (refl, tt)

marked_text_line : NoBlank two_lines ("1 marked" ∷ [])
unfolding string_eq
marked_text_line = (refl, tt)

verify-SameRecords_example :
    SameRecords two_lines ("1" ∷ []) ("1 marked" ∷ []) ⊎ Collision two_lines
verify-SameRecords_example =
    verify-SameRecords two_lines links_determined (link genesis) ("1" ∷ []) ("1 marked" ∷ [])
      one_text_line marked_text_line refl log-verify marked-verify
