-- ===== src/Audit/Chain.antt =====
-- Appending to the log of gateway/audit/log.py keeps a file that gateway/audit/verify.py accepts.
use mathlib.Core.Path.{fun_ext}
use native.Mathlib.Nat.{add-zero}
use Prim.Native.String.append.{nil}
use mcp_gateway.Base.{ℕ, suc, ◌+◌, String, ◌≡◌, refl, ◌∙◌, ap, false}
use mcp_gateway.Base.{Option, none, some, List, [], ◌∷◌, ◌++◌, length, arith, ◌<>◌, ◌==◌}
use mcp_gateway.Base.{==_refl, string_eq, Bool-cases, inl, inr}
use mcp_gateway.Base.Json.{obj, Fields, json_get, json_del}
use mcp_gateway.Errors.{Exn}
use mcp_gateway.Effect.{Result, ok, raise}
use mcp_gateway.Audit.Record.{AuditEvent, AuditRecord, dump}
use mcp_gateway.Audit.Log.{Format, AuditLogger, last_line, read_last_hash, sign}
use mcp_gateway.Audit.Log.{append, Write, durable, unopened, unsynced, partial}
use mcp_gateway.Audit.Verify.{
  Verdict, intact, faulty, broken_link, check_line, then_verify, verify_from, verify,
}

-- pydantic prints this record as one line of JSON that `json.loads` reads back.
pub record IsReadable (f : Format) (fs : Fields) : Type 0 where
  pub parse-print : f.parse (f.print fs) ≡ some (obj fs)
  pub not_blank : f.is_blank (f.print fs) ≡ false

-- The file verifies up to the logger's hash, and a logger that is opened on it resumes there.
pub record IsChained (f : Format) (s : AuditLogger) : Type 0 where
  pub verified : verify f s.lines ≡ intact s.last_hash
  pub resumed : read_last_hash f s.lines ≡ ok s.last_hash
  pub ended : s.rest ≡ ""

module _ (f : Format) where
  then_verify_assoc :
      (g h : String → Verdict) (v : Verdict)
      → then_verify f h (then_verify f g v) ≡ then_verify f (λ x. then_verify f h (g x)) v
  then_verify_assoc g h (intact x) = refl
  then_verify_assoc g h (faulty e) = refl

  -- The second part is verified from the hash that the first part ends with.
  verify_from-append :
      (xs ys : List String) (previous : String) (n : ℕ)
      → verify_from f previous n (xs ++ ys)
        ≡ then_verify f (λ h. verify_from f h (n + length xs) ys) (verify_from f previous n xs)
  unfolding verify_from
  verify_from-append [] ys previous n = rw add-zero
  verify_from-append (x ∷ xs) ys previous n = elim (Bool-cases (f.is_blank x)) [
    | inl blank ↦ rw blank (verify_from-append xs ys previous (suc n) ∙ renumbered previous)
    | inr text ↦
        rw (text, then_verify_assoc)
          (ap (λ (g : String → Verdict). then_verify f g (check_line f previous n (f.parse x)))
            (fun_ext λ h. verify_from-append xs ys h (suc n) ∙ renumbered h))
  ]
    where
      shift : suc n + length xs ≡ n + suc (length xs)
      shift = omega arith

      renumbered :
          (h : String)
          → then_verify f (λ g. verify_from f g (suc n + length xs) ys) (verify_from f h (suc n) xs)
            ≡ then_verify f
                (λ g. verify_from f g (n + suc (length xs)) ys)
                (verify_from f h (suc n) xs)
      renumbered h =
          ap (λ (m : ℕ). then_verify f (λ g. verify_from f g m ys) (verify_from f h (suc n) xs))
            shift

  last_line-append :
      (xs : List String) (l : String) (last : Option String)
      → f.is_blank l ≡ false
      → last_line f last (xs ++ l ∷ []) ≡ some l
  unfolding last_line
  last_line-append [] l last h = rw h
  last_line-append (x ∷ xs) l last h = last_line-append xs l _ h

  -- A signed record passes the checks after the record that it was signed to follow.
  check_line-sign :
      (previous : String) (n : ℕ) (e : AuditEvent)
      → check_line f previous n (some (obj (dump f.printer (sign f previous e))))
        ≡ intact (sign f previous e).record_hash
  unfolding check_line sign dump json_get json_del string_eq
  check_line-sign previous n e = rw (==_refl, ==_refl)

-- A text that follows no other.
after_nothing : (rest text : String) → rest ≡ "" → (rest <> text) ≡ text
after_nothing rest text h = ap (λ r. r <> text) h ∙ nil text

module _ (f : Format) where
  abbrev pub signed_fields : String → AuditEvent → Fields
  signed_fields previous e = dump f.printer (sign f previous e)

  -- A file that verifies still does with one signed record more, and ends with that record's hash.
  verify-sign :
      (xs : List String) (previous : String) (e : AuditEvent)
      → IsReadable f (signed_fields previous e)
      → verify f xs ≡ intact previous
      → verify f (xs ++ f.print (signed_fields previous e) ∷ [])
        ≡ intact (sign f previous e).record_hash
  unfolding verify verify_from
  verify-sign xs previous e laws v =
      rw (verify_from-append, v, laws.not_blank, laws.parse-print, check_line-sign)

  read_last_hash-sign :
      (xs : List String) (previous : String) (e : AuditEvent)
      → IsReadable f (signed_fields previous e)
      → read_last_hash f (xs ++ f.print (signed_fields previous e) ∷ [])
        ≡ ok (sign f previous e).record_hash
  unfolding read_last_hash dump json_get string_eq
  read_last_hash-sign xs previous e laws = rw (
    last_line-append f xs (f.print (signed_fields previous e)) none laws.not_blank,
    laws.parse-print,
  )

  abbrev signed_line : AuditEvent → AuditLogger → List String
  signed_line e s = s.lines ++ (s.rest <> f.print (signed_fields s.last_hash e)) ∷ []

  signed_line-append :
      (e : AuditEvent) (s : AuditLogger)
      → s.rest ≡ ""
      → signed_line e s ≡ s.lines ++ f.print (signed_fields s.last_hash e) ∷ []
  signed_line-append e s h =
      ap (λ l. s.lines ++ l ∷ []) (after_nothing s.rest (f.print (signed_fields s.last_hash e)) h)

  verify-signed_line :
      (e : AuditEvent) (s : AuditLogger)
      → IsReadable f (signed_fields s.last_hash e)
      → IsChained f s
      → verify f (signed_line e s) ≡ intact (sign f s.last_hash e).record_hash
  verify-signed_line e s laws c =
      ap (verify f) (signed_line-append e s c.ended)
      ∙ verify-sign s.lines s.last_hash e laws c.verified

  -- What an append leaves, by what became of its line.
  pub data Appended (e : AuditEvent) (s : AuditLogger) (o : Result AuditRecord × AuditLogger)
      : Type 0 where
    -- It returned the signed record, and the log goes on.
    returned : o.0 ≡ ok (sign f s.last_hash e) → IsChained f o.1 → Appended e s o
    -- It failed before it wrote, and the log goes on.
    refused : (x : Exn) → o.0 ≡ raise x → IsChained f o.1 → Appended e s o
    -- It failed after a part of the line, which follows the last line.
    torn :
        (x : Exn) (text : String)
        → o.0 ≡ raise x
        → o.1.rest ≡ text
        → o.1.lines ≡ s.lines
        → verify f o.1.lines ≡ intact o.1.last_hash
        → Appended e s o
    -- It failed after the line: the file verifies up to its record, of which the logger knows nothing.
    behind :
        (x : Exn)
        → o.0 ≡ raise x
        → verify f o.1.lines ≡ intact (sign f s.last_hash e).record_hash
        → o.1.last_hash ≡ s.last_hash
        → Appended e s o

  pub append-Appended :
      (w : Write) (e : AuditEvent) (s : AuditLogger)
      → IsReadable f (signed_fields s.last_hash e)
      → IsChained f s
      → Appended e s (append f w e s)
  unfolding append
  append-Appended durable e s laws c = returned refl (record {
    verified = verify-signed_line e s laws c;
    resumed =
        ap (read_last_hash f) (signed_line-append e s c.ended)
        ∙ read_last_hash-sign s.lines s.last_hash e laws;
    ended = refl;
  })
  append-Appended unopened e s laws c = refused _ refl c
  append-Appended (partial text) e s laws c =
      torn _ text refl (after_nothing s.rest text c.ended) refl c.verified
  append-Appended unsynced e s laws c = behind _ refl (verify-signed_line e s laws c) refl

  -- A record that was signed to follow one hash is no link after another.
  check_line-other :
      (previous other : String) (n : ℕ) (e : AuditEvent)
      → (previous == other) ≡ false
      → check_line f other n (some (obj (signed_fields previous e))) ≡ faulty (broken_link n)
  unfolding check_line sign dump json_get string_eq
  check_line-other previous other n e h = rw h

  verify-unlinked :
      (xs : List String) (previous other : String) (e : AuditEvent)
      → IsReadable f (signed_fields previous e)
      → verify f xs ≡ intact other
      → (previous == other) ≡ false
      → verify f (xs ++ f.print (signed_fields previous e) ∷ [])
        ≡ faulty (broken_link (1 + length xs))
  unfolding verify verify_from
  verify-unlinked xs previous other e laws v h =
      rw (verify_from-append, v, laws.not_blank, laws.parse-print, check_line-other _ _ _ e h)

  -- An append after one that failed to sync breaks the log: where both records read back and the first
  -- has another hash than the record before it, the second append returns, and then the file does not
  -- verify, since the second record links to the one before the first.
  pub append-unsynced :
      (first second : AuditEvent) (s : AuditLogger)
      → IsReadable f (signed_fields s.last_hash first)
      → IsReadable f (signed_fields s.last_hash second)
      → IsChained f s
      → (s.last_hash == (sign f s.last_hash first).record_hash) ≡ false
      → let (r, s') = append f durable second (append f unsynced first s).1 in
        (r ≡ ok (sign f s.last_hash second))
        × (verify f s'.lines ≡ faulty (broken_link (1 + length (signed_line first s))))
  unfolding append
  append-unsynced first second s laws laws' c h = (
    refl,
    ap (λ l. verify f (signed_line first s ++ l ∷ []))
          (after_nothing "" (f.print (signed_fields s.last_hash second)) refl)
        ∙ verify-unlinked (signed_line first s) s.last_hash _ second laws'
            (verify-signed_line first s laws c) h,
  )
