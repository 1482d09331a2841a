-- ===== src/Audit/Verify.antt =====
-- gateway/audit/verify.py: the check of a file's hash chain.
use mcp_gateway.Base.{ℕ, suc, String, Bool, false, Option, none, some, List, [], ◌∷◌}
use mcp_gateway.Base.{◌==◌, string_eq, if◌then◌else◌}
use mcp_gateway.Base.Json.{Json, obj, Fields, json_get, json_del}
use mcp_gateway.Base.Json.{as_str}
use mcp_gateway.Audit.Log.{Format, genesis, record_hash}

-- The reasons of an `AuditIntegrityError`, with its line number.
pub data Fault : Type 0 where
  invalid_json not_object broken_link missing_hash tampered : ℕ → Fault

-- `intact` carries the loop's `previous_hash`.
pub data Verdict : Type 0 where
  intact : String → Verdict
  faulty : Fault → Verdict

module _ (f : Format) where
  -- `payload.get("previous_hash") != previous_hash`
  abbrev pub links : String → Fields → Bool
  links previous payload = elim (as_str (json_get "previous_hash" payload)) [
    | none ↦ false
    | some h ↦ h == previous
  ]

  -- `hashlib.sha256(_canonical_json(unsigned))` of the payload without its hash
  abbrev pub expected_hash : Fields → String
  expected_hash payload = record_hash f (json_del "record_hash" payload)

  -- The checks of one payload, and the hash that the next one must follow.
  abbrev pub check_hash : ℕ → Fields → Option String → Verdict
  check_hash n payload none = faulty (missing_hash n)
  check_hash n payload (some stored) =
      if stored == expected_hash payload then intact stored else faulty (tampered n)

  unfoldable pub check_line : String → ℕ → Option Json → Verdict
  check_line previous n none = faulty (invalid_json n)
  check_line previous n (some (obj payload)) =
      if links previous payload
      then check_hash n payload (as_str (json_get "record_hash" payload))
      else faulty (broken_link n)
  check_line previous n (some _) = faulty (not_object n)

  abbrev pub then_verify : (String → Verdict) → Verdict → Verdict
  then_verify next (intact h) = next h
  then_verify next (faulty e) = faulty e

  -- The loop over the lines, numbered from `n`.
  unfoldable pub verify_from : String → ℕ → List String → Verdict
  verify_from previous n [] = intact previous
  verify_from previous n (l ∷ ls) =
      let rest = λ (h : String). verify_from h (suc n) ls in
      if f.is_blank l then rest previous else then_verify rest (check_line previous n (f.parse l))

  unfoldable pub verify : List String → Verdict
  unfolding verify_from check_line
  verify lines = verify_from genesis 1 lines
