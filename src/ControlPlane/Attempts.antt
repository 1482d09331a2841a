-- ===== src/ControlPlane/Attempts.antt =====
-- The attempts of a call in gateway/control_plane/repository.py: what is written is listed.
use mcp_gateway.Base.{
  ◌≤◌, String, ◌≡◌, refl, ◌∙◌, ap, false, List, [], ◌∷◌, ◌++◌, map, arith, ◌==◌, string_eq, nat_eq,
  ==→eq, Bool-cases, inl, inr, append-nil, if◌then◌else◌,
}
use mcp_gateway.Models.{ToolCallRecord, AttemptRecord}
use mcp_gateway.Effect.{ok}
use mcp_gateway.ControlPlane.Rows.{AttemptRow, Database, Engine, transaction}
use mcp_gateway.ControlPlane.Repository.{
  attempt_row, delete_attempts, select_attempts, by_attempt, order_attempts, list_attempts,
  upsert_tool_call,
}

select-append :
    (k : String) (xs ys : List AttemptRow)
    → select_attempts k (xs ++ ys) ≡ select_attempts k xs ++ select_attempts k ys
unfolding select_attempts
select-append k [] ys = refl
select-append k (x ∷ xs) ys = ground (arith, select-append k xs ys)

select-delete_same :
    (k : String) (xs : List AttemptRow) → select_attempts k (delete_attempts k xs) ≡ []
unfolding select_attempts delete_attempts
select-delete_same k [] = refl
select-delete_same k (x ∷ xs) = ground (arith, select-delete_same k xs)

select-delete_other :
    (j k : String) (xs : List AttemptRow)
    → (j == k) ≡ false
    → select_attempts j (delete_attempts k xs) ≡ select_attempts j xs
unfolding select_attempts delete_attempts
select-delete_other j k [] h = refl
select-delete_other j k (x ∷ xs) h = ground (arith, h, select-delete_other j k xs h)

select-rows_same :
    (k : String) (as' : List AttemptRecord)
    → select_attempts k (map (attempt_row k) as') ≡ map (attempt_row k) as'
unfolding select_attempts
select-rows_same k [] = refl
select-rows_same k (a ∷ as') = ground (arith, select-rows_same k as')

select-rows_other :
    (j k : String) (as' : List AttemptRecord)
    → (j == k) ≡ false
    → select_attempts j (map (attempt_row k) as') ≡ []
unfolding select_attempts
select-rows_other j k [] h = refl
select-rows_other j k (a ∷ as') h = ground (arith, h, select-rows_other j k as' h)

-- The numbers of the attempts do not fall.
abbrev pub Ascends : List AttemptRecord → Type 0
Ascends [] = Unit
Ascends (a ∷ []) = Unit
Ascends (a ∷ b ∷ as') = (a.attempt ≤ b.attempt) × Ascends (b ∷ as')

order-Ascends :
    (k : String) (as' : List AttemptRecord)
    → Ascends as'
    → order_attempts (map (attempt_row k) as') ≡ map (attempt_row k) as'
unfolding order_attempts by_attempt
order-Ascends k [] h = refl
order-Ascends k (a ∷ []) h = refl
order-Ascends k (a ∷ b ∷ as') (le, h) = ground (arith, le, order-Ascends k (b ∷ as') h)

module _ (engine : Engine) (r : ToolCallRecord) (s : Database) where
  abbrev rows : List AttemptRow
  rows = map (attempt_row r.call_id) r.attempts

  upsert-attempts :
      (upsert_tool_call engine r s).0 ≡ ok tt
      → (upsert_tool_call engine r s).1.attempts ≡ delete_attempts r.call_id s.attempts ++ rows
  unfolding upsert_tool_call transaction
  upsert-attempts h = ground (arith, h)

  upsert-select :
      (j : String)
      → (upsert_tool_call engine r s).0 ≡ ok tt
      → select_attempts j (upsert_tool_call engine r s).1.attempts
        ≡ select_attempts j (delete_attempts r.call_id s.attempts) ++ select_attempts j rows
  upsert-select j h =
      ap (select_attempts j) (upsert-attempts h)
      ∙ select-append j (delete_attempts r.call_id s.attempts) rows

  selected_same :
      (upsert_tool_call engine r s).0 ≡ ok tt
      → select_attempts r.call_id (upsert_tool_call engine r s).1.attempts ≡ rows
  selected_same h =
      upsert-select r.call_id h
      ∙ ap (λ l. l ++ select_attempts r.call_id rows) (select-delete_same r.call_id s.attempts)
      ∙ select-rows_same r.call_id r.attempts

  selected_other :
      (j : String)
      → (upsert_tool_call engine r s).0 ≡ ok tt
      → (j == r.call_id) ≡ false
      → select_attempts j (upsert_tool_call engine r s).1.attempts ≡ select_attempts j s.attempts
  selected_other j h n =
      upsert-select j h
      ∙ ap (λ l. select_attempts j (delete_attempts r.call_id s.attempts) ++ l)
          (select-rows_other j r.call_id r.attempts n)
      ∙ append-nil _
      ∙ select-delete_other j r.call_id s.attempts n

  pub list_attempts-upsert_tool_call :
      (call_id : String)
      → (upsert_tool_call engine r s).0 ≡ ok tt
      → Ascends r.attempts
      → list_attempts call_id (upsert_tool_call engine r s).1 ≡ (
          if call_id == r.call_id
          then map (attempt_row r.call_id) r.attempts
          else list_attempts call_id s)
  unfolding list_attempts
  list_attempts-upsert_tool_call j h a = elim (Bool-cases (j == r.call_id)) [
    | inl same ↦
        ground (
          arith,
          same,
          ==→eq j r.call_id same,
          selected_same h,
          order-Ascends r.call_id r.attempts a,
        )
    | inr differ ↦ ground (arith, differ, selected_other j h differ)
  ]
