-- ===== src/Store/Memory/Laws.antt =====
-- What the operations of `InMemoryStateStore` keep, and what they change.
use mcp_gateway.Base.{ℕ, String, true, ◌≡◌, refl, Option, none, some}
use mcp_gateway.Base.{List, [], ◌∷◌, ◌++◌, All, All-append, is_some, or_default, arith}
use mcp_gateway.Base.{string_eq}
use mcp_gateway.Base.Dict.{
  lookup, insert, lookup-insert, lookup-nil, every-insert, lookup-insert_self,
}
use mcp_gateway.Models.{ToolCallRecord, ToolCallState, StateTransition}
use mcp_gateway.Effect.{Result, ok, raise, cut_off, Exec}
use mcp_gateway.Effect.Keeps.{Keeps}
use mcp_gateway.Store.Updates.{add_transition, end_attempt, add_attempt}
use mcp_gateway.Store.Memory.{
  MemoryStore, empty_store, create_call, write_back, update_found, update,
}
use mcp_gateway.Store.Memory.{transition, finish_attempt, start_attempt}

abbrev pub last_state : List StateTransition → Option ToolCallState
last_state [] = none
last_state (t ∷ []) = some t.state
last_state (t ∷ u ∷ ts) = last_state (u ∷ ts)

last_state-append :
    (ts : List StateTransition) (t : StateTransition) → last_state (ts ++ t ∷ []) ≡ some t.state
last_state-append [] t = refl
last_state-append (a ∷ []) t = refl
last_state-append (a ∷ b ∷ ts) t = last_state-append (b ∷ ts) t

-- The current state is that of the last transition.
abbrev pub IsCurrent : ToolCallRecord → Type 0
IsCurrent r = last_state r.transitions ≡ some r.current_state

pub record IsWellFormed (s : MemoryStore) : Type 0 where
  pub current : (k : String) (r : ToolCallRecord) → lookup k s.calls ≡ some r → IsCurrent r
  -- What a session lists is a call.
  pub indexed :
      (session : String) (ids : List String)
      → lookup session s.sessions ≡ some ids
      → All (λ (id : String). is_some (lookup id s.calls) ≡ true) ids

pub empty-IsWellFormed : IsWellFormed empty_store
empty-IsWellFormed = record {
  current = λ k r h. absurd (cc (lookup-nil {V = ToolCallRecord} k));
  indexed = λ k r h. absurd (cc (lookup-nil {V = List String} k));
}

-- More calls index as many identifiers.
indexed-insert :
    (s : MemoryStore) (k : String) (r : ToolCallRecord) (ids : List String)
    → All (λ (id : String). is_some (lookup id s.calls) ≡ true) ids
    → All (λ (id : String). is_some (lookup id (insert k r s.calls)) ≡ true) ids
indexed-insert s k r [] h = tt
indexed-insert s k r (id ∷ ids) h =
    (ground (arith, lookup-insert id k r s.calls), indexed-insert s k r ids h.1)

put-IsWellFormed :
    (s : MemoryStore) (k : String) (r : ToolCallRecord)
    → IsCurrent r
    → IsWellFormed s
    → IsWellFormed (record s { calls = insert k r s.calls })
put-IsWellFormed s k r c w = record {
  current = every-insert IsCurrent s.calls k r w.current c;
  indexed = λ session ids h. indexed-insert s k r ids (w.indexed session ids h);
}

listed :
    (s : MemoryStore) (session : String)
    → IsWellFormed s
    → All
        (λ (id : String). is_some (lookup id s.calls) ≡ true)
        (or_default (lookup session s.sessions) [])
listed s session w = go (lookup session s.sessions) refl
  where
    go :
        (o : Option (List String))
        → lookup session s.sessions ≡ o
        → All (λ (id : String). is_some (lookup id s.calls) ≡ true) (or_default o [])
    go none h = tt
    go (some ids) h = w.indexed session ids h

create_call-IsWellFormed : (r : ToolCallRecord) → IsCurrent r → Keeps IsWellFormed (create_call r)
unfolding create_call
create_call-IsWellFormed r c = record {
  at = λ s w. record {
    current = every-insert IsCurrent s.calls r.call_id r w.current c;
    indexed =
        every-insert
          (All (λ (id : String). is_some (lookup id (insert r.call_id r s.calls)) ≡ true))
          s.sessions r.session_id _
          (λ session ids h. indexed-insert s r.call_id r ids (w.indexed session ids h))
          (All-append _ (or_default (lookup r.session_id s.sessions) []) (r.call_id ∷ [])
            (indexed-insert s r.call_id r _ (listed s r.session_id w))
            (rw lookup-insert_self refl, tt));
  };
}

module _ (updater : ToolCallRecord → Result ToolCallRecord) where
  -- An updater leaves a record's current state that of its last transition.
  abbrev KeepsCurrent : Type 0
  KeepsCurrent = (r r' : ToolCallRecord) → IsCurrent r → updater r ≡ ok r' → IsCurrent r'

  write_back-IsWellFormed :
      (k : String) (r : ToolCallRecord) (u : Result ToolCallRecord) (s : MemoryStore)
      → KeepsCurrent
      → IsCurrent r
      → updater r ≡ u
      → IsWellFormed s
      → IsWellFormed (write_back k u s).1
  write_back-IsWellFormed k r (ok r') s keeps c e w = put-IsWellFormed s k r' (keeps r r' c e) w
  write_back-IsWellFormed k r (raise x) s keeps c e w = w
  write_back-IsWellFormed k r cut_off s keeps c e w = w

  update_found-IsWellFormed :
      (k : String) (o : Option ToolCallRecord) (s : MemoryStore)
      → KeepsCurrent
      → lookup k s.calls ≡ o
      → IsWellFormed s
      → IsWellFormed (update_found updater k o s).1
  update_found-IsWellFormed k none s keeps e w = w
  update_found-IsWellFormed k (some r) s keeps e w =
      write_back-IsWellFormed k r (updater r) s keeps (w.current k r e) refl w

  update-IsWellFormed : (k : String) → KeepsCurrent → Keeps IsWellFormed (update k updater)
  unfolding update
  update-IsWellFormed k keeps = record {
    at = λ s w. update_found-IsWellFormed k (lookup k s.calls) s keeps refl w;
  }

transition-IsWellFormed :
    (now : ℕ) (k : String) (state : ToolCallState) (error : Option String)
    → Keeps IsWellFormed (transition now k state error)
unfolding transition add_transition
transition-IsWellFormed now k state error =
    update-IsWellFormed (λ r. ok (add_transition now state error r)) k
      λ r r' c e. ground (
        arith,
        last_state-append r.transitions (record { state = state; timestamp = now; error = error }),
      )

finish_attempt-IsWellFormed :
    (t u : ℕ) (k : String) (n : ℕ) (outcome : String) (error : Option String)
    → Keeps IsWellFormed (finish_attempt t u k n outcome error)
unfolding finish_attempt end_attempt
finish_attempt-IsWellFormed t u k n outcome error =
    update-IsWellFormed (end_attempt t u n outcome error) k λ r r' c e. ground arith

start_attempt-IsWellFormed :
    (t u : ℕ) (k : String) (n : ℕ) → Keeps IsWellFormed (start_attempt t u k n)
unfolding start_attempt add_attempt
start_attempt-IsWellFormed t u k n =
    update-IsWellFormed (λ r. ok (add_attempt t u n r)) k λ r r' c e. ground arith

-- A client's calls of the operations that write.
pub data Operation : Type 0 where
  create : ToolCallRecord → Operation
  move : ℕ → String → ToolCallState → Option String → Operation
  finish : ℕ → ℕ → String → ℕ → String → Option String → Operation
  start : ℕ → ℕ → String → ℕ → Operation

abbrev pub perform : Operation → Exec MemoryStore (Unit {0})
perform (create r) = create_call r
perform (move now k state error) = transition now k state error
perform (finish t u k n outcome error) = finish_attempt t u k n outcome error
perform (start t u k n) = start_attempt t u k n

-- An operation that raises leaves its client to go on.
abbrev pub perform_all : List Operation → MemoryStore → MemoryStore
perform_all [] s = s
perform_all (o ∷ os) s = perform_all os (perform o s).1

-- Calls are created in the state of their last transition.
abbrev pub Created : Operation → Type 0
Created (create r) = IsCurrent r
Created _ = Unit

perform-IsWellFormed : (o : Operation) → Created o → Keeps IsWellFormed (perform o)
perform-IsWellFormed (create r) c = create_call-IsWellFormed r c
perform-IsWellFormed (move now k state error) c = transition-IsWellFormed now k state error
perform-IsWellFormed (finish t u k n outcome error) c =
    finish_attempt-IsWellFormed t u k n outcome error
perform-IsWellFormed (start t u k n) c = start_attempt-IsWellFormed t u k n

-- From a well-formed store, after any operations that create calls in the state of their last
-- transition, and whether or not operations raise, every record's current state is that of its last
-- transition, and every identifier that a session lists is that of a stored call.
pub perform_all-IsWellFormed :
    (os : List Operation) (s : MemoryStore)
    → All Created os
    → IsWellFormed s
    → IsWellFormed (perform_all os s)
perform_all-IsWellFormed [] s c w = w
perform_all-IsWellFormed (o ∷ os) s c w =
    perform_all-IsWellFormed os _ c.1 ((perform-IsWellFormed o c.0).at s w)
