-- ===== src/Pipeline/Tracked/Blocks.antt =====
-- What blocks of gateway/server.py do to the state of a call, read from the world of the call.
use mcp_gateway.Base.{◌⊎◌, inl, inr, string_eq}
use mcp_gateway.Models.{ToolCallState}
use mcp_gateway.Effect.{Result, ok, raise, cut_off, Exec, reads}
use mcp_gateway.Effect.Keeps.{Keeps, Keeps-reads}
use mcp_gateway.Effect.Guards.{Guards, Post, post, After}
use mcp_gateway.Pipeline.Call.{Call, on_world}
use mcp_gateway.Pipeline.Tracked.{IsReady, IsSteady, IsStill}

module _ {W : Type 0} (At : ToolCallState → W → Type 0) where
  abbrev pub In : ToolCallState → Call W → Type 0
  In a c = At a c.world

  -- In some state.
  abbrev pub Somewhere : Call W → Type 0
  Somewhere c = (a : ToolCallState) × In a c

  abbrev pub Ready : Call W → Type 0
  Ready c = (a : ToolCallState) × IsReady a × In a c

  abbrev pub reaches : {A : Type 0} → (A → Call W → Type 0) → Post (Call W) A
  reaches q = post q Somewhere Somewhere

  steady_After :
      {A : Type 0} (a : ToolCallState) (r : Result A) (c : Call W)
      → In a c
      → After (reaches λ x. In a) (r, c)
  steady_After a (ok x) c p = p
  steady_After a (raise e) c p = (a, p)
  steady_After a cut_off c p = (a, p)

  -- A block that keeps the state.
  pub Guards-steady :
      {A : Type 0} {a : ToolCallState} (m : Exec (Call W) A)
      → Keeps (In a) m
      → Guards (In a) m (reaches λ x. In a)
  Guards-steady {a = a} m k = record {
    at = λ c p. let (r, c') = m c in steady_After a r c' (k.at c p);
  }

  held_After :
      {A : Type 0} (a : ToolCallState) (r : Result A) (c : Call W)
      → In a c
      → After (post (λ x. In a) (In a) Somewhere) (r, c)
  held_After a (ok x) c p = p
  held_After a (raise e) c p = p
  held_After a cut_off c p = (a, p)

  -- The same, where the state after an exception matters.
  pub held :
      {A : Type 0} {a : ToolCallState} (m : Exec (Call W) A)
      → Keeps (In a) m
      → Guards (In a) m (post (λ x. In a) (In a) Somewhere)
  held {a = a} m k = record { at = λ c p. let (r, c') = m c in held_After a r c' (k.at c p) }

  pub on_world-steady :
      {A : Type 0} {a : ToolCallState} (m : Exec W A) → IsSteady At m → Keeps (In a) (on_world m)
  unfolding on_world
  on_world-steady {a = a} m k = record { at = λ c p. (k a).at c.world p }

  pub on_world-still :
      {A : Type 0} {a : ToolCallState} (f : W → A × W)
      → IsStill At f
      → Keeps (In a) (on_world (reads f))
  on_world-still f k = on_world-steady (reads f) λ a. Keeps-reads f (k a)

  pub stepped :
      (a s : ToolCallState) (c : Call W) (r : Result (Unit {0})) (w : W)
      → After (post (λ u. At s) (λ w. At a w ⊎ At s w) (λ w. At a w ⊎ At s w)) (r, w)
      → After
          (post (λ u. In s) (λ c. In a c ⊎ In s c) (λ c. In a c ⊎ In s c))
          (r, record c { world = w })
  stepped a s c (ok u) w p = p
  stepped a s c (raise e) w p = p
  stepped a s c cut_off w p = p

  pub either : (a s : ToolCallState) (c : Call W) → In a c ⊎ In s c → Somewhere c
  either a s c (inl p) = (a, p)
  either a s c (inr p) = (s, p)
