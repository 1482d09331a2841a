-- ===== src/Pipeline/Safety/Attempt.antt =====
-- Each attempt of gateway/server.py runs its tool on a granted request only.
use mcp_gateway.Base.{ℕ, ◌≤◌, String, ◌≡◌, refl, sym, none, some, arith, ltb}
use mcp_gateway.Base.{Bool-cases, inl, inr, ◌==◌, string_eq, ==→eq, if◌then◌else◌}
use mathlib.Core.Path.{subst}
use mcp_gateway.Base.Json.{Fields}
use mcp_gateway.Models.{ToolCallState}
use mcp_gateway.Errors.{Exn, gateway, other, message}
use mcp_gateway.Effect.{Result, ok, raise, cut_off, Exec, pure, reads, modify, ◌>>=◌, ◌>>◌}
use mcp_gateway.Effect.Guards.{Guards, post, After, Guards-pure, Guards-throw, Guards-gets}
use mcp_gateway.Effect.Guards.{
  Guards-catch, Guards-lift, Guards-modify, Guards-bind, Guards-weaken, Guards-finally,
}
use mcp_gateway.Policy.{allow}
use mcp_gateway.Registry
use mcp_gateway.Registry.Tool.{ToolDefinition}
use mcp_gateway.Pipeline.Services.{Services}
use mcp_gateway.Pipeline.Call.{Request, Call, on_world, input_of, change_repair}
use mcp_gateway.Pipeline.Phases.{transition}
use mcp_gateway.Pipeline.Attempts.{
  recheck, denied_repair, run_tool, attempt_body, failed_attempt, execute_attempt,
}
use mcp_gateway.Pipeline.Guarded.{Fact, safe, granted, IsQuiet, IsGuarded, IsStable}
use mcp_gateway.Pipeline.Safety.{Alive, Live, returns, establishes, finish_attempt-Guards}

module _ {W : Type 0} (services : Services W) (call : Request) (K : Fact → W → Type 0)
    (guarded : IsGuarded K services) (stable : IsStable services.registry) where
  open services use {registry}

  -- What the tool would be run on is granted.
  abbrev pub Allowed : Fields → W → Type 0
  Allowed a w =
      (r : Fields)
      → Registry.validate registry call.tool_name a ≡ ok r
      → K (granted call.tool_name r) w

  -- Before an attempt: a first one is allowed.
  abbrev pub Before : Fields → Call W → Type 0
  Before a c = Alive K c × (c.latest_attempt ≤ 1 → Allowed a c.world)

  one_request :
      (a r q : Fields)
      → Registry.validate registry call.tool_name a ≡ ok r
      → Registry.validate registry call.tool_name a ≡ ok q
      → q ≡ r
  one_request a r q e h = ground arith

  denied_repair-Guards :
      {A : Type 0} (Q : A → Call W → Type 0)
      → Guards (Alive K) (denied_repair services call {A = A}) (returns K Q)
  denied_repair-Guards Q =
      Guards-bind {Q = λ u. Alive K} _ _ (Guards-modify _ λ s p. p) λ u. Guards-throw _ λ s p. p

  -- A later attempt is granted its request, or it is not run.
  recheck-Guards :
      (t : ToolDefinition) (a : Fields)
      → Guards
          (Alive K)
          (recheck services call t a)
          (returns K λ u c. Alive K c × Allowed a c.world)
  unfolding recheck
  recheck-Guards t a =
      Guards-bind {Q = λ r c. Alive K c × (Registry.validate registry call.tool_name a ≡ ok r)} _ _
        (Guards-lift _ (λ r e s p. (p, e)) (λ s p. p) (λ s p. p))
        λ r. record { at = λ s p. (checked r p.1).at s (p.0, p.0.0) }
    where
      decided :
          (r : Fields) (outcome : String)
          → Registry.validate registry call.tool_name a ≡ ok r
          → Guards
              (λ c. Live K safe c × (outcome ≡ allow → K (granted call.tool_name r) c.world))
              (if outcome == allow then pure tt else denied_repair services call)
              (returns K λ u c. Alive K c × Allowed a c.world)
      decided r outcome v = elim (Bool-cases (outcome == allow)) [
        | inl e ↦ rw e (
            Guards-pure tt λ s p. (
              p.0.0,
              λ q h.
                  subst (λ (x : Fields). K (granted call.tool_name x) s.world)
                    (sym (one_request a r q v h)) (p.1 (==→eq outcome allow e)),
            ))
        | inr e ↦
            rw e (Guards-weaken (λ s p. p.0.0) (λ x s p. p) (λ s p. p) (denied_repair-Guards _))
      ]

      checked :
          (r : Fields)
          → Registry.validate registry call.tool_name a ≡ ok r
          → Guards
              (Live K safe)
              (do
                decision ← on_world (services.evaluate (input_of call t r))
                modify (change_repair λ x. record x { policy_outcome = some decision.outcome })
                if decision.outcome == allow then pure tt else denied_repair services call)
              (returns K λ u c. Alive K c × Allowed a c.world)
      checked r v =
          Guards-bind _ _
            (establishes K (λ d w. d.outcome ≡ allow → K (granted call.tool_name r) w) safe _
              (guarded.evaluate _) λ d w w' k e h. guarded.allowed call t r d w w' e h)
            λ d.
              Guards-bind
                {Q = λ u c.
                  Live K safe c × (d.outcome ≡ allow → K (granted call.tool_name r) c.world)}
                _ _ (Guards-modify _ λ s p. p) λ u. decided r d.outcome v

  -- The tool starts on the validated arguments, which are granted.
  run_tool-Guards :
      (a : Fields)
      → Guards
          (λ c. Alive K c × Allowed a c.world)
          (run_tool services call a)
          (returns K λ r. Live K safe)
  unfolding run_tool reads on_world
  run_tool-Guards a =
      Guards-bind {Q = λ r c. Alive K c × K (granted call.tool_name r) c.world} _ _
        (Guards-lift _ (λ r e s p. (p.0, p.1 r e)) (λ s p. p.0) (λ s p. p.0))
        λ r.
          Guards-bind {Q = λ n. Live K safe} _ _
            (record {
              at = λ s p.
                  let k = guarded.start_tool call.tool_name r s.world p.1 safe p.0.0 in
                  ((k, p.0.1), k);
            })
            λ n. Guards-lift _ (λ x e s p. p) (λ s p. p.0) (λ s p. p.0)

  checked_or_first :
      (t : ToolDefinition) (n : ℕ) (a : Fields)
      → Guards
          (λ c. Before a c × (n ≡ c.latest_attempt))
          (if ltb 1 n then recheck services call t a else pure tt)
          (returns K λ u c. Alive K c × Allowed a c.world)
  checked_or_first t n a = elim (Bool-cases (ltb 1 n)) [
    | inl e ↦ rw e (Guards-weaken (λ s p. p.0.0) (λ x s p. p) (λ s p. p) (recheck-Guards t a))
    | inr e ↦ rw e (Guards-pure tt λ s p. (p.0.0, p.0.1 (ground (arith, e, p.1))))
  ]

  attempt_body-Guards :
      (t : ToolDefinition) (n : ℕ) (a : Fields)
      → Guards
          (λ c. Before a c × (n ≡ c.latest_attempt))
          (attempt_body services call t n a)
          (returns K λ r. Live K safe)
  unfolding attempt_body
  attempt_body-Guards t n a = Guards-bind _ _ (checked_or_first t n a) λ u.
      Guards-bind _ _ (run_tool-Guards a) λ r.
        Guards-bind _ _ (finish_attempt-Guards services call K guarded stable n "succeeded" none)
          λ u. Guards-pure r λ s p. p

  failed_attempt-Guards :
      (n : ℕ) (e : Exn)
      → Guards (Alive K) (failed_attempt services call n e) (returns K λ r. Live K safe)
  failed_attempt-Guards n (gateway e) =
      Guards-weaken {P = Live K safe} (λ s p. (p, p.0)) (λ r s p. p) (λ s p. p)
        (Guards-bind _ _
          (finish_attempt-Guards services call K guarded stable n "failed" (some (message e)))
          λ u. Guards-throw (gateway e) λ s p. p.0)
  failed_attempt-Guards n (other m) = Guards-throw (other m) λ s p. p

  -- The store's operations before the `try` keep what an attempt needs; where they raise, `Raised` is
  -- asked of them.
  Before-quiet :
      (Raised : Call W → Type 0) (n : ℕ) (a : Fields) (m : Exec W (Unit {0}))
      → IsQuiet K m
      → ((c : Call W) (x : Exn) (w : W)
          → m c.world ≡ (raise x, w)
          → n ≡ c.latest_attempt
          → Before a (record c { world = w })
          → Raised (record c { world = w }))
      → Guards
          (λ c. Before a c × (n ≡ c.latest_attempt))
          (on_world m)
          (post (λ u c. Before a c × (n ≡ c.latest_attempt)) Raised (Alive K))
  unfolding on_world
  Before-quiet Raised n a m q raised = record {
    at = λ c p.
        let (r, w) = m c.world in
        after c r w refl p.1 (
          ((q safe).at c.world p.0.0.0, p.0.0.1),
          λ one r v. (q (granted call.tool_name r)).at c.world (p.0.1 one r v),
        );
  }
    where
      after :
          (c : Call W) (r : Result (Unit {0})) (w : W)
          → m c.world ≡ (r, w)
          → n ≡ c.latest_attempt
          → Before a (record c { world = w })
          → After
              (post (λ u c. Before a c × (n ≡ c.latest_attempt)) Raised (Alive K))
              (r, record c { world = w })
      after c (ok u) w m e p = (p, e)
      after c (raise x) w m e p = raised c x w m e p
      after c cut_off w m e p = p.0

  start_attempt-Guards :
      (Raised : Call W → Type 0) (n : ℕ) (a : Fields)
      → ((c : Call W) → Alive K c → 2 ≤ c.latest_attempt → Raised c)
      → Guards
          (λ c. Before a c × (n ≡ c.latest_attempt))
          (if ltb 1 n then on_world (services.store.start_attempt call.call_id n) else pure tt)
          (post (λ u c. Before a c × (n ≡ c.latest_attempt)) Raised (Alive K))
  start_attempt-Guards Raised n a later = elim (Bool-cases (ltb 1 n)) [
    | inl e ↦ rw e (
        Before-quiet Raised n a _ (guarded.store.start_attempt call.call_id n)
          λ c x w m h p. later (record c { world = w }) p.0 (ground (arith, e, h)))
    | inr e ↦ rw e (Guards-pure tt λ s p. p)
  ]

  -- Every attempt leaves every tool that ran allowed. After one that raises, `Raised` holds if it
  -- holds of later attempts and where the store raises in the transition to the attempt.
  pub execute_attempt-Guards :
      (Raised : Call W → Type 0) (t : ToolDefinition) (a : Fields)
      → ((c : Call W) → Alive K c → 2 ≤ c.latest_attempt → Raised c)
      → ((c : Call W) (x : Exn) (w : W)
          → services.store.transition call.call_id ToolCallState.executing none c.world
            ≡ (raise x, w)
          → Before a (record c { world = w })
          → Raised (record c { world = w }))
      → Guards (Before a) (execute_attempt services call t a) (post (λ r. Alive K) Raised (Alive K))
  unfolding execute_attempt transition
  execute_attempt-Guards Raised t a later unmoved =
      Guards-bind {Q = λ n c. Before a c × (n ≡ c.latest_attempt)} _ _
        (Guards-gets _ λ s p. (p, refl))
        λ n.
          Guards-bind {Q = λ u c. Before a c × (n ≡ c.latest_attempt)} _ _
            (start_attempt-Guards Raised n a later)
            λ u.
              Guards-bind {Q = λ u c. Before a c × (n ≡ c.latest_attempt)} _ _
                (Before-quiet Raised n a _
                  (guarded.store.transition call.call_id ToolCallState.executing none)
                  λ c x w m e p. unmoved c x w m p)
                λ u.
                  Guards-finally {E = Alive K} {Q = λ r. Live K safe} _ _
                    (λ r s p. (p.0.0, omega (arith, p.0.1)))
                    (λ s p. later _ (p.0, omega (arith, p.1)) (omega (arith, p.1)))
                    (Guards-catch {E' = Alive K} _ _ (attempt_body-Guards t n a)
                      (failed_attempt-Guards n))
