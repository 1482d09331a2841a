-- ===== src/Repair/Loop/Guarded.antt =====
-- What the repair loop guarantees of a state, from what its executor and repairer do.
use mcp_gateway.Base.{ℕ, zero, suc, ◌+◌, false, not, ◌&&◌, ltb, leb, Option}
use mcp_gateway.Base.{◌==◌}
use mcp_gateway.Base.Json.{Fields}
use mcp_gateway.Models.{risk_class_eq, repair_failure_eq, policy_denied}
use mcp_gateway.Errors.{Exn}
use mcp_gateway.Effect.{Result, ok, raise, cut_off, Exec, pure, lift, reads}
use mcp_gateway.Effect.Guards.{
  Guards, post, After, Guards-pure, Guards-throw, Guards-if, Guards-bind, Guards-modify,
}
use mcp_gateway.Repair.Diagnose.{FailureDiagnosis, diagnose}
use mcp_gateway.Repair.Backoff.{BackoffPolicy, delay, nanoseconds}
use mcp_gateway.Repair.Loop.{RepairContext, Timing, can_retry, give_up, ask, repair, recover}
use mcp_gateway.Repair.Loop.{settle, attempts_from, run, transient, mutates}

-- `P` does not depend on the clock, the random source or `sleep`.
pub record IsTimeless {S : Type 0} (timing : Timing S) (P : S → Type 0) : Type 0 where
  pub monotonic : (s : S) → P s → P (timing.monotonic s).1
  pub uniform : (s : S) → P s → P (timing.uniform s).1
  pub sleep : (t : ℕ) (s : S) → P s → P (timing.sleep t s)

Guards-reads :
    {S A : Type 0} {P E D : S → Type 0} (f : S → A × S)
    → ((s : S) → P s → P (f s).1)
    → Guards P (reads f) (post (λ a. P) E D)
unfolding reads
Guards-reads f h = record { at = h }

module _ {S Output : Type 0} (policy : BackoffPolicy) (timing : Timing S) (context : RepairContext)
    (executor : Fields → Exec S Output)
    (repairer : Option (Fields → FailureDiagnosis → Exec S Fields)) {Safe Done : S → Type 0}
    -- Before a call of the executor, and after one that raised.
    (Before Failed : Fields → S → Type 0)
    (Before-timeless : (c : Fields) → IsTimeless timing (Before c))
    (failed-timeless : (c : Fields) → IsTimeless timing (Failed c))
    (before-safe : (c : Fields) (s : S) → Before c s → Safe s)
    (failed-safe : (c : Fields) (s : S) → Failed c s → Safe s)
    (failed-before : (c : Fields) (s : S) → Failed c s → Before c s)
    (executor-Guards : (c : Fields)
      → Guards (Before c) (executor c) (post (λ out. Done) (Failed c) Safe))
    (ask-Guards : (c : Fields) (d : FailureDiagnosis) (e : Exn)
      → Guards (Failed c) (ask repairer c d e) (post Before Safe Safe)) where
  can_retry-Guards :
      (c : Fields) (d : FailureDiagnosis) (attempt started : ℕ)
      → Guards
          (Failed c)
          (can_retry policy timing context executor repairer d attempt started)
          (post (λ b. Failed c) Safe Safe)
  unfolding can_retry
  can_retry-Guards c d attempt started =
      Guards-if (d.category == policy_denied) _ _ (Guards-pure false λ s p. p) (
        Guards-if (leb policy.max_attempts attempt) _ _ (Guards-pure false λ s p. p) (
          Guards-bind _ _ (Guards-reads _ (failed-timeless c).monotonic) λ now.
            Guards-if (leb (nanoseconds policy.max_total_seconds + started) now) _ _
              (Guards-pure false λ s p. p)
              (Guards-if (mutates context && not context.idempotent) _ _
                (Guards-pure false λ s p. p) (Guards-pure _ λ s p. p))))

  give_up-Guards :
      (c : Fields) (d : FailureDiagnosis) (e : Exn)
      → Guards
          (Failed c)
          (give_up policy timing context executor repairer d e)
          (post (λ out. Done) Safe Safe)
  unfolding give_up
  give_up-Guards c d e =
      Guards-if (transient d.category && mutates context) _ _ (Guards-throw _ (failed-safe c))
        (Guards-throw e (failed-safe c))

  repair-Guards :
      (c : Fields) (d : FailureDiagnosis) (e : Exn)
      → Guards
          (Failed c)
          (repair policy timing context executor repairer c d e)
          (post Before Safe Safe)
  unfolding repair
  repair-Guards c d e =
      Guards-if (transient d.category) _ _ (Guards-pure c (failed-before c)) (ask-Guards c d e)

  recover-Guards :
      (again : Fields → ℕ → Exec S (Output × ℕ)) (c : Fields) (attempt started : ℕ) (e : Exn)
      → ((c : Fields) (n : ℕ) → Guards (Before c) (again c n) (post (λ out. Done) Safe Safe))
      → Guards
          (Failed c)
          (recover policy timing context executor repairer again c attempt started e)
          (post (λ out. Done) Safe Safe)
  unfolding recover
  recover-Guards again c attempt started e next =
      Guards-bind _ _ (can_retry-Guards c (diagnose e) attempt started) λ retry.
        Guards-if (not retry) _ _ (give_up-Guards c (diagnose e) e) (
          Guards-bind _ _ (repair-Guards c (diagnose e) e) λ c'.
            Guards-bind _ _ (Guards-reads _ (Before-timeless c').uniform) λ draw.
              Guards-bind _ _ (Guards-reads _ (Before-timeless c').monotonic) λ now.
                Guards-if
                  (ltb (nanoseconds policy.max_total_seconds + started)
                    (now + delay policy attempt draw))
                  _ _ (Guards-throw e (before-safe c'))
                  (Guards-bind {Q = λ u. Before c'} _ _
                    (Guards-modify _ ((Before-timeless c').sleep (delay policy attempt draw)))
                    λ u. next c' (suc attempt)))

  settle-Guards :
      (again : Fields → ℕ → Exec S (Output × ℕ)) (c : Fields) (attempt started : ℕ)
      (r : Result Output) (s : S)
      → ((c : Fields) (n : ℕ) → Guards (Before c) (again c n) (post (λ out. Done) Safe Safe))
      → After (post (λ out. Done) (Failed c) Safe) (r, s)
      → After
          (post (λ out. Done) Safe Safe)
          (settle policy timing context executor repairer again c attempt started r s)
  unfolding pure lift
  settle-Guards again c attempt started (ok out) s next p = p
  settle-Guards again c attempt started (raise e) s next p =
      (recover-Guards again c attempt started e next).at s p
  settle-Guards again c attempt started cut_off s next p = p

  attempts_from-Guards :
      (fuel : ℕ) (c : Fields) (attempt started : ℕ)
      → Guards
          (Before c)
          (attempts_from policy timing context executor repairer fuel c attempt started)
          (post (λ out. Done) Safe Safe)
  unfolding attempts_from
  attempts_from-Guards zero c attempt started = record { at = before-safe c }
  attempts_from-Guards (suc fuel) c attempt started = record {
    at = λ s p.
        let (r, s') = executor c s in
        settle-Guards _ c attempt started r s' (λ c' n. attempts_from-Guards fuel c' n started)
          ((executor-Guards c).at s p);
  }

  pub run-Guards :
      (c : Fields)
      → Guards
          (Before c)
          (run policy timing context executor repairer c)
          (post (λ out. Done) Safe Safe)
  unfolding run
  run-Guards c =
      Guards-bind _ _ (Guards-reads _ (Before-timeless c).monotonic)
        λ started. attempts_from-Guards (suc policy.max_attempts) c 1 started
