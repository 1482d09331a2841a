-- ===== src/Repair/Loop/Ends.antt =====
-- The repair loop ends: its fuel is never used up.
use mcp_gateway.Base.{ℕ, zero, suc, ◌+◌, ◌<◌, ◌≡◌, true, false, arith}
use mcp_gateway.Base.{Option, none, some, leb, Bool-cases, inl, inr, ◌==◌}
use mcp_gateway.Base.Json.{Fields}
use mcp_gateway.Models.{policy_denied, repair_failure_eq}
use mcp_gateway.Errors.{Exn}
use mcp_gateway.Effect.{Result, ok, raise, cut_off, Exec, pure, is_cut_off, pure-bind}
use mcp_gateway.Effect.Ends.{
  Ends, ends_rules, Ends-throw, Ends-if, Ends-pure, Ends-bind, Ends-reads,
}
use mcp_gateway.Repair.Diagnose.{FailureDiagnosis, diagnose}
use mcp_gateway.Repair.Backoff.{BackoffPolicy}
use mcp_gateway.Repair.Loop.{
  RepairContext, Timing, can_retry, give_up, ask, repair, recover, settle,
}
use mcp_gateway.Repair.Loop.{attempts_from, run, transient}

-- The repairer, if there is one, ends.
abbrev pub RepairerEnds : {S : Type 0} → Option (Fields → FailureDiagnosis → Exec S Fields) → Type 0
RepairerEnds none = Unit
RepairerEnds {S} (some propose) = (c : Fields) (d : FailureDiagnosis) → Ends (propose c d)

ask-Ends :
    {S : Type 0} (repairer : Option (Fields → FailureDiagnosis → Exec S Fields)) (current : Fields)
    (d : FailureDiagnosis) (e : Exn)
    → RepairerEnds repairer
    → Ends (ask repairer current d e)
unfolding ask
ask-Ends none current d e ends = Ends-throw e
ask-Ends (some propose) current d e ends = ends current d

module _ {S Output : Type 0} (policy : BackoffPolicy) (timing : Timing S) (context : RepairContext)
    (executor : Fields → Exec S Output)
    (repairer : Option (Fields → FailureDiagnosis → Exec S Fields)) where
  -- The last attempt is not retried.
  pub last-can_retry :
      (d : FailureDiagnosis) (attempt started : ℕ)
      → leb policy.max_attempts attempt ≡ true
      → can_retry policy timing context executor repairer d attempt started ≡ pure false
  unfolding can_retry
  last-can_retry d attempt started h = elim (Bool-cases (d.category == policy_denied)) [
    | inl e ↦ rw e
    | inr e ↦ rw (e, h)
  ]

  can_retry-Ends :
      (d : FailureDiagnosis) (attempt started : ℕ)
      → Ends (can_retry policy timing context executor repairer d attempt started)
  unfolding can_retry
  can_retry-Ends d attempt started = search ends_rules depth 9

  give_up-Ends :
      (d : FailureDiagnosis) (e : Exn) → Ends (give_up policy timing context executor repairer d e)
  unfolding give_up
  give_up-Ends d e = search ends_rules

  repair-Ends :
      (current : Fields) (d : FailureDiagnosis) (e : Exn)
      → RepairerEnds repairer
      → Ends (repair policy timing context executor repairer current d e)
  unfolding repair
  repair-Ends current d e ends =
      Ends-if (transient d.category) _ _ (Ends-pure current) (ask-Ends repairer current d e ends)

  recover-Ends :
      (again : Fields → ℕ → Exec S (Output × ℕ)) (current : Fields) (attempt started : ℕ) (e : Exn)
      → RepairerEnds repairer
      → (leb policy.max_attempts attempt ≡ false → (c : Fields) → Ends (again c (suc attempt)))
      → Ends (recover policy timing context executor repairer again current attempt started e)
  unfolding recover
  recover-Ends again current attempt started e ends next =
      elim (Bool-cases (leb policy.max_attempts attempt)) [
        | inl h ↦
            rw (last-can_retry (diagnose e) attempt started h, pure-bind)
              (give_up-Ends (diagnose e) e)
        | inr h ↦ search (ends_rules, can_retry-Ends, give_up-Ends, repair-Ends) depth 12
      ]

  module _ (executor-Ends : (c : Fields) → Ends (executor c)) (ends : RepairerEnds repairer) where
    settle-Ends :
        (again : Fields → ℕ → Exec S (Output × ℕ)) (current : Fields) (attempt started : ℕ)
        (r : Result Output)
        → is_cut_off r ≡ false
        → (leb policy.max_attempts attempt ≡ false → (c : Fields) → Ends (again c (suc attempt)))
        → Ends (settle policy timing context executor repairer again current attempt started r)
    settle-Ends again current attempt started (ok out) h next = Ends-pure (out, attempt)
    settle-Ends again current attempt started (raise e) h next =
        recover-Ends again current attempt started e ends next
    settle-Ends again current attempt started cut_off h next = absurd (cc h)

    attempts_from-Ends :
        (fuel : ℕ) (current : Fields) (attempt started : ℕ)
        → policy.max_attempts < fuel + attempt
        → 0 < fuel
        → Ends (attempts_from policy timing context executor repairer fuel current attempt started)
    unfolding attempts_from
    attempts_from-Ends zero current attempt started h p = elim p [ ]
    attempts_from-Ends (suc fuel) current attempt started h p = record {
      at = λ s.
          let (r, s') = executor current s in
          (settle-Ends _ current attempt started r ((executor-Ends current).at s) (λ more c.
              attempts_from-Ends fuel c (suc attempt) started (omega arith) (ground arith))).at
            s';
    }

    -- If the executor and the repairer end, then so does `run`: the fuel that it is given is enough.
    pub run-Ends :
        (arguments : Fields) → Ends (run policy timing context executor repairer arguments)
    unfolding run
    run-Ends arguments = Ends-bind _ _ (Ends-reads _) λ started.
        attempts_from-Ends (suc policy.max_attempts) arguments 1 started (omega arith) (omega arith)
