-- ===== src/Repair/Loop/Once.antt =====
-- When the repair loop does not retry: policy denials, and mutations that are not idempotent.
use mcp_gateway.Base.{ℕ, suc, ◌≡◌, refl, ap, ◌⊎◌, inl, true, false, arith}
use mcp_gateway.Base.{Option, if◌then◌else◌}
use mcp_gateway.Base.Json.{Fields}
use mcp_gateway.Models.{policy_denied, repair_failure_eq}
use mcp_gateway.Errors.{Exn, gateway, needs_review_error}
use mcp_gateway.Effect
use mcp_gateway.Effect.{Result, ok, raise, cut_off, Exec, pure, throw, reads, ◌>>=◌, pure-bind}
use mcp_gateway.Repair.Diagnose.{FailureDiagnosis, diagnose}
use mcp_gateway.Repair.Backoff.{BackoffPolicy}
use mcp_gateway.Repair.Loop.{RepairContext, Timing, can_retry, give_up, recover, settle}
use mcp_gateway.Repair.Loop.{attempts_from, run, transient, mutates, review_message}

-- What a caller is told of a mutation that ran once.
abbrev pub reviewed : Exn → Exn
reviewed e =
    if transient (diagnose e).category then gateway (needs_review_error review_message) else e

abbrev pub once : {Output : Type 0} → Result Output → Result (Output × ℕ)
once (ok output) = ok (output, 1)
once (raise e) = raise (reviewed e)
once cut_off = cut_off

module _ {S Output : Type 0} (policy : BackoffPolicy) (timing : Timing S) (context : RepairContext)
    (executor : Fields → Exec S Output)
    (repairer : Option (Fields → FailureDiagnosis → Exec S Fields)) where
  denied-can_retry :
      (d : FailureDiagnosis) (attempt started : ℕ)
      → d.category ≡ policy_denied
      → can_retry policy timing context executor repairer d attempt started ≡ pure false
  unfolding can_retry repair_failure_eq
  denied-can_retry d attempt started h = rw h

  denied-recover :
      (again : Fields → ℕ → Exec S (Output × ℕ)) (current : Fields) (attempt started : ℕ) (e : Exn)
      → (diagnose e).category ≡ policy_denied
      → recover policy timing context executor repairer again current attempt started e ≡ throw e
  unfolding recover give_up repair_failure_eq
  denied-recover again current attempt started e h =
      rw (denied-can_retry (diagnose e) attempt started h, pure-bind, h)

  -- In any round of the loop, if the executor raises an error that is diagnosed as a policy denial,
  -- the loop raises that error from the state that the executor left: nothing is repaired or retried.
  pub denied-attempts_from :
      (fuel : ℕ) (current : Fields) (attempt started : ℕ) (s s' : S) (e : Exn)
      → executor current s ≡ (raise e, s')
      → (diagnose e).category ≡ policy_denied
      → attempts_from policy timing context executor repairer (suc fuel) current attempt started s
        ≡ (raise e, s')
  unfolding attempts_from throw
  denied-attempts_from fuel current attempt started s s' e run h = rw run (
      ap (λ (m : Exec S (Output × ℕ)). m s')
        (denied-recover
          (λ c n. attempts_from policy timing context executor repairer fuel c n started) current
          attempt started e h))

  module _ (mutation : mutates context ≡ true) (not_idempotent : context.idempotent ≡ false) where
    refused-can_retry :
        (d : FailureDiagnosis) (attempt started : ℕ) (s : S)
        → let m = can_retry policy timing context executor repairer d attempt started s in
          (m ≡ (ok false, s)) ⊎ (m ≡ (ok false, (timing.monotonic s).1))
    unfolding can_retry pure reads ◌>>=◌
    refused-can_retry d attempt started s = ground arith

    refused-recover :
        (again : Fields → ℕ → Exec S (Output × ℕ)) (current : Fields) (attempt started : ℕ)
        (e : Exn) (s : S)
        → let m =
            recover policy timing context executor repairer again current attempt started e s in
          (m ≡ (raise (reviewed e), s)) ⊎ (m ≡ (raise (reviewed e), (timing.monotonic s).1))
    unfolding recover give_up throw ◌>>=◌
    refused-recover again current attempt started e s =
        ground (arith, refused-can_retry (diagnose e) attempt started s)

    settled_once :
        (again : Fields → ℕ → Exec S (Output × ℕ)) (current : Fields) (started : ℕ)
        (r : Result Output) (s : S)
        → let m = settle policy timing context executor repairer again current 1 started r s in
          (m.0 ≡ once r) × ((m.1 ≡ s) ⊎ (m.1 ≡ (timing.monotonic s).1))
    unfolding pure Effect.lift
    settled_once again current started (ok out) s = (refl, inl refl)
    settled_once again current started (raise e) s =
        ground (arith, refused-recover again current 1 started e s)
    settled_once again current started cut_off s = (refl, inl refl)

    -- A mutating call that is not idempotent runs its executor once, whatever the repairer and the
    -- limits are: the result of `run` is that of the one call, and after it the loop at most reads
    -- the clock. A timeout or a crash of the sandbox becomes a request for review.
    pub mutation-run :
        (arguments : Fields) (s : S)
        → let (r, s') = executor arguments (timing.monotonic s).1 in
          let (result, final) = run policy timing context executor repairer arguments s in
          (result ≡ once r) × ((final ≡ s') ⊎ (final ≡ (timing.monotonic s').1))
    unfolding run attempts_from reads ◌>>=◌
    mutation-run arguments s =
        let (started, s1) = timing.monotonic s in
        let (r, s2) = executor arguments s1 in
        settled_once
          (λ c n.
            attempts_from policy timing context executor repairer policy.max_attempts c n started)
          arguments started r s2
