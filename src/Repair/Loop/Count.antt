-- ===== src/Repair/Loop/Count.antt =====
-- The repair loop runs its executor at most `max_attempts` times.
use mcp_gateway.Base.{ℕ, zero, suc, ◌+◌, ◌-◌, max, ◌≡◌, Bool, false, not, arith}
use mcp_gateway.Base.{Option, none, some, leb, ltb, Bool-cases, inl, inr}
use mcp_gateway.Base.Json.{Fields}
use mcp_gateway.Errors.{Exn}
use mcp_gateway.Effect.{Result, ok, raise, cut_off, Exec, pure, reads, modify}
use mcp_gateway.Effect.{◌>>=◌, pure-bind}
use mcp_gateway.Effect.Grows.{
  Grows, Grows-pure, Grows-throw, Grows-lift, Grows-if, Grows-bind, grows_rules,
}
use mcp_gateway.Repair.Diagnose.{FailureDiagnosis, diagnose}
use mcp_gateway.Repair.Backoff.{BackoffPolicy, delay, nanoseconds}
use mcp_gateway.Repair.Loop.{RepairContext, Timing, can_retry, give_up, ask, repair, recover}
use mcp_gateway.Repair.Loop.{settle, attempts_from, run, transient}
use mcp_gateway.Repair.Loop.Ends.{last-can_retry}

-- The clock, the random source, `sleep` and the repairer leave the counter.
pub record LeavesCount {S : Type 0} (count : S → ℕ) (timing : Timing S) : Type 0 where
  pub monotonic : (s : S) → count (timing.monotonic s).1 ≡ count s
  pub uniform : (s : S) → count (timing.uniform s).1 ≡ count s
  pub sleep : (t : ℕ) (s : S) → count (timing.sleep t s) ≡ count s

abbrev pub RepairerLeaves :
    {S : Type 0} → (S → ℕ) → Option (Fields → FailureDiagnosis → Exec S Fields) → Type 0
RepairerLeaves count none = Unit
RepairerLeaves count (some propose) =
    (c : Fields) (d : FailureDiagnosis) → Grows count 0 (propose c d)

module _ {S : Type 0} {count : S → ℕ} {timing : Timing S} (leaves : LeavesCount count timing) where
  Grows-monotonic : Grows count 0 (reads timing.monotonic)
  unfolding reads
  Grows-monotonic = record { at = λ s. omega (arith, leaves.monotonic s) }

  Grows-uniform : Grows count 0 (reads timing.uniform)
  unfolding reads
  Grows-uniform = record { at = λ s. omega (arith, leaves.uniform s) }

  Grows-sleep : (t : ℕ) → Grows count 0 (modify (timing.sleep t))
  unfolding modify
  Grows-sleep t = record { at = λ s. omega (arith, leaves.sleep t s) }

ask-Grows :
    {S : Type 0} (repairer : Option (Fields → FailureDiagnosis → Exec S Fields)) (count : S → ℕ)
    (c : Fields) (d : FailureDiagnosis) (e : Exn)
    → RepairerLeaves count repairer
    → Grows count 0 (ask repairer c d e)
unfolding ask
ask-Grows none count c d e h = Grows-throw 0 e
ask-Grows (some propose) count c d e h = h c d

module _ {S Output : Type 0} (policy : BackoffPolicy) (timing : Timing S) (context : RepairContext)
    (executor : Fields → Exec S Output)
    (repairer : Option (Fields → FailureDiagnosis → Exec S Fields)) (count : S → ℕ)
    (leaves : LeavesCount count timing) (repairer-Leaves : RepairerLeaves count repairer) where
  abbrev too_late : ℕ → ℕ → ℕ → Bool
  too_late now pause started = ltb (nanoseconds policy.max_total_seconds + started) (now + pause)

  can_retry-Grows :
      (d : FailureDiagnosis) (attempt started : ℕ)
      → Grows count 0 (can_retry policy timing context executor repairer d attempt started)
  unfolding can_retry pure reads ◌>>=◌
  can_retry-Grows d attempt started = record { at = λ s. ground (arith, leaves.monotonic s) }

  give_up-Grows :
      (k : ℕ) (d : FailureDiagnosis) (e : Exn)
      → Grows count k (give_up policy timing context executor repairer d e)
  unfolding give_up
  give_up-Grows k d e = search grows_rules

  repair-Grows :
      (c : Fields) (d : FailureDiagnosis) (e : Exn)
      → Grows count 0 (repair policy timing context executor repairer c d e)
  unfolding repair
  repair-Grows c d e =
      Grows-if 0 (transient d.category) _ _ (Grows-pure 0 c)
        (ask-Grows repairer count c d e repairer-Leaves)

  recover-Grows :
      (k : ℕ) (again : Fields → ℕ → Exec S (Output × ℕ)) (current : Fields) (attempt started : ℕ)
      (e : Exn)
      → (leb policy.max_attempts attempt ≡ false
          → (c : Fields) → Grows count k (again c (suc attempt)))
      → Grows count k
          (recover policy timing context executor repairer again current attempt started e)
  unfolding recover
  recover-Grows k again current attempt started e next =
      elim (Bool-cases (leb policy.max_attempts attempt)) [
        | inl h ↦
            rw
              (
                last-can_retry policy timing context executor repairer (diagnose e) attempt started
                    h,
                pure-bind,
              )
              (give_up-Grows k (diagnose e) e)
        | inr h ↦ Grows-bind k _ _ (can_retry-Grows (diagnose e) attempt started) λ retry.
            Grows-if k (not retry) _ _ (give_up-Grows k (diagnose e) e) (
              Grows-bind k _ _ (repair-Grows current (diagnose e) e) λ repaired.
                Grows-bind k _ _ (Grows-uniform leaves) λ draw.
                  Grows-bind k _ _ (Grows-monotonic leaves) λ now.
                    Grows-if k (too_late now (delay policy attempt draw) started) _ _
                      (Grows-throw k e)
                      (Grows-bind k _ _ (Grows-sleep leaves _) λ _. next h repaired))
      ]

  module _ (executor-Grows : (c : Fields) → Grows count 1 (executor c)) where
    settle-Grows :
        (k : ℕ) (again : Fields → ℕ → Exec S (Output × ℕ)) (current : Fields) (attempt started : ℕ)
        (r : Result Output)
        → (leb policy.max_attempts attempt ≡ false
            → (c : Fields) → Grows count k (again c (suc attempt)))
        → Grows count k
            (settle policy timing context executor repairer again current attempt started r)
    settle-Grows k again current attempt started (ok out) next = Grows-pure k (out, attempt)
    settle-Grows k again current attempt started (raise e) next =
        recover-Grows k again current attempt started e next
    settle-Grows k again current attempt started cut_off next = Grows-lift k cut_off

    attempts_from-Grows :
        (fuel : ℕ) (current : Fields) (attempt started : ℕ)
        → Grows count
            (suc (policy.max_attempts - attempt))
            (attempts_from policy timing context executor repairer fuel current attempt started)
    unfolding attempts_from
    attempts_from-Grows zero current attempt started = record { at = λ s. omega arith }
    attempts_from-Grows (suc fuel) current attempt started = record {
      at = λ s.
          let (r, s') = executor current s in
          omega (
            arith,
            (executor-Grows current).at s,
            (settle-Grows (policy.max_attempts - attempt)
                  (λ c n. attempts_from policy timing context executor repairer fuel c n started)
                  current attempt started r
                  (λ more c.
                    again_Grows more c (attempts_from-Grows fuel c (suc attempt) started))).at
                s',
          );
    }
      where
        again_Grows :
            {m : Exec S (Output × ℕ)}
            → leb policy.max_attempts attempt ≡ false
            → Fields
            → Grows count (suc (policy.max_attempts - suc attempt)) m
            → Grows count (policy.max_attempts - attempt) m
        again_Grows more c g = record { at = λ t. ground (arith, g.at t) }

    -- One `run` calls its executor at most `max_attempts` times, and at most once where
    -- `max_attempts` is 0: a counter that each call advances by at most 1, and that nothing else
    -- advances, grows by no more.
    pub run-Grows :
        (arguments : Fields)
        → Grows count
            (max 1 policy.max_attempts)
            (run policy timing context executor repairer arguments)
    unfolding run
    run-Grows arguments =
        Grows-bind (max 1 policy.max_attempts) _ _ (Grows-monotonic leaves) λ started. record {
          at = λ s.
              ground
                (arith, (attempts_from-Grows (suc policy.max_attempts) arguments 1 started).at s);
        }
