-- ===== src/Worker/Once/Steps.antt =====
-- What each step of the worker service of gateway/workers/service.py does to its idempotency keys.
use mcp_gateway.Base.{
  ℕ, zero, suc, ◌+◌, ◌≤◌, ◌<◌, ◌⊎◌, String, ◌≡◌, refl, Option, none, some, arith,
}
use mcp_gateway.Base.{List, [], ◌∷◌, ◌++◌, ◌==◌, string_eq, nat_eq, is_some, Bool-cases, inl, inr}
use mcp_gateway.Base.Dict.{lookup, insert, erase, lookup-insert, lookup-erase, values}
use mcp_gateway.Base.Json.{Fields}
use mcp_gateway.Errors.{exn_text}
use mcp_gateway.Effect.{Result, ok, raise, cut_off}
use mcp_gateway.Registry.{ToolRegistry}
use mcp_gateway.Worker.Circuit.{CircuitBreaker}
use mcp_gateway.Worker.Jobs.{
  WorkerJob, Entry, WorkerService, WorkerResult, Outcome, resolve, mark_uncertain, reads_only,
  mark_mutation, new_service,
}
use mcp_gateway.Worker.Service.{
  pick, run_job, finish_job, finish_picked, settle, stop_all, begin_stop, end_stop, released,
}
use mcp_gateway.Worker.Once.{
  Step, submits, times_out, receives, takes, starts, ends_stop, finishes, stops, reconciles, one_if,
  step, successes_of, successes, ran_to_success,
}
use mcp_gateway.Worker.Once.Slots.{
  count_key, count_key-append, count_key-pick, has_key-erase_all, room, pending, HasRoom, done,
}
use mcp_gateway.Worker.Once.Slots.{Advances, same-Advances}
use mcp_gateway.Worker.Once.Quiet.{
  no_change, submit-Advances, received-HasSameJobs, submit_timed_out-HasSameJobs, start-HasSameJobs,
  reconcile-HasSameJobs, take_job-HasSameJobs, stop_all-HasSameJobs,
}

stopped-Advances :
    (s : WorkerService)
    → HasRoom s
    → Advances s
        (record s { queue = []; executing = []; stopping = s.stopping ++ s.executing })
        (λ key. 0)
unfolding count_key
stopped-Advances s h = record {
  kept = λ key. ground (arith, h key, count_key-append key s.stopping s.executing);
  counted = λ key. omega arith;
}

begin_stop-Advances :
    (now : ℕ) (s : WorkerService) → HasRoom s → Advances s (begin_stop now s) (λ key. 0)
unfolding begin_stop
begin_stop-Advances now s h =
    let t = stop_all now (values s.inflight ++ s.queue) s in
    let same = stop_all-HasSameJobs now (values s.inflight ++ s.queue) s in
    let first = same-Advances s t same h in
    let last = stopped-Advances t first.kept in
    record { kept = last.kept; counted = λ key. omega (arith, first.counted key, last.counted key) }

end_stop-Advances : (s : WorkerService) → HasRoom s → Advances s (end_stop s) (λ key. 0)
unfolding end_stop count_key
end_stop-Advances s h = record {
  kept = λ key. kept key (Nat_cases (count_key key s.stopping));
  counted = λ key. omega arith;
}
  where
    Nat_cases : (n : ℕ) → (n ≡ 0) ⊎ (0 < n)
    Nat_cases zero = inl refl
    Nat_cases (suc n) = inr (omega arith)

    kept :
        (key : String)
        → (count_key key s.stopping ≡ 0) ⊎ (0 < count_key key s.stopping)
        → pending key (end_stop s) ≤ room key (end_stop s)
    kept key (inl e) = ground (arith, e, h key, has_key-erase_all key s.stopping s.inflight e)
    kept key (inr e) = ground (arith, e, h key)

-- A job that has succeeded leaves its key, with its result.
ok-Advances :
    (job : WorkerJob) (f n : ℕ) (rest : List Entry) (r : WorkerResult) (o : Outcome)
    (s : WorkerService)
    → pick n s.executing ≡ some ((job, f), rest)
    → HasRoom s
    → Advances s
        (released job (
          resolve f o (record s {
            executing = rest;
            idempotent_results = insert job.idempotency_key r s.idempotent_results;
          })))
        (λ key. one_if (key == job.idempotency_key))
unfolding resolve
ok-Advances job f n rest r o s p h = elim (Bool-cases (is_some (lookup f s.futures))) [
  | inl e ↦ rw e (record { kept = kept; counted = counted })
  | inr e ↦ rw e (record { kept = kept; counted = counted })
]
  where
    t : WorkerService
    t = record s {
      executing = rest;
      idempotent_results = insert job.idempotency_key r s.idempotent_results;
      inflight = erase job.idempotency_key s.inflight;
    }

    kept : (key : String) → pending key t ≤ room key t
    kept key = ground (
      arith,
      h key,
      count_key-pick key n s.executing rest job f p,
      lookup-erase key job.idempotency_key s.inflight,
      lookup-insert key job.idempotency_key r s.idempotent_results,
    )

    counted : (key : String) → one_if (key == job.idempotency_key) + done key s ≤ done key t
    counted key = ground (
      arith,
      h key,
      count_key-pick key n s.executing rest job f p,
      lookup-insert key job.idempotency_key r s.idempotent_results,
    )

-- A job that has failed leaves its key.
failed-Advances :
    (job : WorkerJob) (f n : ℕ) (rest : List Entry) (o : Outcome) (s : WorkerService)
    → pick n s.executing ≡ some ((job, f), rest)
    → HasRoom s
    → Advances s
        (record s { executing = rest; inflight = erase job.idempotency_key s.inflight })
        (λ key. 0)
failed-Advances job f n rest o s p h = record {
  kept = λ key. ground (
    arith,
    h key,
    count_key-pick key n s.executing rest job f p,
    lookup-erase key job.idempotency_key s.inflight,
  );
  counted = λ key. omega arith;
}

raise-Advances :
    (now : ℕ) (job : WorkerJob) (f n : ℕ) (rest : List Entry) (o : Outcome) (detail : String)
    (s : WorkerService)
    → pick n s.executing ≡ some ((job, f), rest)
    → HasRoom s
    → Advances s
        (released job (resolve f o (mark_mutation now job detail (record s { executing = rest }))))
        (λ key. 0)
unfolding resolve mark_uncertain
raise-Advances now job f n rest o detail s p h = elim (Bool-cases (reads_only job)) [
  | inl e ↦ elim (Bool-cases (is_some (lookup f s.futures))) [
    | inl d ↦ rw (e, d) (record { kept = a.kept; counted = a.counted })
    | inr d ↦ rw (e, d) (record { kept = a.kept; counted = a.counted })
  ]
  | inr e ↦ elim (Bool-cases (is_some (lookup f s.futures))) [
    | inl d ↦ rw (e, d) (record { kept = a.kept; counted = a.counted })
    | inr d ↦ rw (e, d) (record { kept = a.kept; counted = a.counted })
  ]
]
  where
    a :
        Advances s
          (record s { executing = rest; inflight = erase job.idempotency_key s.inflight })
          (λ key. 0)
    a = failed-Advances job f n rest o s p h

module _ (sign : WorkerJob → String) (registry : ToolRegistry) (max_concurrency maxsize : ℕ) where
  finished-Advances :
      (now tick n : ℕ) (o : Option (Entry × List Entry)) (s : WorkerService)
      → pick n s.executing ≡ o
      → HasRoom s
      → Advances s
          (finish_picked registry now tick o s)
          (λ key. ran_to_success sign registry max_concurrency maxsize key tick o)
  finished-Advances now tick n none s p h = no_change s h
  finished-Advances now tick n (some ((job, f), rest)) s p h = by_result (run_job registry tick job)
    where
      by_result :
          (r : Result Fields)
          → Advances s (settle now (job, f) rest r s) (λ key. elim r [
            | ok output ↦ one_if (key == job.idempotency_key)
            | raise e ↦ 0
            | cut_off ↦ 0
          ])
      by_result (ok output) = unfold settle in ok-Advances job f n rest _ _ s p h
      by_result (raise e) = unfold settle in raise-Advances now job f n rest _ (exn_text e) s p h
      by_result cut_off = unfold settle in no_change s h

  pub step-Advances :
      (x : Step) (s : WorkerService)
      → HasRoom s
      → Advances s
          (step sign registry max_concurrency maxsize x s)
          (λ key. successes_of sign registry max_concurrency maxsize key x s)
  unfolding step successes_of finish_job
  step-Advances (submits allowed_at now job) s h =
      submit-Advances sign maxsize allowed_at now job s h
  step-Advances (times_out now job f) s h =
      same-Advances s _ (submit_timed_out-HasSameJobs now job f s) h
  step-Advances (receives now o) s h = same-Advances s _ (received-HasSameJobs now o s) h
  step-Advances takes s h = same-Advances s _ (take_job-HasSameJobs max_concurrency s) h
  step-Advances starts s h = same-Advances s _ (start-HasSameJobs s) h
  step-Advances ends_stop s h = end_stop-Advances s h
  step-Advances (finishes now tick n) s h =
      finished-Advances now tick n (pick n s.executing) s refl h
  step-Advances (stops now) s h = begin_stop-Advances now s h
  step-Advances (reconciles now id outcome) s h =
      same-Advances s _ (reconcile-HasSameJobs now id outcome s) h

  successes_from :
      (key : String) (xs : List Step) (s : WorkerService)
      → HasRoom s
      → successes sign registry max_concurrency maxsize key xs s + done key s ≤ 1
  unfolding successes
  successes_from key [] s h = ground arith
  successes_from key (x ∷ xs) s h =
      let a = step-Advances x s h in
      omega (
        arith,
        a.counted key,
        successes_from key xs (step sign registry max_concurrency maxsize x s) a.kept,
      )

  -- Whatever is submitted, times out, is stopped and started again, and in whatever order, a new
  -- service runs the jobs of one idempotency key to success at most once.
  pub successes-bound :
      (key : String) (xs : List Step) (breaker : CircuitBreaker)
      → successes sign registry max_concurrency maxsize key xs (new_service breaker) ≤ 1
  successes-bound key xs breaker = omega (arith, successes_from key xs (new_service breaker) empty)
    where
      empty : HasRoom (new_service breaker)
      empty k = unfold count_key in omega arith
