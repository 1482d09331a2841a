-- ===== src/Worker/Once/Quiet.antt =====
-- The steps of the worker service of gateway/workers/service.py that start and end no job.
use mcp_gateway.Base.{ℕ, String, ◌≡◌, refl, Bool, true, false, Option, none, some, arith, ◌&&◌}
use mcp_gateway.Base.{
  List, [], ◌∷◌, ◌++◌, ◌==◌, string_eq, nat_eq, is_some, if◌then◌else◌, Option-cases, Bool-cases,
  inl, inr, ltb, length,
}
use mcp_gateway.Base.Dict.{lookup}
use mcp_gateway.Effect.{Result, ok, raise, cut_off}
use mcp_gateway.Worker.Circuit.{allow}
use mcp_gateway.Worker.Jobs.{
  WorkerJob, Entry, WorkerService, WorkerResult, Outcome, returned, failed, cancelled, resolve,
  mark_mutation,
}
use mcp_gateway.Worker.Service.{
  ended, refuses, submit, admitted, deduplicate, share_or_enqueue, authenticate, submit_timed_out,
  received, take_job, start, stop_all, reconcile, stop_error,
}
use mcp_gateway.Worker.Once.Slots.{
  count_key, count_key-append, room, pending, HasRoom, done, HasSameJobs,
}
use mcp_gateway.Worker.Once.Slots.{
  resolve-HasSameJobs, mark_mutation-HasSameJobs, Advances, same-Advances, enqueue-Advances,
}

-- A transitive step of services with the same jobs.
pub chain : (s t u : WorkerService) → HasSameJobs s t → HasSameJobs t u → HasSameJobs s u
chain s t u a b key = (
  omega (arith, (a key).0, (b key).0),
  omega (arith, (a key).1, (b key).1),
  omega (arith, (a key).2, (b key).2),
)

pub no_change : (s : WorkerService) → HasRoom s → Advances s s (λ key. 0)
no_change s h = same-Advances s s (λ key. (refl, refl, refl)) h

share_or_enqueue-Advances :
    (maxsize now : ℕ) (job : WorkerJob) (o : Option Entry) (s : WorkerService)
    → lookup job.idempotency_key s.inflight ≡ o
    → lookup job.idempotency_key s.idempotent_results ≡ none
    → HasRoom s
    → Advances s (share_or_enqueue maxsize now job o s).1 (λ key. 0)
share_or_enqueue-Advances maxsize now job none s e fresh h =
    enqueue-Advances maxsize now job s e fresh h
share_or_enqueue-Advances maxsize now job (some x) s e fresh h = no_change s h

deduplicate-Advances :
    (maxsize now : ℕ) (job : WorkerJob) (o : Option WorkerResult) (s : WorkerService)
    → lookup job.idempotency_key s.idempotent_results ≡ o
    → HasRoom s
    → Advances s (deduplicate maxsize now job o s).1 (λ key. 0)
deduplicate-Advances maxsize now job none s e h =
    share_or_enqueue-Advances maxsize now job _ s refl e h
deduplicate-Advances maxsize now job (some x) s e h = no_change s h

module _ (sign : WorkerJob → String) where
  admitted-Advances :
      (maxsize now : ℕ) (job : WorkerJob) (r : Result (Unit {0})) (s : WorkerService)
      → HasRoom s
      → Advances s (admitted sign maxsize now job r s).1 (λ key. 0)
  admitted-Advances maxsize now job (ok u) s h = elim (Bool-cases (authenticate sign job)) [
    | inl e ↦ rw e (deduplicate-Advances maxsize now job _ s refl h)
    | inr e ↦ rw e (no_change s h)
  ]
  admitted-Advances maxsize now job (raise x) s h = no_change s h
  admitted-Advances maxsize now job cut_off s h = no_change s h

  pub submit-Advances :
      (maxsize allowed_at now : ℕ) (job : WorkerJob) (s : WorkerService)
      → HasRoom s
      → Advances s (submit sign maxsize allowed_at now job s).1 (λ key. 0)
  unfolding submit
  submit-Advances maxsize allowed_at now job s h = if_running s.running
    where
      if_running :
          (running : Bool)
          → Advances s
              (if running
                then (let (r, b) = allow allowed_at s.breaker in
                    admitted sign maxsize now job r (record s { breaker = b }))
                else (ended (refuses "Execution worker service is not running"), s)).1
              (λ key. 0)
      if_running false = no_change s h
      if_running true =
          let (r, b) = allow allowed_at s.breaker in
          let a = admitted-Advances maxsize now job r (record s { breaker = b }) h in
          record { kept = a.kept; counted = a.counted }

pub received-HasSameJobs :
    (now : ℕ) (o : Outcome) (s : WorkerService) → HasSameJobs s (received now o s).1
received-HasSameJobs now (returned r) s key = elim (Bool-cases (r.outcome == "succeeded")) [
  | inl e ↦ rw e (refl, refl, refl)
  | inr e ↦ rw e (refl, refl, refl)
]
received-HasSameJobs now (failed x) s key = (refl, refl, refl)
received-HasSameJobs now cancelled s key = (refl, refl, refl)

pub submit_timed_out-HasSameJobs :
    (now : ℕ) (job : WorkerJob) (f : ℕ) (s : WorkerService)
    → HasSameJobs s (submit_timed_out now job f s).1
unfolding submit_timed_out
submit_timed_out-HasSameJobs now job f s key =
    let t = resolve f cancelled s in
    let detail : String = "Worker job exceeded the gateway wait timeout" in
    chain s t (mark_mutation now job detail t) (resolve-HasSameJobs f cancelled s)
      (mark_mutation-HasSameJobs now job detail t) key

pub start-HasSameJobs : (s : WorkerService) → HasSameJobs s (start s)
unfolding start
start-HasSameJobs s key = elim (Bool-cases s.running) [
  | inl e ↦ rw e (refl, refl, refl)
  | inr e ↦ rw e (refl, refl, refl)
]

pub reconcile-HasSameJobs :
    (now : ℕ) (id : String) (outcome : Option String) (s : WorkerService)
    → HasSameJobs s (reconcile now id outcome s).1
unfolding reconcile
reconcile-HasSameJobs now id outcome s key = elim (Option-cases (lookup id s.reconciliation)) [
  | inl e ↦ rw e (refl, refl, refl)
  | inr (r, e) ↦ rw e (refl, refl, refl)
]

pub take_job-HasSameJobs :
    (max_concurrency : ℕ) (s : WorkerService) → HasSameJobs s (take_job max_concurrency s)
unfolding take_job count_key
take_job-HasSameJobs max_concurrency s key =
    elim (Bool-cases (s.running && ltb (length s.executing) max_concurrency)) [
      | inl e ↦ rw e (taken s.queue refl)
      | inr e ↦ rw e (refl, refl, refl)
    ]
  where
    taken :
        (q : List Entry)
        → s.queue ≡ q
        → let t : WorkerService = elim q [
          | [] ↦ s
          | x ∷ rest ↦ record s { queue = rest; executing = s.executing ++ x ∷ [] }
        ] in
          (pending key t ≡ pending key s) × (room key t ≡ room key s) × (done key t ≡ done key s)
    taken [] e = (refl, refl, refl)
    taken (x ∷ rest) e = (ground (arith, e, count_key-append key s.executing (x ∷ [])), refl, refl)

HasSameJobs-if :
    (test : Bool) (s t : WorkerService) → HasSameJobs s t → HasSameJobs s (if test then s else t)
HasSameJobs-if true s t h key = (refl, refl, refl)
HasSameJobs-if false s t h key = h key

pub stop_all-HasSameJobs :
    (now : ℕ) (es : List Entry) (s : WorkerService) → HasSameJobs s (stop_all now es s)
unfolding stop_all
stop_all-HasSameJobs now [] s key = (refl, refl, refl)
stop_all-HasSameJobs now ((job, f) ∷ es) s key =
    let marked = mark_mutation now job "Worker service stopped before completion" s in
    let resolved = resolve f (failed (stop_error job)) marked in
    let t : WorkerService = if is_some (lookup f s.futures) then s else resolved in
    chain s t (stop_all now es t)
      (HasSameJobs-if (is_some (lookup f s.futures)) s resolved (
        chain s marked resolved
          (mark_mutation-HasSameJobs now job "Worker service stopped before completion" s)
          (resolve-HasSameJobs f (failed (stop_error job)) marked)))
      (stop_all-HasSameJobs now es t) key
