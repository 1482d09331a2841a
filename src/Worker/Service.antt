-- ===== src/Worker/Service.antt =====
-- gateway/workers/service.py: the operations of `WorkerService`. What runs between two awaits is one step; the lock is
-- never waited for, since no section that holds it awaits. The signature of a job is a parameter.
use Prim.Native.Char
use mcp_gateway.Base.{ℕ, zero, suc, String, Bool, true, false, not, ◌&&◌, Option, none, some}
use mcp_gateway.Base.{
  List, [], ◌∷◌, ◌++◌, length, ltb, leb, ◌==◌, string_eq, option_eq, nat_eq, is_some,
}
use mcp_gateway.Base.{if◌then◌else◌}
use mcp_gateway.Base.Dict.{Dict, lookup, insert, erase, values}
use mcp_gateway.Base.Json.{Fields}
use mcp_gateway.Models.{risk_class_eq}
use mcp_gateway.Errors.{
  Exn, gateway, other, code, exn_text, tool_execution_error, needs_review_error,
}
use mcp_gateway.Effect.{Result, ok, raise, cut_off, Exec}
use mcp_gateway.Registry
use mcp_gateway.Registry.{ToolRegistry}
use mcp_gateway.Registry.Tool.{◌then◌}
use mcp_gateway.Worker.Jobs.{
  WorkerJob, WorkerResult, ReconciliationRecord, Outcome, returned, failed, cancelled,
}
use mcp_gateway.Worker.Jobs.{
  Entry, WorkerService, mark_uncertain, reads_only, mark_mutation, resolve,
}
use mcp_gateway.Worker.Circuit.{is_open, allow, record_success, record_failure}

-- How `submit` ends at its first await: with a result, or waiting for the future of the job in flight
-- or for its own.
pub data Submitted : Type 0 where
  ended : Result WorkerResult → Submitted
  shares waits : ℕ → Submitted

abbrev pub refuses : {A : Type 0} → String → Result A
refuses m = raise (gateway (tool_execution_error m))

-- `asyncio.Queue.full`
abbrev pub is_full : ℕ → List Entry → Bool
is_full maxsize q = ltb 0 maxsize && leb maxsize (length q)

unfoldable pub enqueue : ℕ → ℕ → WorkerJob → WorkerService → Submitted × WorkerService
enqueue maxsize now job s =
    if is_full maxsize s.queue
    then (
      ended (refuses "Execution worker queue is full"),
      record s { breaker = record_failure now s.breaker },
    )
    else (
      waits s.next_future,
      record s {
        queue = s.queue ++ (job, s.next_future) ∷ [];
        inflight = insert job.idempotency_key (job, s.next_future) s.inflight;
        next_future = suc s.next_future;
      },
    )

abbrev pub share_or_enqueue :
    ℕ → ℕ → WorkerJob → Option Entry → WorkerService → Submitted × WorkerService
share_or_enqueue maxsize now job none s = enqueue maxsize now job s
share_or_enqueue maxsize now job (some e) s = (shares e.1, s)

abbrev pub deduplicate :
    ℕ → ℕ → WorkerJob → Option WorkerResult → WorkerService → Submitted × WorkerService
deduplicate maxsize now job (some completed) s = (ended (ok completed), s)
deduplicate maxsize now job none s =
    share_or_enqueue maxsize now job (lookup job.idempotency_key s.inflight) s

-- `hmac.compare_digest` raises a `TypeError` for a text that is not ASCII.
unfoldable pub is_ascii : String → Bool
is_ascii String.[] = true
is_ascii (String.◌∷◌ c s) = ltb (Char.code c) 128 && is_ascii s

-- What `authenticate` raises for a token that is not the signature.
abbrev pub authentication_failure : WorkerJob → Exn
authentication_failure job =
    if is_ascii job.auth_token
    then gateway (tool_execution_error "Worker authentication failed")
    else other "TypeError"

module _ (sign : WorkerJob → String) where
  -- Whether `authenticate` returns; the signature itself is ASCII.
  unfoldable pub authenticate : WorkerJob → Bool
  authenticate job = sign (record job { auth_token = "" }) == job.auth_token

  abbrev pub admitted :
      ℕ → ℕ → WorkerJob → Result (Unit {0}) → WorkerService → Submitted × WorkerService
  admitted maxsize now job (ok u) s =
      if authenticate job
      then deduplicate maxsize now job (lookup job.idempotency_key s.idempotent_results) s
      else (ended (raise (authentication_failure job)), s)
  admitted maxsize now job (raise e) s = (ended (refuses (exn_text e)), s)
  admitted maxsize now job cut_off s = (ended cut_off, s)

  -- `submit` up to its first await, with the two readings of the clock.
  unfoldable pub submit : ℕ → ℕ → ℕ → WorkerJob → WorkerService → Submitted × WorkerService
  unfolding enqueue authenticate
  submit maxsize allowed_at now job s =
      if s.running
      then (let (r, b) = allow allowed_at s.breaker in
          admitted maxsize now job r (record s { breaker = b }))
      else (ended (refuses "Execution worker service is not running"), s)

-- `submit` after `wait_for` has timed out and cancelled its future.
unfoldable pub submit_timed_out : ℕ → WorkerJob → ℕ → Exec WorkerService WorkerResult
unfolding mark_uncertain resolve
submit_timed_out now job f s =
    let t = resolve f cancelled s in
    let marked = mark_mutation now job "Worker job exceeded the gateway wait timeout" t in
    (
      if reads_only job
          then refuses "Execution worker timed out"
          else raise (
              gateway
                (needs_review_error "Mutation outcome is uncertain; reconciliation required")),
      record marked { breaker = record_failure now marked.breaker },
    )

abbrev pub or_message : Option String → String → String
or_message none d = d
or_message (some t) d = if t == "" then d else t

abbrev pub failure_of : WorkerResult → Result WorkerResult
failure_of r =
    if r.error_code == some "needs_review"
    then raise
        (gateway (needs_review_error (or_message r.error_message "Worker outcome requires review")))
    else refuses (or_message r.error_message "Execution worker failed")

-- What the submission that made the job gets; a cancelled future is awaited with `CancelledError`,
-- which no `except Exception` catches.
abbrev pub received : ℕ → Outcome → Exec WorkerService WorkerResult
received now (returned r) s =
    if r.outcome == "succeeded"
    then (ok r, record s { breaker = record_success s.breaker })
    else (failure_of r, record s { breaker = record_failure now s.breaker })
received now (failed e) s = (raise e, s)
received now cancelled s = (cut_off, s)

-- `await existing_future` of another submission of the same job: its result is returned as it is.
abbrev pub shared : Outcome → Result WorkerResult
shared (returned r) = ok r
shared (failed e) = raise e
shared cancelled = cut_off

-- A free task takes the next job.
unfoldable pub take_job : ℕ → WorkerService → WorkerService
take_job max_concurrency s =
    if s.running && ltb (length s.executing) max_concurrency
    then elim s.queue [
      | [] ↦ s
      | e ∷ rest ↦ record s { queue = rest; executing = s.executing ++ e ∷ [] }
    ]
    else s

-- The entry at a position, and the others.
unfoldable pub pick : ℕ → List Entry → Option (Entry × List Entry)
pick n [] = none
pick zero (e ∷ es) = some (e, es)
pick (suc n) (e ∷ es) = elim (pick n es) [ none ↦ none | some (x, rest) ↦ some (x, e ∷ rest) ]

abbrev pub error_code : Exn → String
error_code (gateway e) = code e
error_code (other m) = "worker_error"

abbrev pub run_job : ToolRegistry → ℕ → WorkerJob → Result Fields
run_job registry tick job =
    Registry.validate registry job.tool_name job.arguments
    then Registry.execute_validated registry tick job.tool_name

abbrev pub released : WorkerJob → WorkerService → WorkerService
released job s = record s { inflight = erase job.idempotency_key s.inflight }

-- `_execute` after the tool has ended, the rest of the round of `_worker_loop`, and its `finally`.
unfoldable pub settle : ℕ → Entry → List Entry → Result Fields → WorkerService → WorkerService
unfolding resolve mark_uncertain
settle now (job, f) rest (ok output) s =
    let r : WorkerResult = record {
      job_id = job.job_id;
      outcome = "succeeded";
      output = some output;
      error_code = none;
      error_message = none;
      completed_at = now;
    } in
    released job (
      resolve f (returned r) (record s {
        executing = rest;
        idempotent_results = insert job.idempotency_key r s.idempotent_results;
      }))
settle now (job, f) rest (raise e) s = released job (
    resolve f
      (returned (record {
        job_id = job.job_id;
        outcome = "failed";
        output = none;
        error_code = some (error_code e);
        error_message = some (exn_text e);
        completed_at = now;
      }))
      (mark_mutation now job (exn_text e) (record s { executing = rest })))
settle now e rest cut_off s = s

abbrev pub finish_picked :
    ToolRegistry → ℕ → ℕ → Option (Entry × List Entry) → WorkerService → WorkerService
finish_picked registry now tick none s = s
finish_picked registry now tick (some (e, rest)) s = settle now e rest (run_job registry tick e.0) s

unfoldable pub finish_job : ToolRegistry → ℕ → ℕ → ℕ → WorkerService → WorkerService
unfolding settle pick
finish_job registry now tick n s = finish_picked registry now tick (pick n s.executing) s

unfoldable pub start : WorkerService → WorkerService
start s = if s.running then s else record s { running = true }

abbrev pub stop_error : WorkerJob → Exn
stop_error job =
    if reads_only job
    then gateway (tool_execution_error "Worker stopped before read-only job completion")
    else gateway (needs_review_error "Worker stopped; mutation outcome requires review")

-- The loop of `stop` over the unfinished jobs.
unfoldable pub stop_all : ℕ → List Entry → WorkerService → WorkerService
unfolding mark_uncertain resolve
stop_all now [] s = s
stop_all now ((job, f) ∷ es) s = stop_all now es (
    if is_some (lookup f s.futures)
    then s
    else resolve f (failed (stop_error job))
        (mark_mutation now job "Worker service stopped before completion" s))

-- `stop` up to its await: the queue is drained and the tasks are cancelled.
unfoldable pub begin_stop : ℕ → WorkerService → WorkerService
unfolding stop_all
begin_stop now s =
    let t = stop_all now (values s.inflight ++ s.queue) s in
    record t { queue = []; executing = []; stopping = t.stopping ++ t.executing }

unfoldable pub erase_all : List Entry → Dict String Entry → Dict String Entry
erase_all [] d = d
erase_all ((job, f) ∷ es) d = erase_all es (erase job.idempotency_key d)

-- The rest of `stop`, after the cancelled tasks have run their `finally`: what each of them erases on
-- its own is erased here in one step.
unfoldable pub end_stop : WorkerService → WorkerService
unfolding erase_all
end_stop s = record s { running = false; stopping = []; inflight = erase_all s.stopping s.inflight }

abbrev pub confirmed : ℕ → Option String → ReconciliationRecord → ReconciliationRecord
confirmed now none r = r
confirmed now (some outcome) r = record r {
  status = outcome;
  detail = "Outcome confirmed by an operator or tool-specific reconciler";
  updated_at = now;
}

abbrev reconciled :
    ℕ
    → String
    → Option String
    → Option ReconciliationRecord
    → Exec WorkerService ReconciliationRecord
reconciled now job_id outcome none s = (refuses "No reconciliation record exists for this job", s)
reconciled now job_id outcome (some r) s = (
  ok (confirmed now outcome r),
  record s { reconciliation = insert job_id (confirmed now outcome r) s.reconciliation },
)

unfoldable pub reconcile : ℕ → String → Option String → Exec WorkerService ReconciliationRecord
reconcile now job_id outcome s = reconciled now job_id outcome (lookup job_id s.reconciliation) s

unfoldable pub healthcheck : ℕ → WorkerService → Bool
healthcheck now s = s.running && not (is_open now s.breaker)
