-- ===== src/Worker/Stop.antt =====
-- What `stop` and a wait that times out, of gateway/workers/service.py, leave behind.
use mathlib.Core.Path.{subst}
use mcp_gateway.Base.{
  ℕ, String, ◌≡◌, ap, sym, ◌∙◌, ==→eq, ==_refl, ◌⊎◌, inl, inr, true, false, Option, none, some,
  arith, ◌==◌, string_eq, nat_eq, Bool-cases,
}
use mcp_gateway.Base.{List, [], ◌∷◌, ◌++◌, All, Any}
use mcp_gateway.Base.Dict.{lookup, values, lookup-insert}
use mcp_gateway.Models.{risk_class_eq}
use mcp_gateway.Errors.{gateway, needs_review_error}
use mcp_gateway.Effect.{Result, ok, cut_off}
use mcp_gateway.Worker.Circuit.{allow, record_failure}
use mcp_gateway.Worker.Jobs.{
  WorkerJob, WorkerResult, failed, uncertain, cancelled, Entry, WorkerService, mark_uncertain,
  resolve, reads_only,
}
use mcp_gateway.Worker.Service.{
  submit, authenticate, submit_timed_out, stop_all, begin_stop, shares, shared, stop_error,
}

-- The status of a job's reconciliation record.
abbrev pub status_of : WorkerService → String → Option String
status_of s id = elim (lookup id s.reconciliation) [ none ↦ none | some r ↦ some r.status ]

abbrev pub IsReviewed : WorkerService → WorkerJob → ℕ → Type 0
IsReviewed s job f =
    (status_of s job.job_id ≡ some "needs_review")
    × (lookup f s.futures
        ≡ some (
            failed
              (gateway (needs_review_error "Worker stopped; mutation outcome requires review"))))

-- One entry of the loop.
abbrev stop_one : ℕ → Entry → WorkerService → WorkerService
stop_one now e s = stop_all now (e ∷ []) s

stop_one-kept :
    (now : ℕ) (j : WorkerJob) (g : ℕ) (s : WorkerService) (job : WorkerJob) (f : ℕ)
    → IsReviewed s job f
    → IsReviewed (stop_one now (j, g) s) job f
unfolding stop_all mark_uncertain resolve
stop_one-kept now j g s job f (status, done) = (
  ground (
    arith,
    status,
    lookup-insert job.job_id j.job_id (uncertain now j "Worker service stopped before completion")
        s.reconciliation,
  ),
  ground (arith, done, lookup-insert f g (failed (stop_error j)) s.futures),
)

stop_all-kept :
    (now : ℕ) (es : List Entry) (s : WorkerService) (job : WorkerJob) (f : ℕ)
    → IsReviewed s job f
    → IsReviewed (stop_all now es s) job f
unfolding stop_all
stop_all-kept now [] s job f h = h
stop_all-kept now ((j, g) ∷ es) s job f h =
    stop_all-kept now es (stop_one now (j, g) s) job f (stop_one-kept now j g s job f h)

stop_one-IsReviewed :
    (now : ℕ) (s : WorkerService) (job : WorkerJob) (f : ℕ)
    → reads_only job ≡ false
    → lookup f s.futures ≡ none
    → IsReviewed (stop_one now (job, f) s) job f
unfolding stop_all mark_uncertain resolve
stop_one-IsReviewed now s job f m h = (
  ground (
    arith,
    h,
    m,
    lookup-insert job.job_id job.job_id
        (uncertain now job "Worker service stopped before completion") s.reconciliation,
  ),
  ground (arith, h, m, lookup-insert f f (failed (stop_error job)) s.futures),
)

stop_one-other :
    (now : ℕ) (s : WorkerService) (j : WorkerJob) (g f : ℕ)
    → (f == g) ≡ false
    → lookup f (stop_one now (j, g) s).futures ≡ lookup f s.futures
unfolding stop_all mark_uncertain resolve
stop_one-other now s j g f h =
    ground (arith, h, lookup-insert f g (failed (stop_error j)) s.futures)

-- Entries with this future are of this job.
abbrev pub Owns : WorkerJob → ℕ → Entry → Type 0
Owns job f e = e.1 ≡ f → e.0 ≡ job

later :
    {P : Type 0} {e : Entry} {job : WorkerJob} {f : ℕ} → (f == e.1) ≡ false → (e ≡ (job, f)) ⊎ P → P
later {e = e} {job} {f} other (inl same) =
    absurd (cc (==_refl f, other, ap (λ (x : Entry). x.1) same))
later other (inr p) = p

stop_all-IsReviewed :
    (now : ℕ) (es : List Entry) (s : WorkerService) (job : WorkerJob) (f : ℕ)
    → Any (λ e. e ≡ (job, f)) es
    → All (Owns job f) es
    → reads_only job ≡ false
    → lookup f s.futures ≡ none
    → IsReviewed (stop_all now es s) job f
unfolding stop_all
stop_all-IsReviewed now [] s job f a o m h = absurd a
stop_all-IsReviewed now ((j, g) ∷ es) s job f a (o, os) m h = elim (Bool-cases (f == g)) [
  | inl same ↦
      let here : (job, f) ≡ (j, g) = cc (==→eq f g same, o (sym (==→eq f g same))) in
      stop_all-kept now es (stop_one now (j, g) s) job f (
        subst (λ e. IsReviewed (stop_one now e s) job f) here (stop_one-IsReviewed now s job f m h))
  | inr other ↦
      stop_all-IsReviewed now es (stop_one now (j, g) s) job f (later other a) os m
        (stop_one-other now s j g f other ∙ h)
]

-- `stop` reviews every unfinished mutation: a job in flight or queued that may mutate and whose future
-- is not done, where that future is of no other job, gets a reconciliation record that needs review,
-- and its future fails with the `NeedsReviewError`, not with an ordinary error.
pub begin_stop-IsReviewed :
    (now : ℕ) (s : WorkerService) (job : WorkerJob) (f : ℕ)
    → Any (λ e. e ≡ (job, f)) (values s.inflight ++ s.queue)
    → All (Owns job f) (values s.inflight ++ s.queue)
    → reads_only job ≡ false
    → lookup f s.futures ≡ none
    → IsReviewed (begin_stop now s) job f
unfolding begin_stop
begin_stop-IsReviewed now s job f a o m h =
    stop_all-IsReviewed now (values s.inflight ++ s.queue) s job f a o m h

-- What a submission that shares a future gets from it, once it is done.
abbrev pub awaited : WorkerService → ℕ → Option (Result WorkerResult)
awaited s f = elim (lookup f s.futures) [ none ↦ none | some outcome ↦ some (shared outcome) ]

-- After a wait for a job in flight has timed out, a later submission under the same key, which the
-- service and its breaker admit, waits for the future of that job, which is cancelled: it is cut off by
-- `CancelledError` and gets neither a result nor an error that the gateway catches.
pub submit-timed_out :
    (sign : WorkerJob → String) (maxsize now allowed_at later : ℕ) (job again : WorkerJob) (f : ℕ)
    (s : WorkerService)
    → s.running ≡ true
    → lookup again.idempotency_key s.inflight ≡ some (job, f)
    → lookup again.idempotency_key s.idempotent_results ≡ none
    → lookup f s.futures ≡ none
    → authenticate sign again ≡ true
    → (allow allowed_at (record_failure now s.breaker)).0 ≡ ok tt
    → let s' = (submit_timed_out now job f s).1 in
      ((submit sign maxsize allowed_at later again s').0 ≡ shares f) × (awaited s' f ≡ some cut_off)
unfolding submit submit_timed_out mark_uncertain resolve
submit-timed_out sign maxsize now allowed_at later job again f s r i n u a b =
    (ground (arith, r, i, n, u, a, b), ground (arith, u, lookup-insert f f cancelled s.futures))
