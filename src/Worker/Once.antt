-- ===== src/Worker/Once.antt =====
-- The worker service of gateway/workers/service.py runs no job to success twice.
pub mod Slots
pub mod Quiet
pub mod Steps
use mcp_gateway.Base.{
  ℕ, zero, suc, ◌+◌, ◌≤◌, String, ◌≡◌, refl, Bool, true, false, Option, none, some, arith,
}
use mcp_gateway.Base.{
  List, [], ◌∷◌, ◌++◌, ◌==◌, string_eq, is_some, if◌then◌else◌, Option-cases, inl, inr,
}
use mcp_gateway.Base.Dict.{lookup, has_key}
use mcp_gateway.Base.Json.{Fields}
use mcp_gateway.Effect.{Result, ok, raise, cut_off}
use mcp_gateway.Registry.{ToolRegistry}
use mcp_gateway.Worker.Jobs.{WorkerJob, Entry, WorkerService}
use mcp_gateway.Worker.Service.{
  submit, submit_timed_out, received, take_job, pick, run_job, finish_job, finish_picked, start,
  begin_stop, end_stop, reconcile,
}
use mcp_gateway.Worker.Jobs.{Outcome}

-- What happens to a service between two awaits.
pub data Step : Type 0 where
  submits : ℕ → ℕ → WorkerJob → Step
  times_out : ℕ → WorkerJob → ℕ → Step
  receives : ℕ → Outcome → Step
  takes starts ends_stop : Step
  finishes : ℕ → ℕ → ℕ → Step
  stops : ℕ → Step
  reconciles : ℕ → String → Option String → Step

abbrev pub one_if : Bool → ℕ
one_if true = 1
one_if false = 0

module _ (sign : WorkerJob → String) (registry : ToolRegistry) (max_concurrency maxsize : ℕ) where
  unfoldable pub step : Step → WorkerService → WorkerService
  unfolding submit submit_timed_out take_job finish_job start begin_stop end_stop reconcile
  step (submits allowed_at now job) s = (submit sign maxsize allowed_at now job s).1
  step (times_out now job f) s = (submit_timed_out now job f s).1
  step (receives now o) s = (received now o s).1
  step takes s = take_job max_concurrency s
  step starts s = start s
  step ends_stop s = end_stop s
  step (finishes now tick n) s = finish_job registry now tick n s
  step (stops now) s = begin_stop now s
  step (reconciles now id outcome) s = (reconcile now id outcome s).1

  abbrev pub ran_to_success : String → ℕ → Option (Entry × List Entry) → ℕ
  ran_to_success key tick none = 0
  ran_to_success key tick (some ((job, f), rest)) = elim (run_job registry tick job) [
    | ok output ↦ one_if (key == job.idempotency_key)
    | raise e ↦ 0
    | cut_off ↦ 0
  ]

  -- Whether a step runs a job with this idempotency key to success.
  unfoldable pub successes_of : String → Step → WorkerService → ℕ
  unfolding pick
  successes_of key (finishes now tick n) s = ran_to_success key tick (pick n s.executing)
  successes_of key _ s = 0

  unfoldable pub successes : String → List Step → WorkerService → ℕ
  unfolding successes_of step
  successes key [] s = 0
  successes key (x ∷ xs) s = let rest = successes key xs (step x s) in successes_of key x s + rest
