-- ===== src/Worker/Jobs.antt =====
-- gateway/workers/models.py, and the state of the `WorkerService` of gateway/workers/service.py. A
-- future is named by a number.
use mcp_gateway.Base.{ℕ, String, Bool, false, Option, List, [], ◌==◌, nat_eq, string_eq, is_some}
use mcp_gateway.Base.{if◌then◌else◌}
use mcp_gateway.Base.Dict.{Dict, lookup, insert}
use mcp_gateway.Base.Json.{Fields}
use mcp_gateway.Models.{RiskClass, risk_class_eq}
use mcp_gateway.Errors.{Exn}
use mcp_gateway.Worker.Circuit.{CircuitBreaker}

pub record WorkerJob : Type 0 where
  pub job_id : String
  pub call_id : String
  pub tenant_id : String
  pub tool_name : String
  pub risk_class : RiskClass
  pub arguments : Fields
  pub idempotency_key : String
  pub submitted_at : ℕ
  pub auth_token : String

pub record WorkerResult : Type 0 where
  pub job_id : String
  pub outcome : String
  pub output : Option Fields
  pub error_code : Option String
  pub error_message : Option String
  pub completed_at : ℕ

pub record ReconciliationRecord : Type 0 where
  pub job_id : String
  pub call_id : String
  pub idempotency_key : String
  pub risk_class : RiskClass
  pub status : String
  pub detail : String
  pub updated_at : ℕ

-- What a future that is done holds.
pub data Outcome : Type 0 where
  returned : WorkerResult → Outcome
  failed : Exn → Outcome
  cancelled : Outcome

abbrev pub Entry : Type 0
Entry = WorkerJob × ℕ

-- `running` is whether there are tasks; `executing` has the jobs that tasks run, and `stopping` those
-- whose tasks are cancelled and have not ended. `futures` has those that are done.
pub record WorkerService : Type 0 where
  pub running : Bool
  pub queue : List Entry
  pub executing : List Entry
  pub stopping : List Entry
  pub futures : Dict ℕ Outcome
  pub next_future : ℕ
  pub idempotent_results : Dict String WorkerResult
  pub inflight : Dict String Entry
  pub reconciliation : Dict String ReconciliationRecord
  pub breaker : CircuitBreaker

abbrev pub new_service : CircuitBreaker → WorkerService
new_service breaker = record {
  running = false;
  queue = [];
  executing = [];
  stopping = [];
  futures = [];
  next_future = 0;
  idempotent_results = [];
  inflight = [];
  reconciliation = [];
  breaker = breaker;
}

abbrev pub uncertain : ℕ → WorkerJob → String → ReconciliationRecord
uncertain now job detail = record {
  job_id = job.job_id;
  call_id = job.call_id;
  idempotency_key = job.idempotency_key;
  risk_class = job.risk_class;
  status = "needs_review";
  detail = detail;
  updated_at = now;
}

unfoldable pub mark_uncertain : ℕ → WorkerJob → String → WorkerService → WorkerService
mark_uncertain now job detail s = record s {
  reconciliation = insert job.job_id (uncertain now job detail) s.reconciliation;
}

abbrev pub reads_only : WorkerJob → Bool
reads_only job = job.risk_class == RiskClass.read_only

abbrev pub mark_mutation : ℕ → WorkerJob → String → WorkerService → WorkerService
mark_mutation now job detail s = if reads_only job then s else mark_uncertain now job detail s

-- `if not future.done(): future.set_…`
unfoldable pub resolve : ℕ → Outcome → WorkerService → WorkerService
resolve f o s =
    if is_some (lookup f s.futures) then s else record s { futures = insert f o s.futures }
