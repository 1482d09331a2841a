-- ===== src/Worker/Signature.antt =====
-- gateway/workers/service.py: the signature of a job. The HMAC of a text, the text that `json.dumps`
-- gives, and pydantic's text of an instant are parameters.
use mcp_gateway.Base.{
  ℕ, String, ◌≡◌, ◌≢◌, sym, ap, ◌∙◌, ◌⊎◌, inl, inr, true, Option, some, string_eq, ==→eq, ==_refl,
}
use mathlib.Core.Option.{some-injective}
use mcp_gateway.Base.Json.{str, obj, Fields, end, field}
use mcp_gateway.Models.{risk_value}
use mcp_gateway.Worker.Jobs.{WorkerJob}
use mcp_gateway.Worker.Service.{authenticate}

pub record Digest : Type 0 where
  pub hmac : String → String → String
  pub dumps : Fields → String
  pub iso : ℕ → String

module _ (d : Digest) where
  -- `job.model_dump(mode="json", exclude={"auth_token"})`
  unfoldable pub job_payload : WorkerJob → Fields
  job_payload job = field "job_id" (str job.job_id) (
      field "call_id" (str job.call_id) (
        field "tenant_id" (str job.tenant_id) (
          field "tool_name" (str job.tool_name) (
            field "risk_class" (str (risk_value job.risk_class)) (
              field "arguments" (obj job.arguments) (
                field "idempotency_key" (str job.idempotency_key)
                  (field "submitted_at" (str (d.iso job.submitted_at)) end)))))))

  unfoldable pub sign_job : String → WorkerJob → String
  unfolding job_payload
  sign_job secret job = d.hmac secret (d.dumps (job_payload job))

  -- `job.model_copy(update={"auth_token": _sign_job(job, secret)})`
  unfoldable pub signed : String → WorkerJob → WorkerJob
  unfolding sign_job
  signed secret job = record job { auth_token = sign_job secret job }

  -- Two jobs that say the same, but for the token and the text of the instant.
  pub record SameJob (j k : WorkerJob) : Type 0 where
    pub job_id : j.job_id ≡ k.job_id
    pub call_id : j.call_id ≡ k.call_id
    pub tenant_id : j.tenant_id ≡ k.tenant_id
    pub tool_name : j.tool_name ≡ k.tool_name
    pub risk_class : risk_value j.risk_class ≡ risk_value k.risk_class
    pub arguments : j.arguments ≡ k.arguments
    pub idempotency_key : j.idempotency_key ≡ k.idempotency_key
    pub submitted_at : d.iso j.submitted_at ≡ d.iso k.submitted_at

  same_payload : (j k : WorkerJob) → job_payload j ≡ job_payload k → SameJob j k
  unfolding job_payload
  same_payload j k h = record {
    job_id = cc h;
    call_id = cc h;
    tenant_id = cc h;
    tool_name = cc h;
    risk_class = cc h;
    arguments = cc h;
    idempotency_key = cc h;
    submitted_at = cc h;
  }

  -- A job that is signed with a secret passes `authenticate` of a service with the same secret.
  pub authenticate-signed :
      (secret : String) (job : WorkerJob)
      → authenticate (sign_job secret) (signed secret job) ≡ true
  unfolding authenticate signed sign_job job_payload
  authenticate-signed secret job = ==_refl (sign_job secret job)

  -- Two texts with one digest.
  pub record IsCollision (secret s t : String) : Type 0 where
    pub differ : s ≢ t
    pub same_digest : d.hmac secret s ≡ d.hmac secret t

  same_digest_lem :
      (secret : String) (j k : WorkerJob) (loads : String → Option Fields)
      → loads (d.dumps (job_payload j)) ≡ some (job_payload j)
      → loads (d.dumps (job_payload k)) ≡ some (job_payload k)
      → d.hmac secret (d.dumps (job_payload j)) ≡ d.hmac secret (d.dumps (job_payload k))
      → SameJob j k ⊎ IsCollision secret (d.dumps (job_payload j)) (d.dumps (job_payload k))
  same_digest_lem secret j k loads hj hk h =
      elim (string_eq.dec (d.dumps (job_payload j)) (d.dumps (job_payload k))) [
        | yes same ↦ inl (same_payload j k (some-injective _ _ (sym hj ∙ ap loads same ∙ hk)))
        | no differ ↦ inr (record { differ = differ; same_digest = h })
      ]

  -- A job that passes `authenticate` with the token of a signed job says what that job says, or
  -- exhibits two texts with one digest: nothing that the signature covers was changed. It needs that
  -- the texts of the two jobs' fields are read back.
  pub authenticate-SameJob :
      (secret : String) (job tampered : WorkerJob) (loads : String → Option Fields)
      → loads (d.dumps (job_payload tampered)) ≡ some (job_payload tampered)
      → loads (d.dumps (job_payload job)) ≡ some (job_payload job)
      → authenticate
          (sign_job secret)
          (record tampered { auth_token = (signed secret job).auth_token })
        ≡ true
      → SameJob tampered job
        ⊎ IsCollision secret (d.dumps (job_payload tampered)) (d.dumps (job_payload job))
  unfolding authenticate signed sign_job job_payload
  authenticate-SameJob secret job tampered loads ht hj h =
      same_digest_lem secret tampered job loads ht hj (==→eq _ _ h)
