-- ===== src/Service/Admin/Retry.antt =====
-- internal/service/admin_service.go: which jobs a manual retry takes, and what it does to them.
use ingress_api_gateway.Prelude.{String, ◌≡◌, Bool, true, false, ◌||◌, none, arith, ◌==◌}
use ingress_api_gateway.Prelude.Int.{pos}
use ingress_api_gateway.Domain.Error.{err_invalid_payload, is_error}
use ingress_api_gateway.Domain.Result.{ok, fails_with}
use ingress_api_gateway.Domain.Job.{
  Job, job_status_queued, job_status_failed, job_status_dead_letter,
}
use ingress_api_gateway.Domain.Ports.{Queue, JobRepository, Env, World}
use ingress_api_gateway.Domain.Laws.{FindsById}
use ingress_api_gateway.Service.Admin.{retry_job}

-- The states that a manual retry takes.
abbrev pub is_retryable : Job → Bool
is_retryable job = job.status == job_status_failed || job.status == job_status_dead_letter

-- What a manual retry that succeeds has done to the job it found.
pub record IsRequeued {Q S C E : Type 0} (queue : Queue Q) (jobs : JobRepository S)
    (w w' : World Q S C E) (job fresh : Job) (s : S) : Type 0 where
  pub status : fresh.status ≡ job_status_queued
  pub retry_count : fresh.retry_count ≡ pos 0
  pub error_message : fresh.error_message ≡ ""
  pub processed_at : fresh.processed_at ≡ none
  pub id : fresh.id ≡ job.id
  pub payload : fresh.payload ≡ job.payload
  pub max_retries : fresh.max_retries ≡ job.max_retries
  pub priority : fresh.priority ≡ job.priority
  pub updated : (jobs.update fresh s).0 ≡ ok tt
  pub store : w'.store ≡ (jobs.update fresh s).1
  pub pushed : (queue.push fresh w.queue).0 ≡ ok tt
  pub queued : w'.queue ≡ (queue.push fresh w.queue).1

module _ {Q S C E : Type 0} (queue : Queue Q) (jobs : JobRepository S) (env : Env E) where
  -- A manual retry that succeeds had found a job in FAILED or DEAD_LETTER; the fresh job is QUEUED with
  -- no retries and no error, has the id, payload, limit and priority of the old one, and was stored and
  -- then queued, both with success.
  pub retry_job-IsRequeued :
      (id : String) (w : World Q S C E) (job fresh : Job)
      → (jobs.get_by_id id w.store).0 ≡ ok job
      → (retry_job {C = C} queue jobs env id w).0 ≡ ok fresh
      → (is_retryable job ≡ true)
        × IsRequeued queue jobs w
            (retry_job queue jobs env id w).1
            job
            fresh
            (jobs.get_by_id id w.store).1
  unfolding retry_job
  retry_job-IsRequeued id w job fresh found h = (ground arith, ground arith)

  -- A job in another state is refused with ErrInvalidPayload, is not written, and nothing is queued.
  pub retry_job_refuses :
      (id : String) (w : World Q S C E) (job : Job)
      → (jobs.get_by_id id w.store).0 ≡ ok job
      → is_retryable job ≡ false
      → let out = retry_job queue jobs env id w in
        (fails_with out.0 err_invalid_payload ≡ true)
        × (out.1.queue ≡ w.queue)
        × (out.1.store ≡ (jobs.get_by_id id w.store).1)
  unfolding retry_job is_error
  retry_job_refuses id w job found h = ground arith

  -- A manual retry does not touch the cache.
  pub cache-retry_job :
      (id : String) (w : World Q S C E) → (retry_job queue jobs env id w).1.cache ≡ w.cache
  unfolding retry_job
  cache-retry_job id w = ground arith

  -- It hands out the job that was asked for.
  pub id-retry_job :
      (id : String) (w : World Q S C E) (fresh : Job)
      → FindsById jobs
      → (retry_job queue jobs env id w).0 ≡ ok fresh
      → fresh.id ≡ id
  unfolding retry_job
  id-retry_job id w fresh finds h = grind (arith, finds)
