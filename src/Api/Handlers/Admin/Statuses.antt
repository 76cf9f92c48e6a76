-- ===== src/Api/Handlers/Admin/Statuses.antt =====
-- internal/api/handlers/admin_handler.go over internal/service/admin_service.go: which status a
-- manual retry answers with, and what it leaves of the queue.
use ingress_api_gateway.Prelude.{
  ℕ, String, Bool, true, false, ◌≡◌, Option, refl, arith, if◌then◌else◌,
}
use ingress_api_gateway.Prelude.Int.{ℤ}
use ingress_api_gateway.Domain.Error.{is_error, err_not_found, err_invalid_payload}
use ingress_api_gateway.Domain.Result.{Result, ok, err}
use ingress_api_gateway.Domain.Job.{Job}
use ingress_api_gateway.Domain.Ports.{Queue, JobRepository, Env, World}
use ingress_api_gateway.Service.Admin.{
  list_jobs, get_job, list_dead_letter, stats, retry_job, reset_job, requeue,
}
use ingress_api_gateway.Service.Admin.Retry.{is_retryable}
use ingress_api_gateway.Api.Http.{Request, one_job, write_error, write_json}
use ingress_api_gateway.Api.Handlers.Admin.{AdminService, retry_job_handler, reply_retry, failed}

-- The job was found, in a state that a manual retry takes.
abbrev pub is_takable : Result Job → Bool
is_takable (err e) = false
is_takable (ok job) = is_retryable job

-- The status that a manual retry is refused with.
abbrev pub refusal : Result Job → ℕ
refusal (err e) =
    if is_error e err_not_found then 404 else if is_error e err_invalid_payload then 409 else 500
refusal (ok job) = 409

module _ {Q S C E : Type 0} (queue : Queue Q) (jobs : JobRepository S) (env : Env E) where
  -- `NewAdminService`
  abbrev pub new_admin_service : AdminService (World Q S C E)
  new_admin_service = record {
    list_jobs = list_jobs queue jobs env;
    get_job = get_job queue jobs env;
    list_dead_letter = list_dead_letter queue jobs env;
    stats = stats queue jobs env;
    retry_job = retry_job queue jobs env;
  }

  module _ (query url_param : Request → String → String) (atoi : String → Option ℤ)
      (quote : String → String) where
    retry_job_handler_lem :
        (r : Request) (w : World Q S C E)
        → retry_job_handler new_admin_service query url_param atoi quote r w ≡ (
            let out = retry_job queue jobs env (url_param r "id") w in
            (reply_retry quote r out.0, out.1))
    unfolding retry_job_handler
    retry_job_handler_lem r w = refl

    -- A manual retry over HTTP of a job that is not found, or is in no state that a retry takes: the
    -- answer is 404 for ErrNotFound, 409 for a state that is not taken, else 500, nothing is queued, and
    -- the store is as the lookup left it.
    pub retry_job_handler_refuses :
        (r : Request) (w : World Q S C E) (found : Result Job)
        → (jobs.get_by_id (url_param r "id") w.store).0 ≡ found
        → is_takable found ≡ false
        → let out = retry_job_handler new_admin_service query url_param atoi quote r w in
          (out.0.status ≡ refusal found)
          × (out.1.queue ≡ w.queue)
          × (out.1.store ≡ (jobs.get_by_id (url_param r "id") w.store).1)
    unfolding retry_job is_error failed write_error write_json
    retry_job_handler_refuses r w (ok job) e h = rw retry_job_handler_lem (ground arith)
    retry_job_handler_refuses r w (err x) e h = rw retry_job_handler_lem (ground arith)

    -- A retry that is answered with 200 has queued the job again: the answer holds the fresh job, which
    -- the store and the queue took.
    pub retry_job_handler_accepts :
        (r : Request) (w : World Q S C E) (job : Job)
        → (jobs.get_by_id (url_param r "id") w.store).0 ≡ ok job
        → let out = retry_job_handler new_admin_service query url_param atoi quote r w in
          out.0.status ≡ 200
          → let fresh = reset_job (env.now w.env).0 job in
            (out.0.payload ≡ one_job fresh)
            × (is_retryable job ≡ true)
            × (out.1.queue ≡ (queue.push fresh w.queue).1)
            × ((queue.push fresh w.queue).0 ≡ ok tt)
    unfolding retry_job requeue failed write_error write_json
    retry_job_handler_accepts r w job found h = ground (arith, retry_job_handler_lem r w)
