-- ===== src/Service/Admin.antt =====
-- internal/service/admin_service.go: inspection of jobs and the manual retry.
pub mod Retry
pub mod Stranded
use ingress_api_gateway.Prelude.{
  ℕ, ◌+◌, String, Bool, not, ◌&&◌, none, List, [], ◌∷◌, ◌<>◌, ◌==◌, if◌then◌else◌,
}
use ingress_api_gateway.Prelude.Int.{ℤ, pos}
use ingress_api_gateway.Domain.Error.{Error, sentinel, wrap, err_invalid_payload}
use ingress_api_gateway.Domain.Result.{
  Result, ok, err, Act, pure, fail, catch, map_error, ignore, ◌>>=◌, ◌>>◌,
}
use ingress_api_gateway.Domain.Job.{
  Job, JobStats, JobFilter, Priority, priority_high, priority_medium, priority_low,
  job_status_queued, job_status_failed, job_status_dead_letter,
}
use ingress_api_gateway.Domain.Ports.{Queue, JobRepository, Env, World, on_queue, on_store, on_env}

-- The job as a manual retry leaves it.
unfoldable pub reset_job : ℕ → Job → Job
reset_job now job = record job {
  status = job_status_queued;
  retry_count = pos 0;
  error_message = "";
  processed_at = none;
  updated_at = now;
}

abbrev pub not_retryable_text : Job → String → String
not_retryable_text job id =
    ": job " <> id <> " is in state " <> job.status <> " and cannot be retried"

abbrev pub sum_counts : List (String × ℕ) → ℕ
sum_counts [] = 0
sum_counts ((k, n) ∷ counts) = n + sum_counts counts

abbrev pub add_depth : Priority → Result ℕ → List (Priority × ℕ) → List (Priority × ℕ)
add_depth p (ok d) depths = (p, d) ∷ depths
add_depth p (err e) depths = depths

abbrev pub or_zero : Result ℕ → ℕ
or_zero (ok n) = n
or_zero (err e) = 0

module _ {Q S C E : Type 0} (queue : Queue Q) (jobs : JobRepository S) (env : Env E) where
  unfoldable pub list_jobs : JobFilter → Act (World Q S C E) (List Job)
  list_jobs f = on_store (jobs.list f)

  unfoldable pub get_job : String → Act (World Q S C E) Job
  get_job id = on_store (jobs.get_by_id id)

  unfoldable pub list_dead_letter : ℤ → ℤ → Act (World Q S C E) (List Job)
  list_dead_letter limit offset = on_store (jobs.list_dead_letter limit offset)

  unfoldable pub stats : Act (World Q S C E) JobStats
  stats = do
    by_status ← map_error (λ e. wrap "count by status: " e "") (on_store jobs.count_by_status)
    by_type ← map_error (λ e. wrap "count by type: " e "") (on_store jobs.count_by_type)
    high ← catch (on_queue (queue.depth priority_high))
    medium ← catch (on_queue (queue.depth priority_medium))
    low ← catch (on_queue (queue.depth priority_low))
    dead ← catch (on_queue queue.dead_letter_depth)
    now ← on_env env.now
    pure (record {
      by_status = by_status;
      by_type = by_type;
      total = sum_counts by_status;
      dead_letter = or_zero dead;
      queue_depths =
          add_depth priority_high high
            (add_depth priority_medium medium (add_depth priority_low low []));
      generated_at = now;
    })

  -- Persists the reset job, then queues it.
  unfoldable pub requeue : Job → Act (World Q S C E) Job
  requeue job = do
    now ← on_env env.now
    let fresh = reset_job now job
    map_error (λ e. wrap "update job: " e "") (on_store (jobs.update fresh))
    map_error (λ e. wrap "requeue job: " e "") (on_queue (queue.push fresh))
    pure fresh

  unfoldable pub retry_job : String → Act (World Q S C E) Job
  unfolding requeue reset_job
  retry_job id = do
    job ← on_store (jobs.get_by_id id)
    λ w.
        if not (job.status == job_status_failed) && not (job.status == job_status_dead_letter)
        then fail (wrap "" (sentinel err_invalid_payload) (not_retryable_text job id)) w
        else requeue job w
