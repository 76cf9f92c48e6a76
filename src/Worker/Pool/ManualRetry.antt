-- ===== src/Worker/Pool/ManualRetry.antt =====
-- internal/worker/pool.go with internal/service/admin_service.go: deliveries after a final one.
use ingress_api_gateway.Prelude.{String, ◌≡◌, ap, ◌∙◌, Option, none, some, List, ◌<>◌}
use ingress_api_gateway.Domain.Result.{ok}
use ingress_api_gateway.Domain.Job.{Job}
use ingress_api_gateway.Domain.Ports.{Queue, Cache, JobRepository, Env, Runtime, World, Processor}
use ingress_api_gateway.Domain.Laws.{IsReliable, FindsById}
use ingress_api_gateway.Service.Admin.{retry_job}
use ingress_api_gateway.Service.Admin.Retry.{cache-retry_job, id-retry_job}
use ingress_api_gateway.Worker.Pool.{RetryConfig, process, find_processor, done_key, lock_key}
use ingress_api_gateway.Worker.Pool.Once.{process_marks_done, process_skips_done}

module _ {Q S C E : Type 0} (queue : Queue Q) (jobs : JobRepository S) (cache : Cache C)
    (env : Env E) (rt : Runtime) (cfg : RetryConfig) (view : C → String → Option String)
    (reliable : IsReliable cache view) (registry : List (Processor (World Q S C E))) where
  -- With a reliable cache: after a delivery of a job that was neither marked as done nor locked, and
  -- that schedules no retry, a later delivery of the same job id, of a type with a processor and while
  -- the done marker is as the first one left it, changes neither the store nor the queue.
  pub process-process :
      (p : Processor (World Q S C E)) (job again : Job) (w v : World Q S C E)
      → view w.cache (done_key job) ≡ none
      → view w.cache (lock_key job) ≡ none
      → (process queue jobs cache env rt cfg registry job w).0.retry ≡ none
      → again.id ≡ job.id
      → view v.cache (done_key job)
        ≡ view (process queue jobs cache env rt cfg registry job w).1.cache (done_key job)
      → find_processor registry again.job_type ≡ some p
      → let out = process queue jobs cache env rt cfg registry again v in
        (out.0.retry ≡ none)
        × (out.0.job ≡ again)
        × (out.1.store ≡ v.store)
        × (out.1.queue ≡ v.queue)
  process-process p job again w v fresh free over same kept found =
      process_skips_done queue jobs cache env rt cfg view reliable registry p again v found (
        ap (λ i. view v.cache ("job:done:" <> i)) same
        ∙ kept
        ∙ process_marks_done queue jobs cache env rt cfg view reliable registry job w fresh free
            over)

  -- With a reliable cache and a repository that finds jobs by their id: after a delivery of a job that
  -- was neither marked as done nor locked, and that schedules no retry, while the done marker is as that
  -- delivery left it, the fresh job of a manual retry, of a type with a processor, is skipped by the
  -- worker that takes it: store and queue are as the manual retry left them, and no retry is scheduled.
  pub process-retry_job :
      (p : Processor (World Q S C E)) (job fresh : Job) (w v : World Q S C E)
      → view w.cache (done_key job) ≡ none
      → view w.cache (lock_key job) ≡ none
      → (process queue jobs cache env rt cfg registry job w).0.retry ≡ none
      → view v.cache (done_key job)
        ≡ view (process queue jobs cache env rt cfg registry job w).1.cache (done_key job)
      → (retry_job queue jobs env job.id v).0 ≡ ok fresh
      → FindsById jobs
      → find_processor registry fresh.job_type ≡ some p
      → let v' = (retry_job queue jobs env job.id v).1 in
        let out = process queue jobs cache env rt cfg registry fresh v' in
        (out.0.retry ≡ none)
        × (out.0.job ≡ fresh)
        × (out.1.store ≡ v'.store)
        × (out.1.queue ≡ v'.queue)
  process-retry_job p job fresh w v unmarked free over kept retried finds found =
      process-process p job fresh w (retry_job queue jobs env job.id v).1 unmarked free over
        (id-retry_job queue jobs env job.id v fresh finds retried)
        (rw (cache-retry_job queue jobs env job.id v) kept) found
