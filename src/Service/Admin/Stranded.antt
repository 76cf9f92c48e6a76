-- ===== src/Service/Admin/Stranded.antt =====
-- internal/service/admin_service.go: a manual retry whose push fails.
use ingress_api_gateway.Prelude.{String, ◌≡◌, refl, ap, ◌∙◌, true, ◌||◌, ◌==◌, eq_refl, arith}
use ingress_api_gateway.Domain.Error.{Error, wrap, err_invalid_payload}
use ingress_api_gateway.Domain.Result.{Result, ok, err, fails_with}
use ingress_api_gateway.Domain.Job.{
  Job, job_status_queued, job_status_failed, job_status_dead_letter,
}
use ingress_api_gateway.Domain.Laws.{IsJobTable}
use ingress_api_gateway.Domain.Ports.{Queue, JobRepository, Env, World}
use ingress_api_gateway.Service.Admin.{retry_job, reset_job}
use ingress_api_gateway.Service.Admin.Retry.{is_retryable, retry_job_refuses}

module _ {Q S C E : Type 0} (queue : Queue Q) (jobs : JobRepository S) (env : Env E)
    (kept : Job → Job) (merged : Job → Job → Job) (table : IsJobTable jobs kept merged)
    (merged_status : (j old : Job) → (merged j old).status ≡ j.status)
    (read_only : (id id' : String) (s : S)
      → (jobs.get_by_id id (jobs.get_by_id id' s).1).0 ≡ (jobs.get_by_id id s).0) where
  abbrev retry : String → World Q S C E → Result Job × World Q S C E
  retry = retry_job queue jobs env

  requeue_fails :
      (job : Job) (w : World Q S C E) (e : Error)
      → (jobs.get_by_id job.id w.store).0 ≡ ok job
      → is_retryable job ≡ true
      → let fresh = reset_job (env.now w.env).0 job in
        let found = (jobs.get_by_id job.id w.store).1 in
        (jobs.update fresh found).0 ≡ ok tt
        → (queue.push fresh w.queue).0 ≡ err e
        → ((retry job.id w).0 ≡ err (wrap "requeue job: " e ""))
          × ((retry job.id w).1.store ≡ (jobs.update fresh found).1)
  unfolding retry_job
  requeue_fails job w e found retryable updated failed = ground arith

  -- With a table of jobs that reads back what it was given, whose Update sets the status, and whose reads
  -- change no answer: a manual retry of a job in FAILED or DEAD_LETTER, whose Update answers ok and whose
  -- Push fails, answers that error and leaves the job QUEUED in the table; and while the table reads the
  -- job as that retry left it, every further manual retry of it is refused with ErrInvalidPayload and
  -- queues nothing.
  pub retry_job-retry_job :
      (job : Job) (w v : World Q S C E) (e : Error)
      → (jobs.get_by_id job.id w.store).0 ≡ ok job
      → is_retryable job ≡ true
      → let fresh = reset_job (env.now w.env).0 job in
        (jobs.update fresh (jobs.get_by_id job.id w.store).1).0 ≡ ok tt
        → (queue.push fresh w.queue).0 ≡ err e
        → (jobs.get_by_id job.id v.store).0 ≡ (jobs.get_by_id job.id (retry job.id w).1.store).0
        → ((retry job.id w).0 ≡ err (wrap "requeue job: " e ""))
          × ((jobs.get_by_id job.id v.store).0 ≡ ok (merged fresh job))
          × ((merged fresh job).status ≡ job_status_queued)
          × (fails_with (retry job.id v).0 err_invalid_payload ≡ true)
          × ((retry job.id v).1.queue ≡ v.queue)
  unfolding reset_job
  retry_job-retry_job job w v e found retryable updated failed same =
      let fresh = reset_job (env.now w.env).0 job in
      let s = (jobs.get_by_id job.id w.store).1 in
      let (answer, left) = requeue_fails job w e found retryable updated failed in
      let queued : (merged fresh job).status ≡ job_status_queued = merged_status fresh job in
      let row : (jobs.get_by_id job.id v.store).0 ≡ ok (merged fresh job) =
        same
        ∙ ap (λ u. (jobs.get_by_id job.id u).0) left
        ∙ table.updated fresh job job.id s (read_only job.id job.id w.store ∙ found) updated
        ∙ rw (eq_refl job.id) refl in
      let refused =
        retry_job_refuses queue jobs env job.id v (merged fresh job) row
          (ap (λ st. st == job_status_failed || st == job_status_dead_letter) queued) in
      (answer, row, queued, refused.0, refused.1)
