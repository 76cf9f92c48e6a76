-- ===== src/Worker/Pool/Stored.antt =====
-- internal/worker/pool.go: what a table of jobs says after a job was processed.
use ingress_api_gateway.Prelude.{
  ℕ, ◌-◌, ◌/◌, String, ◌≡◌, refl, ap, ◌∙◌, true, false, not, ◌||◌, some, List, eq_refl, Bool-cases,
  inl, inr,
}
use ingress_api_gateway.Prelude.Int.{inc}
use ingress_api_gateway.Domain.Error.{error_text, is_error, err_non_retryable}
use ingress_api_gateway.Domain.Result.{Result, ok, err, ignore}
use ingress_api_gateway.Domain.Job.{
  Job, JobAttempt, can_retry, job_status_failed, job_status_processing,
}
use ingress_api_gateway.Domain.Ports.{
  Queue, JobRepository, Cache, Env, Runtime, World, Processor, on_store, on_cache,
  workers_active_inc, tick, jobs_failed,
}
use ingress_api_gateway.Domain.Laws.{IsJobTable}
use ingress_api_gateway.Worker.Pool.{
  now, RetryConfig, process, run_locked, run_guarded, finish, succeed, fail_attempt, to_dead_letter,
  schedule_retry, find_processor, succeeded_job, dead_letter_job, retried_job, done_key, lock_key,
  lock_ttl, is_done,
}
use ingress_api_gateway.Worker.Pool.Verdict.{called}

module _ {Q S C E : Type 0} (queue : Queue Q) (jobs : JobRepository S) (kept : Job → Job)
    (merged : Job → Job → Job) (table : IsJobTable jobs kept merged)
    (answers : (j old : Job) (s : S)
      → (jobs.get_by_id j.id s).0 ≡ ok old
      → (jobs.update j s).0 ≡ ok tt)
    (cache : Cache C) (env : Env E) (rt : Runtime) (cfg : RetryConfig) where
  -- GetByID finds the job in a world.
  abbrev Reads : String → World Q S C E → Job → Type 0
  Reads id w old = (jobs.get_by_id id w.store).0 ≡ ok old

  abbrev clock : World Q S C E → ℕ × World Q S C E
  clock = now queue jobs cache env rt cfg

  update_reads :
      (j old : Job) (s : S)
      → (jobs.get_by_id j.id s).0 ≡ ok old
      → (jobs.get_by_id j.id (jobs.update j s).1).0 ≡ ok (merged j old)
  update_reads j old s h = table.updated j old j.id s h (answers j old s h) ∙ rw (eq_refl j.id) refl

  succeed_stored :
      (a : JobAttempt) (job old : Job) (w : World Q S C E)
      → Reads job.id w old
      → let out = succeed queue jobs cache env rt cfg a job w in
        Reads job.id out.1 (merged out.0.job old)
  unfolding succeed succeeded_job
  succeed_stored a job old w h = table.attempted job.id _ _ ∙ update_reads _ old w.store h

  to_dead_letter_stored :
      (job old : Job) (reason : String) (w : World Q S C E)
      → Reads job.id w old
      → let out = to_dead_letter queue jobs cache env rt cfg job reason w in
        Reads job.id out.1 (merged out.0.job old)
  unfolding to_dead_letter dead_letter_job
  to_dead_letter_stored job old reason w h = update_reads _ old w.store h

  schedule_retry_stored :
      (job old : Job) (reason : String) (w : World Q S C E)
      → Reads job.id w old
      → let out = schedule_retry queue jobs cache env rt cfg job reason w in
        Reads job.id out.1 (merged out.0.job old)
  unfolding schedule_retry retried_job
  schedule_retry_stored job old reason w h = update_reads _ old w.store h

  finish_stored :
      (a : JobAttempt) (job old : Job) (r : Result (Unit {0})) (w : World Q S C E)
      → Reads job.id w old
      → let out = finish queue jobs cache env rt cfg a job r w in
        Reads job.id out.1 (merged out.0.job old)
  unfolding fail_attempt
  finish_stored a job old (ok u) w h = succeed_stored a job old w h
  finish_stored a job old (err e) w h =
      let reason = error_text rt.quote e in
      let failed = record a { status = job_status_failed; error = reason } in
      let v : World Q S C E =
        ignore (on_store (jobs.add_attempt failed))
          (tick (env.count (jobs_failed job.job_type)) w) in
      let read' = table.attempted job.id failed w.store ∙ h in
      elim (Bool-cases (is_error e err_non_retryable || not (can_retry job))) [
        | inl p ↦ rw p (to_dead_letter_stored job old reason v read')
        | inr n ↦ rw n (schedule_retry_stored job old reason v read')
      ]

  -- The processor does not change what GetByID answers for the job that it runs.
  abbrev Untouched : Processor (World Q S C E) → Job → World Q S C E → Type 0
  Untouched p job w =
      let (t, w1) = clock w in
      let running = record job { status = job_status_processing; updated_at = t } in
      let w2 : World Q S C E = ignore (on_store (jobs.update running)) w1 in
      (jobs.get_by_id job.id (p.process running w2).1.store).0 ≡ (jobs.get_by_id job.id w2.store).0

  run_locked_stored :
      (start : ℕ) (p : Processor (World Q S C E)) (job old : Job) (w : World Q S C E)
      → Untouched p job w
      → Reads job.id w old
      → let out = run_locked queue jobs cache env rt cfg start p job w in
        Reads job.id out.1 (merged out.0.job old)
  unfolding run_locked
  run_locked_stored start p job old w keeps h =
      let (t, w1) = clock w in
      let running = record job { status = job_status_processing; updated_at = t } in
      let w2 = ignore (on_store (jobs.update running)) w1 in
      let (r, v) = p.process running w2 in
      let (end, v1) = clock v in
      let (t', v2) = clock v1 in
      let attempt : JobAttempt = record {
        job_id = running.id;
        attempt = inc running.retry_count;
        status = "";
        error = "";
        duration_ms = (end - start) / 1000000;
        created_at = t';
      } in
      finish_stored attempt running (merged running old) r v2
        (keeps ∙ update_reads running old w.store h)
      ∙ ap ok (table.merged_twice _ running old)

  run_guarded_stored :
      (start : ℕ) (p : Processor (World Q S C E)) (job old : Job) (w : World Q S C E)
      → is_done (cache.get (done_key job) w.cache).0 ≡ false
      → (cache.set_nx (lock_key job) "1" lock_ttl (cache.get (done_key job) w.cache).1).0 ≡ ok true
      → Untouched p job (
          ignore
            (on_cache (cache.set_nx (lock_key job) "1" lock_ttl))
            (ignore (on_cache (cache.get (done_key job))) w))
      → Reads job.id w old
      → let out = run_guarded queue jobs cache env rt cfg start p job w in
        Reads job.id out.1 (merged out.0.job old)
  unfolding run_guarded
  run_guarded_stored start p job old w fresh locked keeps h =
      let w1 = ignore (on_cache (cache.get (done_key job))) w in
      let w2 : World Q S C E = ignore (on_cache (cache.set_nx (lock_key job) "1" lock_ttl)) w1 in
      rw (fresh, locked) (run_locked_stored start p job old w2 keeps h)

  -- With a table of jobs that reads back what it was given and answers every Update of a job that it
  -- holds: of a job that the table holds, whose processor is found and changes in this call no answer
  -- of GetByID for that job, that is not marked as done and whose lock is taken, the table holds
  -- after `process`, whatever the processor answers, what it makes of an Update of the stored job
  -- with the one that `process` ends with.
  pub process_stored :
      (registry : List (Processor (World Q S C E))) (p : Processor (World Q S C E)) (job old : Job)
      (w : World Q S C E)
      → find_processor registry job.job_type ≡ some p
      → is_done (cache.get (done_key job) w.cache).0 ≡ false
      → (cache.set_nx (lock_key job) "1" lock_ttl (cache.get (done_key job) w.cache).1).0 ≡ ok true
      → let (running, v) = called queue jobs cache env rt cfg job w in
        (jobs.get_by_id job.id (p.process running v).1.store).0 ≡ (jobs.get_by_id job.id v.store).0
        → (jobs.get_by_id job.id w.store).0 ≡ ok old
        → let out = process queue jobs cache env rt cfg registry job w in
          (jobs.get_by_id job.id out.1.store).0 ≡ ok (merged out.0.job old)
  unfolding process
  process_stored registry p job old w found fresh locked keeps h =
      let w1 = tick (env.count workers_active_inc) w in
      let (start, w2) = clock w1 in
      rw found (run_guarded_stored start p job old w2 fresh locked keeps h)
