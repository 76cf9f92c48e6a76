-- ===== src/Worker/Pool/Verdict.antt =====
-- internal/worker/pool.go: how the result of a processor decides the state of a job.
use ingress_api_gateway.Prelude.{
  ℕ, String, ◌≡◌, Bool, true, false, not, ◌||◌, Option, none, some, List, arith, inl, inr,
  if◌then◌else◌,
}
use ingress_api_gateway.Prelude.Int.{inc}
use ingress_api_gateway.Domain.Error.{Error, err_non_retryable, error_text, is_error}
use ingress_api_gateway.Domain.Result.{Result, Result-cases, ok, err, ignore}
use ingress_api_gateway.Domain.Job.{
  Job, JobStatus, job_status_queued, job_status_success, job_status_dead_letter,
  job_status_processing, can_retry,
}
use ingress_api_gateway.Domain.Ports.{
  Queue, Cache, JobRepository, Env, Runtime, World, Processor, tick, on_cache, on_store,
  workers_active_inc,
}
use ingress_api_gateway.Worker.Pool.{
  RetryConfig, process, run_locked, to_dead_letter, find_processor, done_key, lock_key, lock_ttl,
  is_done, now,
}

abbrev pub is_final : Error → Job → Bool
is_final e job = is_error e err_non_retryable || not (can_retry job)

abbrev pub verdict : Result (Unit {0}) → Job → JobStatus
verdict (ok _) job = job_status_success
verdict (err e) job = if is_final e job then job_status_dead_letter else job_status_queued

abbrev pub is_rescheduled : Result (Unit {0}) → Job → Bool
is_rescheduled (ok _) job = false
is_rescheduled (err e) job = not (is_final e job)

abbrev pub message : (String → String) → Result (Unit {0}) → String
message quote (ok _) = ""
message quote (err e) = error_text quote e

abbrev pub has_delay : Option ℕ → Bool
has_delay none = false
has_delay (some d) = true

module _ {Q S C E : Type 0} (queue : Queue Q) (jobs : JobRepository S) (cache : Cache C)
    (env : Env E) (rt : Runtime) (cfg : RetryConfig) where
  -- The job and the world that `process` calls the processor with, once it has the lock.
  abbrev pub called : Job → World Q S C E → Job × World Q S C E
  called job w =
      let (start, w) = now queue jobs cache env rt cfg (tick (env.count workers_active_inc) w) in
      let w = ignore (on_cache (cache.get (done_key job))) w in
      let w = ignore (on_cache (cache.set_nx (lock_key job) "1" lock_ttl)) w in
      let (t, w) = now queue jobs cache env rt cfg w in
      let running = record job { status = job_status_processing; updated_at = t } in
      (running, ignore (on_store (jobs.update running)) w)

  -- What the processor answers to that call.
  abbrev pub answer : Processor (World Q S C E) → Job → World Q S C E → Result (Unit {0})
  answer p job w = let (running, v) = called job w in (p.process running v).0

  -- A job whose processor is found, that is not marked as done and whose lock is taken: the answer of its
  -- processor to the job in state PROCESSING, in the world in which it is called, and the retry budget
  -- decide whether it ends as SUCCESS, QUEUED or DEAD_LETTER. It has the text of the error, and is
  -- scheduled again, with one retry more, exactly if the answer is an error that may be retried and
  -- budget is left.
  pub process-verdict :
      (registry : List (Processor (World Q S C E))) (p : Processor (World Q S C E)) (job : Job)
      (w : World Q S C E)
      → find_processor registry job.job_type ≡ some p
      → is_done (cache.get (done_key job) w.cache).0 ≡ false
      → (cache.set_nx (lock_key job) "1" lock_ttl (cache.get (done_key job) w.cache).1).0 ≡ ok true
      → let r = answer p job w in
        let out = (process queue jobs cache env rt cfg registry job w).0 in
        (out.job.status ≡ verdict r job)
        × (has_delay out.retry ≡ is_rescheduled r job)
        × (out.job.error_message ≡ message rt.quote r)
        × (out.job.retry_count
            ≡ (if is_rescheduled r job then inc job.retry_count else job.retry_count))
  unfolding process run_locked can_retry
  process-verdict registry p job w found fresh locked = elim (Result-cases (answer p job w)) [
    | inl (u, result) ↦ grind (arith, result)
    | inr (e, result) ↦ grind (arith, result)
  ]

  -- A job of a type without a processor is dead-lettered: it is not scheduled again, and the only calls
  -- to the store and the queue are one update and one push onto the dead-letter list.
  pub process_unregistered :
      (registry : List (Processor (World Q S C E))) (job : Job) (w : World Q S C E)
      → find_processor registry job.job_type ≡ none
      → let out = process queue jobs cache env rt cfg registry job w in
        (out.0.job.status ≡ job_status_dead_letter)
        × (out.0.retry ≡ none)
        × (out.1.queue ≡ (queue.push_dead_letter out.0.job w.queue).1)
        × (out.1.store ≡ (jobs.update out.0.job w.store).1)
  unfolding process to_dead_letter
  process_unregistered registry job w found = ground arith
