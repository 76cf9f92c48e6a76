-- ===== src/Worker/Pool.antt =====
-- internal/worker/pool.go: one job run through its processor, with retries, backoff and the
-- dead-letter queue. The goroutine that `process` starts for a delayed retry is its result.
pub mod Retries
pub mod Once
pub mod Verdict
pub mod Stored
pub mod ManualRetry
use ingress_api_gateway.Prelude.{
  ℕ, zero, suc, ◌+◌, ◌-◌, ◌*◌, ◌/◌, ◌^◌, min, String, Bool, true, false, not, ◌||◌, Option, none,
  some, List, [], ◌∷◌, ◌<>◌, ◌==◌, if◌then◌else◌,
}
use ingress_api_gateway.Prelude.Int.{ℤ, pos, negsuc, is_positive, pos_part, inc}
use ingress_api_gateway.Domain.Error.{Error, err_non_retryable, error_text, is_error}
use ingress_api_gateway.Domain.Result.{Result, ok, err, Act, ignore}
use ingress_api_gateway.Domain.Job.{
  Job, JobType, JobAttempt, job_status_queued, job_status_processing, job_status_success,
  job_status_failed, job_status_dead_letter, can_retry,
}
use ingress_api_gateway.Domain.Ports.{
  Queue, Cache, Store, JobRepository, Env, workers_active_inc, workers_active_dec, jobs_processed,
  jobs_failed, jobs_retried, jobs_dead_letter, Runtime, World, on_queue, on_store, on_cache, tick,
  Processor,
}

-- 24 hours and 2 minutes, in nanoseconds.
abbrev pub processed_ttl : ℤ
processed_ttl = pos 86400000000000

abbrev pub lock_ttl : ℤ
lock_ttl = pos 120000000000

abbrev pub done_key : Job → String
done_key job = "job:done:" <> job.id

abbrev pub lock_key : Job → String
lock_key job = "job:lock:" <> job.id

-- `RetryBase` and `RetryMax`, as nanoseconds.
pub record RetryConfig : Type 0 where
  pub retry_base : ℤ
  pub retry_max : ℤ

-- base * 2^(attempt - 1), truncated. It is exact in doubles for a base below 2^53 ns.
abbrev pub exponential : ℕ → ℤ → ℕ
exponential base (pos zero) = base / 2
exponential base (pos (suc n)) = base * 2 ^ n
exponential base (negsuc n) = base / 2 ^ (n + 2)

-- The largest delay of an attempt; an unset base is 500 ms, an unset maximum 30 s.
unfoldable pub backoff_cap : RetryConfig → ℤ → ℕ
backoff_cap cfg attempt =
    let base = if is_positive cfg.retry_base then pos_part cfg.retry_base else 500000000 in
    let max = if is_positive cfg.retry_max then pos_part cfg.retry_max else 30000000000 in
    min (exponential base attempt) max

-- `reg[p.Type()] = p` for each processor in turn: the last one of a type stays.
abbrev pub registered :
    {W : Type 0} → JobType → Processor W → Option (Processor W) → Option (Processor W)
registered t p (some q) = some q
registered t p none = if p.type == t then some p else none

unfoldable pub find_processor : {W : Type 0} → List (Processor W) → JobType → Option (Processor W)
find_processor [] t = none
find_processor (p ∷ ps) t = registered t p (find_processor ps t)

abbrev pub is_done : Result (Option String) → Bool
is_done (ok (some v)) = not (v == "")
is_done (ok none) = false
is_done (err e) = false

abbrev pub is_acquired : Result Bool → Bool
is_acquired (ok b) = b
is_acquired (err e) = false

-- What a call of `process` leaves: the job as it was changed, and the delay of the retry that it
-- scheduled, if any.
pub record Outcome : Type 0 where
  pub job : Job
  pub retry : Option ℕ

module _ {Q S C E : Type 0} (queue : Queue Q) (jobs : JobRepository S) (cache : Cache C)
    (env : Env E) (rt : Runtime) (cfg : RetryConfig) where
  abbrev pub now : World Q S C E → ℕ × World Q S C E
  now w = let (t, e) = env.now w.env in (t, record w { env = e })

  -- Full jitter: a random delay up to the cap.
  unfoldable pub backoff : ℤ → World Q S C E → ℕ × World Q S C E
  unfolding backoff_cap
  backoff attempt w =
      let (d, e) = env.int63n (backoff_cap cfg attempt + 1) w.env in (d, record w { env = e })

  unfoldable pub dead_letter_job : ℕ → String → Job → Job
  dead_letter_job t reason job = record job {
    status = job_status_dead_letter;
    error_message = reason;
    updated_at = t;
    processed_at = some t;
  }

  unfoldable pub to_dead_letter : Job → String → World Q S C E → Outcome × World Q S C E
  unfolding dead_letter_job
  to_dead_letter job reason w =
      let (t, w) = now w in
      let dead = dead_letter_job t reason job in
      let w = ignore (on_store (jobs.update dead)) w in
      let w = ignore (on_queue (queue.push_dead_letter dead)) w in
      let w = ignore (on_cache (cache.set (done_key dead) "1" processed_ttl)) w in
      let w = tick (env.count (jobs_dead_letter dead.job_type)) w in
      let w = tick (env.count (jobs_processed dead.job_type job_status_dead_letter)) w in
      (record { job = dead; retry = none }, w)

  unfoldable pub succeeded_job : ℕ → Job → Job
  succeeded_job t job = record job {
    status = job_status_success;
    processed_at = some t;
    updated_at = t;
    error_message = "";
  }

  unfoldable pub succeed : JobAttempt → Job → World Q S C E → Outcome × World Q S C E
  unfolding succeeded_job
  succeed attempt job w =
      let (t, w) = now w in
      let finished = succeeded_job t job in
      let w = ignore (on_store (jobs.update finished)) w in
      let w = ignore (on_cache (cache.set (done_key finished) "1" processed_ttl)) w in
      let a = record attempt { status = job_status_success } in
      let w = ignore (on_store (jobs.add_attempt a)) w in
      let w = tick (env.count (jobs_processed finished.job_type job_status_success)) w in
      (record { job = finished; retry = none }, w)

  unfoldable pub retried_job : ℕ → String → Job → Job
  retried_job t reason job = record job {
    retry_count = inc job.retry_count;
    status = job_status_queued;
    error_message = reason;
    updated_at = t;
  }

  unfoldable pub schedule_retry : Job → String → World Q S C E → Outcome × World Q S C E
  unfolding retried_job backoff
  schedule_retry job reason w =
      let (t, w) = now w in
      let retried = retried_job t reason job in
      let w = ignore (on_store (jobs.update retried)) w in
      let (delay, w) = backoff retried.retry_count w in
      let w = tick (env.count (jobs_retried retried.job_type)) w in
      (record { job = retried; retry = some delay }, w)

  unfoldable pub fail_attempt : JobAttempt → Job → Error → World Q S C E → Outcome × World Q S C E
  unfolding to_dead_letter schedule_retry can_retry
  fail_attempt attempt job e w =
      let w = tick (env.count (jobs_failed job.job_type)) w in
      let reason = error_text rt.quote e in
      let a = record attempt { status = job_status_failed; error = reason } in
      let w = ignore (on_store (jobs.add_attempt a)) w in
      if is_error e err_non_retryable || not (can_retry job)
      then to_dead_letter job reason w
      else schedule_retry job reason w

  abbrev pub finish : JobAttempt → Job → Result (Unit {0}) → World Q S C E → Outcome × World Q S C E
  finish attempt job (ok _) w = succeed attempt job w
  finish attempt job (err e) w = fail_attempt attempt job e w

  -- The part that runs under the lock.
  unfoldable pub run_locked :
      ℕ → Processor (World Q S C E) → Job → World Q S C E → Outcome × World Q S C E
  unfolding succeed fail_attempt
  run_locked start p job w =
      let (t, w) = now w in
      let running = record job { status = job_status_processing; updated_at = t } in
      let w = ignore (on_store (jobs.update running)) w in
      let (r, w) = p.process running w in
      let (end, w) = now w in
      let (t', w) = now w in
      let attempt : JobAttempt = record {
        job_id = running.id;
        attempt = inc running.retry_count;
        status = "";
        error = "";
        duration_ms = (end - start) / 1000000;
        created_at = t';
      } in
      finish attempt running r w

  unfoldable pub run_guarded :
      ℕ → Processor (World Q S C E) → Job → World Q S C E → Outcome × World Q S C E
  run_guarded start p job w =
      let skipped : Outcome = record { job = job; retry = none } in
      let (done, w) = on_cache (cache.get (done_key job)) w in
      if is_done done
      then (skipped, w)
      else let (acquired, w) = on_cache (cache.set_nx (lock_key job) "1" lock_ttl) w in
        if is_acquired acquired
        then (let (out, w) = run_locked start p job w in
            (out, ignore (on_cache (cache.del (lock_key job))) w))
        else (skipped, w)

  abbrev pub dispatch_job :
      ℕ → Option (Processor (World Q S C E)) → Job → World Q S C E → Outcome × World Q S C E
  dispatch_job start none job w = to_dead_letter job "no processor registered" w
  dispatch_job start (some p) job w = run_guarded start p job w

  unfoldable pub process :
      List (Processor (World Q S C E)) → Job → World Q S C E → Outcome × World Q S C E
  unfolding run_guarded
  process registry job w =
      let w = tick (env.count workers_active_inc) w in
      let (start, w) = now w in
      let (out, w) = dispatch_job start (find_processor registry job.job_type) job w in
      (out, tick (env.count workers_active_dec) w)
