-- ===== src/Tests/Pool.antt =====
-- internal/worker/pool.go at concrete inputs.
use ingress_api_gateway.Prelude.{ℕ, ◌≡◌, refl, true, none, some, List, [], ◌∷◌, arith}
use ingress_api_gateway.Prelude.Int.{pos}
use ingress_api_gateway.Domain.Error.{foreign, is_error, error_text}
use ingress_api_gateway.Domain.Result.{ok, err}
use ingress_api_gateway.Domain.Job.{Job, can_retry, new_job}
use ingress_api_gateway.Domain.Ports.{World, Processor}
use ingress_api_gateway.Service.Admin.{retry_job, reset_job}
use ingress_api_gateway.Worker.Pool.{
  RetryConfig, Outcome, process, run_locked, find_processor, to_dead_letter,
}
use ingress_api_gateway.Worker.Pool.Retries.{IsRetry, process-IsRetry, deliver, deliver_ends}
use ingress_api_gateway.Service.Gateway.{enqueue}
use ingress_api_gateway.Domain.Ports.{Store}
use ingress_api_gateway.Worker.Processors.Registration.{
  registration_processor, process_registration,
}
use ingress_api_gateway.Worker.Pool.Verdict.{has_delay, process-verdict}
use ingress_api_gateway.Worker.Pool.ManualRetry.{process-retry_job}
use ingress_api_gateway.Tests.Reference.{
  Memory, memory_cache, memory_cache-IsReliable, view, list_queue, list_jobs, list_jobs-FindsById,
  counter, counter-DrawsBelow, rt, queued, fresh_world, row_of,
}

abbrev W : Type 0
W = World (List Job) (List Job) Memory ℕ

abbrev config : RetryConfig
config = record { retry_base = pos 100; retry_max = pos 1000 }

-- A processor whose errors may be retried.
abbrev bad : Processor W
bad = record { type = "REGISTRATION"; process = λ job w. (err (foreign "timeout"), w) }

abbrev run : List (Processor W) → Job → W → Outcome × W
run = process list_queue list_jobs memory_cache counter rt config

deliver_ends_example :
    (out : Outcome) × (deliver list_queue list_jobs memory_cache counter rt config 4
        (bad ∷ [])
        (λ w. w)
        queued
        fresh_world
      ≡ some out)
unfolding new_job
deliver_ends_example =
    deliver_ends list_queue list_jobs memory_cache counter rt config counter-DrawsBelow (bad ∷ [])
      (λ w. w) 4 0 3 queued fresh_world refl refl (omega arith) (omega arith)

process-IsRetry_example :
    IsRetry list_queue list_jobs memory_cache counter rt config queued
      (run (bad ∷ []) queued fresh_world).0.job
      0
unfolding process run_locked new_job find_processor can_retry is_error
process-IsRetry_example =
    process-IsRetry list_queue list_jobs memory_cache counter rt config counter-DrawsBelow
      (bad ∷ []) queued fresh_world 0 refl

-- Tables that cannot take a registration.
abbrev tables : Store (List Job)
tables = record {
  jobs = list_jobs;
  create_registration = λ r s. (err (foreign "timeout"), s);
  upsert_payment_event = λ p s. (ok tt, s);
  create_qr_scan_event = λ q s. (ok tt, s);
  create_notification_event = λ n s. (ok tt, s);
  create_audit_log = λ a s. (ok tt, s);
}

abbrev registrations : Processor W
registrations = registration_processor tables counter rt (
    enqueue list_queue list_jobs memory_cache counter rt
      (record { max_retries = pos 3; idempotency_ttl = pos 10 }))

process-verdict_example :
    let out = (run (registrations ∷ []) queued fresh_world).0 in
    (out.job.status ≡ "QUEUED")
    × (has_delay out.retry ≡ true)
    × (out.job.error_message ≡ "store registration: timeout")
    × (out.job.retry_count ≡ pos 1)
unfolding new_job find_processor can_retry is_error error_text process_registration
process-verdict_example =
    process-verdict list_queue list_jobs memory_cache counter rt config (registrations ∷ [])
      registrations queued fresh_world refl refl refl

-- A job whose last retry fails is dead-lettered.
abbrev spent : Job
spent = record queued { retry_count = pos 3 }

abbrev dead : W
dead = (run (bad ∷ []) spent fresh_world).1

abbrev dead_job : Job
dead_job = (run (bad ∷ []) spent fresh_world).0.job

abbrev fresh : Job
fresh = reset_job dead.env dead_job

process-retry_job_example :
    let v' = (retry_job list_queue list_jobs counter "u1" dead).1 in
    let out = run (bad ∷ []) fresh v' in
    (out.0.retry ≡ none) × (out.0.job ≡ fresh) × (out.1.store ≡ v'.store) × (out.1.queue ≡ v'.queue)
unfolding process run_locked find_processor new_job can_retry is_error to_dead_letter retry_job
    row_of error_text
process-retry_job_example =
    process-retry_job list_queue list_jobs memory_cache counter rt config view
      memory_cache-IsReliable (bad ∷ []) bad spent fresh fresh_world dead refl refl refl refl refl
      list_jobs-FindsById refl
