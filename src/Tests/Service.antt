-- ===== src/Tests/Service.antt =====
-- internal/service at concrete inputs.
use ingress_api_gateway.Prelude.{ℕ, ◌≡◌, refl, true, false, none, some, List, [], ◌∷◌}
use ingress_api_gateway.Prelude.Int.{pos}
use ingress_api_gateway.Domain.Error.{foreign, wrap}
use ingress_api_gateway.Domain.Result.{ok, err, Act}
use ingress_api_gateway.Domain.Job.{Job, new_job, job_type_valid, job_status_dead_letter}
use ingress_api_gateway.Domain.Ports.{Queue, World, EnqueueRequest, EnqueueResult}
use ingress_api_gateway.Service.Idempotency.{idempotency_redis_key}
use ingress_api_gateway.Service.Gateway.{GatewayConfig, enqueue, claim_with, effective_key}
use ingress_api_gateway.Service.Gateway.Idempotent.{answered_id, is_duplicate, enqueue-enqueue}
use ingress_api_gateway.Service.Gateway.Failures.{enqueue_fails_clean}
use ingress_api_gateway.Service.Admin.{retry_job, reset_job}
use ingress_api_gateway.Service.Admin.Retry.{IsRequeued, retry_job-IsRequeued, is_retryable}
use ingress_api_gateway.Tests.Reference.{
  Memory, memory_cache, memory_cache-IsReliable, view, list_queue, list_jobs, list_jobs-FindsById,
  counter, rt, queued, fresh_world, row_of,
}

abbrev config : GatewayConfig
config = record { max_retries = pos 3; idempotency_ttl = pos 10 }

abbrev request : EnqueueRequest
request = record {
  job_type = "REGISTRATION";
  payload = "{}";
  idempotency_key = "k";
  trace_id = "t";
}

abbrev other_request : EnqueueRequest
other_request = record request { trace_id = "t2" }

abbrev run : EnqueueRequest → Act (World (List Job) (List Job) Memory ℕ) EnqueueResult
run = enqueue list_queue list_jobs memory_cache counter rt config

abbrev first_job : Job
first_job = new_job 1 "u1" "REGISTRATION" "{}" "k" "t" (pos 3)

abbrev first_result : EnqueueResult
first_result = record { job = first_job; duplicate = false }

run_first : (run request fresh_world).0 ≡ ok first_result
unfolding enqueue claim_with effective_key idempotency_redis_key job_type_valid
run_first = refl

enqueue-enqueue_example :
    let w = (run request fresh_world).1 in
    let out = run other_request w in
    (answered_id out.0 ≡ some "u1") × (is_duplicate out.0 ≡ true) × (out.1.queue ≡ w.queue)
unfolding job_type_valid effective_key new_job
enqueue-enqueue_example =
    enqueue-enqueue list_queue list_jobs memory_cache counter rt config view memory_cache-IsReliable
      request other_request fresh_world (run request fresh_world).1 first_result run_first refl refl
      refl refl refl refl refl list_jobs-FindsById

-- A queue that takes no job.
abbrev full_queue : Queue (List Job)
full_queue = record list_queue { push = λ job q. (err (foreign "OOM"), q) }

run_full :
    (enqueue full_queue list_jobs memory_cache counter rt config request fresh_world).0
    ≡ err (wrap "queue job: " (foreign "OOM") "")
unfolding enqueue claim_with effective_key idempotency_redis_key job_type_valid
run_full = refl

enqueue_fails_clean_example :
    let out = enqueue full_queue list_jobs memory_cache counter rt config request fresh_world in
    out.1.cache "idemp:REGISTRATION:k" ≡ none
enqueue_fails_clean_example =
    enqueue_fails_clean full_queue list_jobs memory_cache counter rt config view
      memory_cache-IsReliable request fresh_world (wrap "queue job: " (foreign "OOM") "")
      "idemp:REGISTRATION:k" run_full refl

abbrev dead_job : Job
dead_job = record queued { status = job_status_dead_letter; retry_count = pos 3 }

abbrev dead_world : World (List Job) (List Job) Memory ℕ
dead_world = record fresh_world { store = dead_job ∷ [] }

retry_job-IsRequeued_example :
    let out = retry_job list_queue list_jobs counter "u1" dead_world in
    (is_retryable dead_job ≡ true)
    × IsRequeued list_queue list_jobs dead_world out.1 dead_job
        (reset_job 0 dead_job)
        (dead_job ∷ [])
unfolding retry_job row_of new_job
retry_job-IsRequeued_example =
    retry_job-IsRequeued list_queue list_jobs counter "u1" dead_world dead_job
      (reset_job 0 dead_job) refl refl
