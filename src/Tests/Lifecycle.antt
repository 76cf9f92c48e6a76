-- ===== src/Tests/Lifecycle.antt =====
-- A registration from its request to SUCCESS.
use ingress_api_gateway.Prelude.{ltb, if◌then◌else◌, ◌+◌, ℕ, ◌≡◌, refl, false, some, List, [], ◌∷◌}
use ingress_api_gateway.Prelude.Int.{pos}
use ingress_api_gateway.Domain.Result.{ok}
use ingress_api_gateway.Domain.Job.{Job, new_job, job_type_valid, priority_for_type}
use ingress_api_gateway.Domain.Ports.{World, Processor, Env, Store, Runtime, EnqueueRequest}
use ingress_api_gateway.Queue.{queue_pop, queue_push}
use ingress_api_gateway.Queue.Spec.{no_jobs, enter, serve}
use ingress_api_gateway.Queue.Refines.{KeepsJobs, Holds, stored}
use ingress_api_gateway.Service.Gateway.{GatewayConfig, enqueue, claim_with, effective_key}
use ingress_api_gateway.Repository.Jobs.{get_by_id, create, update}
use ingress_api_gateway.Repository.Jobs.Table.{Row, find_row, update_rows}
use ingress_api_gateway.Worker.Pool.{RetryConfig, process, find_processor}
use ingress_api_gateway.Worker.Processors.Registration.{
  registration_processor, process_registration,
}
use ingress_api_gateway.Service.Idempotency.{idempotency_redis_key}
use ingress_api_gateway.Lifecycle.{enqueue-pop-process}
use ingress_api_gateway.Tests.Reference.{
  queued, Memory, memory_cache, memory_cache-IsReliable, view, empty, counter, rt,
}
use ingress_api_gateway.Tests.Adapters.{Lists, server, contents, server-IsServer, nothing}
use ingress_api_gateway.Tests.Repository.{same, micros, row_table, row_table-IsPostgres}
use ingress_api_gateway.Tests.Delivery.{row_table_answers}
use ingress_api_gateway.Queue.{redis_queue}
use ingress_api_gateway.Repository.Jobs.{postgres_jobs}

abbrev config : GatewayConfig
config = record { max_retries = pos 3; idempotency_ttl = pos 10 }

abbrev retries : RetryConfig
retries = record { retry_base = pos 100; retry_max = pos 1000 }

-- JSON that keeps the id of a registration.
abbrev json : Runtime
json = record rt { encode_job = λ j. ok j.id; decode_job = λ s. ok (record queued { id = s }) }

abbrev decoded : Job → Job
decoded j = record queued { id = j.id }

json-KeepsJobs : KeepsJobs json (λ j. j.id) decoded
json-KeepsJobs = record { encodes = λ job. refl; decodes = λ job. refl }

nothing-Holds : Holds (λ j. j.id) (contents nothing) no_jobs
unfolding stored
nothing-Holds = record { high = refl; medium = refl; low = refl }

abbrev W : Type 0
W = World Lists (List Row) Memory ℕ

abbrev start : W
start = record { queue = nothing; store = []; cache = empty; env = 0 }

abbrev order : EnqueueRequest
order = record { job_type = "REGISTRATION"; payload = "{}"; idempotency_key = "k"; trace_id = "t" }

-- A clock that counts, and an id for each draw after the first.
abbrev env : Env ℕ
env = record counter { new_uuid = λ e. (if ltb e 1 then "u1" else "u2", e + 1) }

-- The tables other than that of the jobs take every row.
abbrev tables : Store (List Row)
tables = record {
  jobs = postgres_jobs row_table;
  create_registration = λ r s. (ok tt, s);
  upsert_payment_event = λ p s. (ok tt, s);
  create_qr_scan_event = λ q s. (ok tt, s);
  create_notification_event = λ n s. (ok tt, s);
  create_audit_log = λ a s. (ok tt, s);
}

-- The processor of registrations, with the gateway service for its welcome notification.
abbrev registrations : Processor W
registrations = registration_processor tables env json (
    enqueue (redis_queue server json (pos 5)) (postgres_jobs row_table) memory_cache env json
      config)

abbrev entered : Job
entered = new_job 1 "u1" "REGISTRATION" "{}" "k" "t" (pos 3)

abbrev taken : W
taken =
    (enqueue (redis_queue server json (pos 5)) (postgres_jobs row_table) memory_cache env json
      config order start).1

enqueue-pop-process_example :
    let (popped, q) = queue_pop server json (pos 5) taken.queue in
    let out =
      process
        (redis_queue server json (pos 5))
        (postgres_jobs row_table)
        memory_cache
        env
        json
        retries
        (registrations ∷ [])
        (decoded entered)
        (record taken { queue = q }) in
    (popped ≡ ok (some (decoded entered)))
    × (stored : Job) × ((get_by_id row_table "u1" out.1.store).0 ≡ ok stored)
    × (stored.status ≡ "SUCCESS")
unfolding enqueue claim_with new_job job_type_valid priority_for_type create queue_push enter serve
    find_processor find_row effective_key get_by_id update process_registration update_rows
    idempotency_redis_key
enqueue-pop-process_example =
    enqueue-pop-process server contents server-IsServer row_table same micros (λ d. d)
      row_table-IsPostgres row_table_answers memory_cache view memory_cache-IsReliable env json
      (λ j. j.id) decoded json-KeepsJobs (pos 5) config retries order start
      (record { job = entered; duplicate = false }) no_jobs no_jobs (registrations ∷ [])
      registrations nothing-Holds refl refl refl refl refl refl refl refl refl
