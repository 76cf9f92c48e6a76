-- ===== src/Tests/Delivery.antt =====
-- A registration from the request to the jobs table and the queue, and a job that fails in the pool.
use ingress_api_gateway.Prelude.{ℕ, ◌≡◌, refl, false, none, List, [], Option-cases, inl, inr, arith}
use ingress_api_gateway.Prelude.Int.{pos}
use ingress_api_gateway.Domain.Result.{ok}
use ingress_api_gateway.Domain.Job.{Job, job_status_queued, priority_for_type, job_type_valid}
use ingress_api_gateway.Domain.Ports.{World, Enqueuer}
use ingress_api_gateway.Queue.{queue_push}
use ingress_api_gateway.Queue.Spec.{no_jobs, enter}
use ingress_api_gateway.Queue.Refines.{Holds}
use ingress_api_gateway.Service.Gateway.{GatewayConfig, enqueue, claim_with}
use ingress_api_gateway.Repository.Jobs.{get_by_id, create, update}
use ingress_api_gateway.Repository.Jobs.Table.{Row, find_row, mutated}
use ingress_api_gateway.Repository.Jobs.Table
use ingress_api_gateway.Api.Http.{bytes, Request}
use ingress_api_gateway.Api.Handlers.Validate.{validate_payload}
use ingress_api_gateway.Api.Handlers.Gateway.{accept}
use ingress_api_gateway.Api.Handlers.Gateway.Delivers.{enqueuer, accept_delivers}
use ingress_api_gateway.Tests.Reference.{Memory, memory_cache, empty, counter, rt}
use ingress_api_gateway.Tests.Adapters.{
  Lists, server, contents, server-IsServer, encode, restored, rt-KeepsJobs, nothing, nothing-Holds,
}
use ingress_api_gateway.Tests.Repository.{same, micros, row_table, row_table-IsPostgres}

abbrev config : GatewayConfig
config = record { max_retries = pos 3; idempotency_ttl = pos 10 }

abbrev start : World Lists (List Row) Memory ℕ
start = record { queue = nothing; store = []; cache = empty; env = 0 }

abbrev registration : Request
registration = record {
  method = "POST";
  path = "/api/v1/gateway/registrations";
  route = "/api/v1/gateway/registrations";
  header = λ k. "";
  content_length = pos 2;
  body = λ limit. bytes "{}";
  limit = none;
  remote_addr = "1.2.3.4:5";
  request_id = "r";
  trace_id = "t";
}

abbrev service : Enqueuer (World Lists (List Row) Memory ℕ)
service =
    enqueuer server contents server-IsServer row_table same micros (λ d. d) row_table-IsPostgres
      memory_cache counter rt encode restored rt-KeepsJobs (pos 5) config "s"

accept_delivers_example :
    let w = (accept rt service "s" "REGISTRATION" false registration start).1 in
    (job : Job) × (job.job_type ≡ "REGISTRATION")
    × (job.status ≡ job_status_queued)
    × (job.priority ≡ "MEDIUM")
    × ((get_by_id row_table job.id w.store).0 ≡ ok (Table.restored same micros job))
    × Holds encode (contents w.queue) (enter job no_jobs)
unfolding accept validate_payload enqueue job_type_valid claim_with create find_row queue_push
    priority_for_type
accept_delivers_example =
    accept_delivers server contents server-IsServer row_table same micros (λ d. d)
      row_table-IsPostgres memory_cache counter rt encode restored rt-KeepsJobs (pos 5) config "s"
      "REGISTRATION" false registration start no_jobs nothing-Holds refl

pub row_table_answers :
    (j old : Job) (d : List Row)
    → (get_by_id row_table j.id d).0 ≡ ok old
    → (update row_table j d).0 ≡ ok tt
unfolding get_by_id update
row_table_answers j old d h = elim (Option-cases (find_row j.id d)) [
  | inl p ↦ ground arith
  | inr (r, p) ↦ rw p refl
]
