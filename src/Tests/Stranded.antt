-- ===== src/Tests/Stranded.antt =====
-- internal/service/admin_service.go: a manual retry whose push fails, on the in-memory store.
use ingress_api_gateway.Prelude.{◌∷◌, ℕ, ◌≡◌, refl, true, String, List, []}
use ingress_api_gateway.Domain.Error.{foreign, wrap, err_invalid_payload}
use ingress_api_gateway.Domain.Result.{ok, err, fails_with}
use ingress_api_gateway.Domain.Job.{Job, new_job, job_status_dead_letter}
use ingress_api_gateway.Domain.Ports.{Queue, JobRepository, World}
use ingress_api_gateway.Testutil.{
  InMemoryStore, new_in_memory_store, memory_jobs, store_create, store_get_by_id, store_update,
  find_job, put_job,
}
use ingress_api_gateway.Testutil.{store_count_by_status, put_job, count_by, bump, job_count}
use ingress_api_gateway.Service.Admin.{sum_counts}
use ingress_api_gateway.Testutil.Laws.{count_of, tally, store_count_by_status_lem}
use ingress_api_gateway.Testutil.Contract.{memory_jobs-IsJobTable}
use ingress_api_gateway.Service.Admin.{retry_job, reset_job}
use ingress_api_gateway.Service.Admin.Stranded.{retry_job-retry_job}
use ingress_api_gateway.Tests.Reference.{Memory, empty, list_queue, counter, queued}

abbrev W : Type 0
W = World (List Job) InMemoryStore Memory ℕ

abbrev table : JobRepository InMemoryStore
table = memory_jobs (λ jobs. jobs)

-- A queue that takes no job.
abbrev full_queue : Queue (List Job)
full_queue = record list_queue { push = λ job q. (err (foreign "OOM"), q) }

abbrev dead_job : Job
dead_job = record queued { status = job_status_dead_letter }

abbrev before : W
before = record {
  queue = [];
  store = (store_create dead_job new_in_memory_store).1;
  cache = empty;
  env = 0;
}

read_only :
    (id id' : String) (s : InMemoryStore)
    → (table.get_by_id id (table.get_by_id id' s).1).0 ≡ (table.get_by_id id s).0
unfolding store_get_by_id
read_only id id' s = refl

retry_job-retry_job_example :
    let out = retry_job full_queue table counter "u1" before in
    let again = retry_job full_queue table counter "u1" out.1 in
    (out.0 ≡ err (wrap "requeue job: " (foreign "OOM") ""))
    × ((store_get_by_id "u1" out.1.store).0 ≡ ok (reset_job 0 dead_job))
    × ((reset_job 0 dead_job).status ≡ "QUEUED")
    × (fails_with again.0 err_invalid_payload ≡ true)
    × (again.1.queue ≡ [])
unfolding retry_job new_job store_create store_get_by_id store_update find_job put_job
retry_job-retry_job_example =
    retry_job-retry_job full_queue table counter (λ j. j) (λ j old. j)
      (memory_jobs-IsJobTable (λ jobs. jobs)) (λ j old. refl) read_only dead_job before
      (retry_job full_queue table counter "u1" before).1 (foreign "OOM") refl refl refl refl refl

abbrev two_jobs : InMemoryStore
two_jobs =
    (store_create (record dead_job { id = "u2"; status = "QUEUED" })
      (store_create dead_job new_in_memory_store).1).1

store_count_by_status_lem_example :
    (count_of "QUEUED" (("QUEUED", 1) ∷ ("DEAD_LETTER", 1) ∷ []) ≡ 1)
    × (sum_counts (("QUEUED", 1) ∷ ("DEAD_LETTER", 1) ∷ []) ≡ 2)
unfolding store_create store_count_by_status put_job tally count_by bump job_count new_job
store_count_by_status_lem_example =
    store_count_by_status_lem two_jobs "QUEUED" (("QUEUED", 1) ∷ ("DEAD_LETTER", 1) ∷ []) refl
