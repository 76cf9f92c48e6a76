-- ===== src/Testutil/Contract.antt =====
-- internal/testutil/store.go is a table of jobs, like the store in Postgres that it stands in for.
use ingress_api_gateway.Prelude.{
  String, ◌≡◌, refl, List, arith, ◌==◌, eq_iff, Option-cases, inl, inr, if◌then◌else◌,
}
use ingress_api_gateway.Domain.Result.{ok}
use ingress_api_gateway.Domain.Job.{Job, JobAttempt}
use ingress_api_gateway.Domain.Laws.{IsJobTable}
use ingress_api_gateway.Testutil.{
  JobMap, InMemoryStore, find_job, put_job, store_create, store_update, store_get_by_id,
  store_add_attempt, found_or_error, memory_jobs,
}
use ingress_api_gateway.Testutil.Laws.{find_job-put_job}

get-put :
    (j : Job) (id : String) (m : JobMap)
    → found_or_error (find_job id (put_job j.id j m))
      ≡ (if id == j.id then ok j else found_or_error (find_job id m))
get-put j id m = ground (arith, find_job-put_job j.id id j m, eq_iff id j.id, eq_iff j.id id)

created :
    (j : Job) (id : String) (s : InMemoryStore)
    → (store_create j s).0 ≡ ok tt
    → (store_get_by_id id (store_create j s).1).0
      ≡ (if id == j.id then ok j else (store_get_by_id id s).0)
unfolding store_create store_get_by_id
created j id s h = get-put j id s.jobs

updated :
    (j old : Job) (id : String) (s : InMemoryStore)
    → (store_get_by_id j.id s).0 ≡ ok old
    → (store_update j s).0 ≡ ok tt
    → (store_get_by_id id (store_update j s).1).0
      ≡ (if id == j.id then ok j else (store_get_by_id id s).0)
unfolding store_update store_get_by_id
updated j old id s found h = elim (Option-cases (find_job j.id s.jobs)) [
  | inl p ↦ ground arith
  | inr (stored, p) ↦ rw p (get-put j id s.jobs)
]

attempted :
    (id : String) (a : JobAttempt) (s : InMemoryStore)
    → (store_get_by_id id (store_add_attempt a s).1).0 ≡ (store_get_by_id id s).0
unfolding store_add_attempt store_get_by_id
attempted id a s = refl

-- The in-memory store is a table of jobs: it keeps a new job as it is, and an Update replaces it.
pub memory_jobs-IsJobTable :
    (newest_first : List Job → List Job)
    → IsJobTable (memory_jobs newest_first) (λ j. j) (λ j old. j)
memory_jobs-IsJobTable newest_first = record {
  created = created;
  updated = updated;
  attempted = attempted;
  merged_twice = λ j k old. refl;
}
