-- ===== src/Testutil/Laws.antt =====
-- internal/testutil/store.go: the in-memory store as a map of jobs and a table of payments.
use ingress_api_gateway.Prelude.{
  ℕ, suc, ◌≤◌, ◌≡◌, refl, String, Bool, true, false, ◌&&◌, Option, none, some, List, [], ◌∷◌,
  length, length-take, arith, ◌==◌, eq_iff, if◌then◌else◌,
}
use ingress_api_gateway.Prelude.Int.{ℤ, pos, negsuc, is_positive, pos_part}
use ingress_api_gateway.Domain.Error.{sentinel, err_not_found}
use ingress_api_gateway.Domain.Result.{ok, err}
use ingress_api_gateway.Domain.Job.{Job, JobFilter}
use ingress_api_gateway.Domain.Event.{PaymentEvent}
use ingress_api_gateway.Service.Admin.{sum_counts}
use ingress_api_gateway.Testutil.{
  JobMap, InMemoryStore, find_job, put_job, store_create, store_update, store_get_by_id, store_list,
  matching, within_limit, after_offset, upsert, bump, count_by, store_count_by_status, job_count,
}

abbrev pub is_some : Option Job → Bool
is_some none = false
is_some (some j) = true

pub find_job-put_job :
    (id key : String) (j : Job) (m : JobMap)
    → find_job key (put_job id j m) ≡ (if id == key then some j else find_job key m)
unfolding find_job put_job
find_job-put_job id key j [] = refl
find_job-put_job id key j ((k, old) ∷ m) =
    ground (arith, eq_iff id key, eq_iff k id, eq_iff k key, find_job-put_job id key j m)

-- After a job is created, GetByID finds it under its id, and every other id as before.
pub store_get_by_id-store_create :
    (j : Job) (id : String) (s : InMemoryStore)
    → (store_get_by_id id (store_create j s).1).0
      ≡ (if j.id == id then ok j else (store_get_by_id id s).0)
unfolding store_get_by_id store_create
store_get_by_id-store_create j id s = rw find_job-put_job (ground arith)

-- Update fails with ErrNotFound and changes nothing for an id that was not created; else GetByID
-- finds the new job under its id, and every other id as before.
pub store_get_by_id-store_update :
    (j : Job) (id : String) (s : InMemoryStore)
    → let out = store_update j s in
      (out.0 ≡ (if is_some (find_job j.id s.jobs) then ok tt else err (sentinel err_not_found)))
      × ((store_get_by_id id out.1).0 ≡ (
          if is_some (find_job j.id s.jobs) && j.id == id then ok j else (store_get_by_id id s).0))
unfolding store_get_by_id store_update
store_get_by_id-store_update j id s = ground (arith, find_job-put_job j.id id j s.jobs)

unfoldable pub order_count : String → List PaymentEvent → ℕ
order_count order [] = 0
order_count order (p ∷ ps) =
    let rest = order_count order ps in if p.gateway_order_id == order then suc rest else rest

-- If the table holds at most one event of an order, it holds exactly one after an upsert of that order,
-- and as many of every other order as before.
pub order_count-upsert :
    (p : PaymentEvent) (order : String) (ps : List PaymentEvent)
    → order_count p.gateway_order_id ps ≤ 1
    → order_count order (upsert p ps)
      ≡ (if p.gateway_order_id == order then 1 else order_count order ps)
unfolding order_count upsert
order_count-upsert p order [] h = ground arith
order_count-upsert p order (old ∷ ps) h = ground (
  arith,
  order_count-upsert p order ps,
  eq_iff old.gateway_order_id p.gateway_order_id,
  eq_iff old.gateway_order_id order,
  eq_iff p.gateway_order_id order,
)

abbrev pub count_of : String → List (String × ℕ) → ℕ
count_of k [] = 0
count_of k ((j, n) ∷ m) = if j == k then n else count_of k m

count_of-bump :
    (k key : String) (m : List (String × ℕ))
    → count_of key (bump k m) ≡ (if k == key then suc (count_of key m) else count_of key m)
unfolding bump
count_of-bump k key [] = ground arith
count_of-bump k key ((j, n) ∷ m) =
    ground (arith, count_of-bump k key m, eq_iff j k, eq_iff j key, eq_iff k key)

unfoldable pub tally : (Job → String) → String → JobMap → ℕ
tally field key [] = 0
tally field key ((k, j) ∷ m) =
    let rest = tally field key m in if field j == key then suc rest else rest

count_of-count_by :
    (field : Job → String) (key : String) (m : JobMap)
    → count_of key (count_by field m) ≡ tally field key m
unfolding count_by tally
count_of-count_by field key [] = refl
count_of-count_by field key ((k, j) ∷ m) =
    ground (arith, count_of-bump (field j) key (count_by field m), count_of-count_by field key m)

sum_counts-bump : (k : String) (m : List (String × ℕ)) → sum_counts (bump k m) ≡ suc (sum_counts m)
unfolding bump
sum_counts-bump k [] = omega arith
sum_counts-bump k ((j, n) ∷ m) = ground (arith, sum_counts-bump k m)

sum_counts-count_by : (field : Job → String) (m : JobMap) → sum_counts (count_by field m) ≡ length m
unfolding count_by
sum_counts-count_by field [] = refl
sum_counts-count_by field ((k, j) ∷ m) =
    omega (arith, sum_counts-bump (field j) (count_by field m), sum_counts-count_by field m)

-- CountByStatus gives each status the number of stored jobs that are in it, and its counts add up
-- to the number of stored jobs.
pub store_count_by_status_lem :
    (s : InMemoryStore) (key : String) (counts : List (String × ℕ))
    → (store_count_by_status s).0 ≡ ok counts
    → (count_of key counts ≡ tally (λ j. j.status) key s.jobs) × (sum_counts counts ≡ job_count s)
unfolding store_count_by_status job_count
store_count_by_status_lem s key counts h = ground (
  arith,
  count_of-count_by (λ j. j.status) key s.jobs,
  sum_counts-count_by (λ j. j.status) s.jobs,
)

length-within_limit :
    (limit : ℤ) (out : List Job)
    → is_positive limit ≡ true
    → length (within_limit limit out) ≤ pos_part limit
unfolding within_limit
length-within_limit (pos n) out h = ground (arith, length-take n out)
length-within_limit (negsuc n) out h = ground arith

-- With a positive limit, List returns at most that many jobs.
pub length-store_list :
    (newest_first : List Job → List Job) (f : JobFilter) (s : InMemoryStore) (jobs : List Job)
    → is_positive f.limit ≡ true
    → (store_list newest_first f s).0 ≡ ok jobs
    → length jobs ≤ pos_part f.limit
unfolding store_list
length-store_list newest_first f s jobs h e = ground (
  arith,
  length-within_limit f.limit (after_offset f.offset (newest_first (matching f s.jobs))) h,
)
