-- ===== src/Testutil.antt =====
-- internal/testutil/store.go: the in-memory store that stands in for Postgres. The mutex makes each
-- operation one step. A map is a list in which each key stands once.
pub mod Laws
pub mod Contract
use ingress_api_gateway.Prelude.{
  ℕ, zero, suc, ◌+◌, String, Bool, true, false, not, ◌&&◌, ◌||◌, Option, none, some, List, [], ◌∷◌,
  ◌++◌, length, take, drop, ltb, leb, ◌==◌, if◌then◌else◌,
}
use ingress_api_gateway.Prelude.Int.{ℤ, pos, is_positive, pos_part, ltb_ℤ}
use ingress_api_gateway.Domain.Error.{sentinel, err_not_found}
use ingress_api_gateway.Domain.Result.{Result, ok, err, Act}
use ingress_api_gateway.Domain.Job.{
  Job, JobStatus, JobType, JobAttempt, JobFilter, job_status_dead_letter,
}
use ingress_api_gateway.Domain.Event.{
  Registration, PaymentEvent, QrScanEvent, NotificationEvent, AuditLog,
}
use ingress_api_gateway.Domain.Ports.{JobRepository, Store}

abbrev pub JobMap : Type 0
JobMap = List (String × Job)

pub record InMemoryStore : Type 0 where
  pub jobs : JobMap
  pub attempts : List JobAttempt
  pub registrations : List Registration
  pub payments : List PaymentEvent
  pub scans : List QrScanEvent
  pub notifications : List NotificationEvent
  pub audits : List AuditLog

abbrev pub new_in_memory_store : InMemoryStore
new_in_memory_store = record {
  jobs = [];
  attempts = [];
  registrations = [];
  payments = [];
  scans = [];
  notifications = [];
  audits = [];
}

unfoldable pub find_job : String → JobMap → Option Job
find_job id [] = none
find_job id ((k, j) ∷ m) = if k == id then some j else find_job id m

unfoldable pub put_job : String → Job → JobMap → JobMap
put_job id j [] = (id, j) ∷ []
put_job id j ((k, old) ∷ m) = if k == id then (id, j) ∷ m else (k, old) ∷ put_job id j m

unfoldable pub store_create : Job → Act InMemoryStore (Unit {0})
store_create j s = (ok tt, record s { jobs = put_job j.id j s.jobs })

abbrev pub update_found : Job → Option Job → Act InMemoryStore (Unit {0})
update_found j none s = (err (sentinel err_not_found), s)
update_found j (some old) s = (ok tt, record s { jobs = put_job j.id j s.jobs })

unfoldable pub store_update : Job → Act InMemoryStore (Unit {0})
store_update j s = update_found j (find_job j.id s.jobs) s

abbrev pub found_or_error : Option Job → Result Job
found_or_error none = err (sentinel err_not_found)
found_or_error (some j) = ok j

unfoldable pub store_get_by_id : String → Act InMemoryStore Job
store_get_by_id id s = (found_or_error (find_job id s.jobs), s)

unfoldable pub matches : JobFilter → Job → Bool
matches f j =
    (f.status == "" || j.status == f.status) && (f.job_type == "" || j.job_type == f.job_type)

unfoldable pub matching : JobFilter → JobMap → List Job
unfolding matches
matching f [] = []
matching f ((k, j) ∷ m) = let rest = matching f m in if matches f j then j ∷ rest else rest

-- An offset at or past the end leaves nothing; a negative one is ignored.
unfoldable pub after_offset : ℤ → List Job → List Job
after_offset offset out =
    if is_positive offset && ltb_ℤ offset (pos (length out))
    then drop (pos_part offset) out
    else if not (ltb_ℤ offset (pos (length out)))
    then []
    else out

unfoldable pub within_limit : ℤ → List Job → List Job
within_limit limit out =
    if is_positive limit && ltb_ℤ limit (pos (length out)) then take (pos_part limit) out else out

-- `newest_first` is `sort.Slice` by the time of creation.
unfoldable pub store_list : (List Job → List Job) → JobFilter → Act InMemoryStore (List Job)
unfolding matching after_offset within_limit
store_list newest_first f s =
    (ok (within_limit f.limit (after_offset f.offset (newest_first (matching f s.jobs)))), s)

unfoldable pub store_list_dead_letter : (List Job → List Job) → ℤ → ℤ → Act InMemoryStore (List Job)
store_list_dead_letter newest_first limit offset =
    store_list newest_first
      (record { status = job_status_dead_letter; job_type = ""; limit = limit; offset = offset })

-- `out[k]++`
unfoldable pub bump : String → List (String × ℕ) → List (String × ℕ)
bump k [] = (k, 1) ∷ []
bump k ((j, n) ∷ m) = if j == k then (j, n + 1) ∷ m else (j, n) ∷ bump k m

unfoldable pub count_by : (Job → String) → JobMap → List (String × ℕ)
unfolding bump
count_by field [] = []
count_by field ((k, j) ∷ m) = bump (field j) (count_by field m)

unfoldable pub store_count_by_status : Act InMemoryStore (List (JobStatus × ℕ))
unfolding count_by
store_count_by_status s = (ok (count_by (λ j. j.status) s.jobs), s)

unfoldable pub store_count_by_type : Act InMemoryStore (List (JobType × ℕ))
unfolding count_by
store_count_by_type s = (ok (count_by (λ j. j.job_type) s.jobs), s)

unfoldable pub store_add_attempt : JobAttempt → Act InMemoryStore (Unit {0})
store_add_attempt a s = (ok tt, record s { attempts = s.attempts ++ a ∷ [] })

unfoldable pub store_create_registration : Registration → Act InMemoryStore (Unit {0})
store_create_registration r s = (ok tt, record s { registrations = s.registrations ++ r ∷ [] })

-- The first event of the same order is replaced in place.
unfoldable pub upsert : PaymentEvent → List PaymentEvent → List PaymentEvent
upsert p [] = p ∷ []
upsert p (old ∷ rest) =
    if old.gateway_order_id == p.gateway_order_id then p ∷ rest else old ∷ upsert p rest

unfoldable pub store_upsert_payment_event : PaymentEvent → Act InMemoryStore (Unit {0})
unfolding upsert
store_upsert_payment_event p s = (ok tt, record s { payments = upsert p s.payments })

unfoldable pub store_create_qr_scan_event : QrScanEvent → Act InMemoryStore (Unit {0})
store_create_qr_scan_event e s = (ok tt, record s { scans = s.scans ++ e ∷ [] })

unfoldable pub store_create_notification_event : NotificationEvent → Act InMemoryStore (Unit {0})
store_create_notification_event n s =
    (ok tt, record s { notifications = s.notifications ++ n ∷ [] })

unfoldable pub store_create_audit_log : AuditLog → Act InMemoryStore (Unit {0})
store_create_audit_log l s = (ok tt, record s { audits = s.audits ++ l ∷ [] })

unfoldable pub job_count : InMemoryStore → ℕ
job_count s = length s.jobs

abbrev pub memory_jobs : (List Job → List Job) → JobRepository InMemoryStore
memory_jobs newest_first = record {
  create = store_create;
  update = store_update;
  get_by_id = store_get_by_id;
  list = store_list newest_first;
  list_dead_letter = store_list_dead_letter newest_first;
  count_by_status = store_count_by_status;
  count_by_type = store_count_by_type;
  add_attempt = store_add_attempt;
  ping = λ s. (ok tt, s);
}

abbrev pub memory_store : (List Job → List Job) → Store InMemoryStore
memory_store newest_first = record {
  jobs = memory_jobs newest_first;
  create_registration = store_create_registration;
  upsert_payment_event = store_upsert_payment_event;
  create_qr_scan_event = store_create_qr_scan_event;
  create_notification_event = store_create_notification_event;
  create_audit_log = store_create_audit_log;
}
