-- ===== src/Repository/Jobs.antt =====
-- internal/repository/job_repository.go: the jobs table.
pub mod Listing
pub mod RoundTrip
pub mod Contract
pub mod Table
use ingress_api_gateway.Prelude.{
  decimal, join, ℕ, ◌+◌, String, Bool, true, false, ◌||◌, not, Option, none, some, List, [], ◌∷◌,
  ◌++◌, ◌<>◌, ◌==◌, eqb, if◌then◌else◌,
}
use ingress_api_gateway.Prelude.Int.{ℤ, pos, is_positive, ltb_ℤ, pos_part}
use ingress_api_gateway.Domain.Error.{Error, sentinel, wrap, err_not_found}
use ingress_api_gateway.Domain.Result.{Result, ok, err, Act}
use ingress_api_gateway.Domain.Job.{
  Job, JobAttempt, JobFilter, JobStatus, JobType, job_status_dead_letter,
}
use ingress_api_gateway.Domain.Ports.{JobRepository, Store}
use ingress_api_gateway.Repository.Database.{
  Postgres, Value, text, int, time, optional_time, RowReply, row, no_rows, failed, Rows, scan_error,
  scan_text, scan_int, scan_time, scan_optional_time, ◌>>=◌,
}
use ingress_api_gateway.Repository.Sql.{
  insert_job, update_job, job_columns, select_job, select_dead_letter, select_count_by_status,
  select_count_by_type, insert_attempt,
}
use ingress_api_gateway.Repository.Events.{
  exec_only, create_registration, upsert_payment_event, create_qr_scan_event,
  create_notification_event, create_audit_log,
}
use ingress_api_gateway.Repository.Query.{clamp_limit, conditions, list_text, list_args}

-- The arguments of Create, in the order of the columns that it names.
abbrev pub job_values : Job → List Value
job_values j =
    text j.id
    ∷ text j.job_type
    ∷ text j.payload
    ∷ text j.status
    ∷ int j.retry_count
    ∷ int j.max_retries
    ∷ text j.priority
    ∷ text j.idempotency_key
    ∷ text j.trace_id
    ∷ text j.error_message
    ∷ time j.created_at
    ∷ time j.updated_at
    ∷ optional_time j.processed_at
    ∷ []

abbrev pub update_values : Job → List Value
update_values j =
    text j.id
    ∷ text j.status
    ∷ int j.retry_count
    ∷ text j.error_message
    ∷ time j.updated_at
    ∷ optional_time j.processed_at
    ∷ []

-- The columns of `jobColumns`, in their order.
unfoldable pub scan_job : List Value → Result Job
scan_job (v0 ∷ v1 ∷ v2 ∷ v3 ∷ v4 ∷ v5 ∷ v6 ∷ v7 ∷ v8 ∷ v9 ∷ v10 ∷ v11 ∷ v12 ∷ []) = do
  id ← scan_text v0
  job_type ← scan_text v1
  payload ← scan_text v2
  status ← scan_text v3
  retry_count ← scan_int v4
  max_retries ← scan_int v5
  priority ← scan_text v6
  idempotency_key ← scan_text v7
  trace_id ← scan_text v8
  error_message ← scan_text v9
  created_at ← scan_time v10
  updated_at ← scan_time v11
  processed_at ← scan_optional_time v12
  ok (record {
    id = id;
    job_type = job_type;
    payload = payload;
    status = status;
    retry_count = retry_count;
    max_retries = max_retries;
    priority = priority;
    idempotency_key = idempotency_key;
    trace_id = trace_id;
    error_message = error_message;
    created_at = created_at;
    updated_at = updated_at;
    processed_at = processed_at;
  })
scan_job other = err scan_error

abbrev pub affected : Result ℕ → Result (Unit {0})
affected (ok n) = if eqb n 0 then err (sentinel err_not_found) else ok tt
affected (err e) = err (wrap "update job: " e "")

abbrev pub named_get_job : Result Job → Result Job
named_get_job (ok j) = ok j
named_get_job (err e) = err (wrap "get job: " e "")

abbrev pub got_job : RowReply → Result Job
got_job (row values) = named_get_job (scan_job values)
got_job no_rows = err (sentinel err_not_found)
got_job (failed e) = err (wrap "get job: " e "")

abbrev pub cons_scanned : Result Job → Result (List Job) → Result (List Job)
cons_scanned (ok job) (ok jobs) = ok (job ∷ jobs)
cons_scanned (ok job) (err e) = err e
cons_scanned (err e) rest = err (wrap "scan job: " e "")

abbrev pub ended : Option Error → Result (List Job)
ended none = ok []
ended (some e) = err e

-- The loop over the rows; an error after the last row fails the call.
unfoldable pub scan_jobs : Option Error → List (List Value) → Result (List Job)
scan_jobs after [] = ended after
scan_jobs after (values ∷ rest) = cons_scanned (scan_job values) (scan_jobs after rest)

abbrev pub queried : Result Rows → Result (List Job)
queried (ok rows) = scan_jobs rows.ended rows.all
queried (err e) = err (wrap "query jobs: " e "")

-- `out[key] = n`
unfoldable pub put_count : String → ℕ → List (String × ℕ) → List (String × ℕ)
put_count k n [] = (k, n) ∷ []
put_count k n ((j, m) ∷ rest) = if j == k then (j, n) ∷ rest else (j, m) ∷ put_count k n rest

abbrev pub counts_ended : Option Error → List (String × ℕ) → Result (List (String × ℕ))
counts_ended none out = ok out
counts_ended (some e) out = err e

-- Counts are not negative.
unfoldable pub scan_counts :
    Option Error → List (String × ℕ) → List (List Value) → Result (List (String × ℕ))
scan_counts after out [] = counts_ended after out
scan_counts after out ((text k ∷ int n ∷ []) ∷ rest) =
    scan_counts after (put_count k (pos_part n) out) rest
scan_counts after out (other ∷ rest) = err scan_error

abbrev pub counted : String → Result Rows → Result (List (String × ℕ))
counted step (ok rows) = scan_counts rows.ended [] rows.all
counted step (err e) = err (wrap step e "")

abbrev pub attempt_values : JobAttempt → List Value
attempt_values a =
    text a.job_id
    ∷ int a.attempt
    ∷ text a.status
    ∷ text a.error
    ∷ int (pos a.duration_ms)
    ∷ time a.created_at
    ∷ []

module _ {D : Type 0} (pg : Postgres D) where
  unfoldable pub create : Job → Act D (Unit {0})
  create j = exec_only pg "insert job: " insert_job (job_values j)

  unfoldable pub update : Job → Act D (Unit {0})
  update j d = let (r, d') = pg.exec update_job (update_values j) d in (affected r, d')

  unfoldable pub get_by_id : String → Act D Job
  get_by_id id d = let (r, d') = pg.query_row select_job (text id ∷ []) d in (got_job r, d')

  unfoldable pub query_jobs : String → List Value → Act D (List Job)
  query_jobs sql args d = let (r, d') = pg.query sql args d in (queried r, d')

  unfoldable pub list : JobFilter → Act D (List Job)
  unfolding query_jobs list_args
  list f = query_jobs (list_text (conditions f)) (list_args f)

  unfoldable pub list_dead_letter : ℤ → ℤ → Act D (List Job)
  unfolding query_jobs clamp_limit
  list_dead_letter limit offset =
      query_jobs select_dead_letter
        (text job_status_dead_letter ∷ int (clamp_limit limit) ∷ int offset ∷ [])

  unfoldable pub count_by_status : Act D (List (JobStatus × ℕ))
  count_by_status d =
      let (r, d') = pg.query select_count_by_status [] d in (counted "count by status: " r, d')

  unfoldable pub count_by_type : Act D (List (JobType × ℕ))
  count_by_type d =
      let (r, d') = pg.query select_count_by_type [] d in (counted "count by type: " r, d')

  unfoldable pub add_attempt : JobAttempt → Act D (Unit {0})
  add_attempt a = exec_only pg "insert job attempt: " insert_attempt (attempt_values a)

  abbrev pub postgres_jobs : JobRepository D
  postgres_jobs = record {
    create = create;
    update = update;
    get_by_id = get_by_id;
    list = list;
    list_dead_letter = list_dead_letter;
    count_by_status = count_by_status;
    count_by_type = count_by_type;
    add_attempt = add_attempt;
    ping = pg.ping;
  }

  abbrev pub postgres_store : Store D
  postgres_store = record {
    jobs = postgres_jobs;
    create_registration = create_registration pg;
    upsert_payment_event = upsert_payment_event pg;
    create_qr_scan_event = create_qr_scan_event pg;
    create_notification_event = create_notification_event pg;
    create_audit_log = create_audit_log pg;
  }
