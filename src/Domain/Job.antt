-- ===== src/Domain/Job.antt =====
-- internal/domain/job.go: the job, its types, states and priorities. Go's string types are texts,
-- so that values outside the constants exist, as they do in the source. A time is a number of
-- nanoseconds.
use ingress_api_gateway.Prelude.{ℕ, String, Bool, ◌||◌, Option, none, List, ◌==◌, if◌then◌else◌}
use ingress_api_gateway.Prelude.Int.{ℤ, pos, ltb_ℤ}

abbrev pub JobType : Type 0
JobType = String

abbrev pub job_type_registration : JobType
job_type_registration = "REGISTRATION"

abbrev pub job_type_payment_webhook : JobType
job_type_payment_webhook = "PAYMENT_WEBHOOK"

abbrev pub job_type_qr_scan : JobType
job_type_qr_scan = "QR_SCAN"

abbrev pub job_type_notification : JobType
job_type_notification = "NOTIFICATION"

-- `JobType.Valid`.
unfoldable pub job_type_valid : JobType → Bool
job_type_valid t =
    t == job_type_registration
    || t == job_type_payment_webhook
    || t == job_type_qr_scan
    || t == job_type_notification

abbrev pub JobStatus : Type 0
JobStatus = String

abbrev pub job_status_queued : JobStatus
job_status_queued = "QUEUED"

abbrev pub job_status_processing : JobStatus
job_status_processing = "PROCESSING"

abbrev pub job_status_success : JobStatus
job_status_success = "SUCCESS"

abbrev pub job_status_failed : JobStatus
job_status_failed = "FAILED"

abbrev pub job_status_dead_letter : JobStatus
job_status_dead_letter = "DEAD_LETTER"

abbrev pub Priority : Type 0
Priority = String

abbrev pub priority_low : Priority
priority_low = "LOW"

abbrev pub priority_medium : Priority
priority_medium = "MEDIUM"

abbrev pub priority_high : Priority
priority_high = "HIGH"

unfoldable pub priority_for_type : JobType → Priority
priority_for_type t =
    if t == job_type_payment_webhook || t == job_type_qr_scan
    then priority_high
    else if t == job_type_registration
    then priority_medium
    else if t == job_type_notification
    then priority_low
    else priority_medium

pub record Job : Type 0 where
  pub id : String
  pub job_type : JobType
  pub payload : String
  pub status : JobStatus
  pub retry_count : ℤ
  pub max_retries : ℤ
  pub priority : Priority
  pub idempotency_key : String
  pub trace_id : String
  pub error_message : String
  pub created_at : ℕ
  pub updated_at : ℕ
  pub processed_at : Option ℕ

-- The clock is read by the caller and passed in.
unfoldable pub new_job : ℕ → String → JobType → String → String → String → ℤ → Job
unfolding priority_for_type
new_job now id t payload idempotency_key trace_id max_retries = record {
  id = id;
  job_type = t;
  payload = payload;
  status = job_status_queued;
  retry_count = pos 0;
  max_retries = max_retries;
  priority = priority_for_type t;
  idempotency_key = idempotency_key;
  trace_id = trace_id;
  error_message = "";
  created_at = now;
  updated_at = now;
  processed_at = none;
}

unfoldable pub can_retry : Job → Bool
can_retry j = ltb_ℤ j.retry_count j.max_retries

-- The number that the database gives an attempt is left out: no code reads it.
pub record JobAttempt : Type 0 where
  pub job_id : String
  pub attempt : ℤ
  pub status : JobStatus
  pub error : String
  pub duration_ms : ℕ
  pub created_at : ℕ

-- Go's maps of counts, as lists of pairs.
pub record JobStats : Type 0 where
  pub by_status : List (JobStatus × ℕ)
  pub by_type : List (JobType × ℕ)
  pub total : ℕ
  pub dead_letter : ℕ
  pub queue_depths : List (Priority × ℕ)
  pub generated_at : ℕ

pub record JobFilter : Type 0 where
  pub status : JobStatus
  pub job_type : JobType
  pub limit : ℤ
  pub offset : ℤ
