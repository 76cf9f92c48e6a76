-- ===== src/Domain/Ports.antt =====
-- internal/domain/ports.go: the ports, each a record of operations over the state of its adapter,
-- with what the code takes from Go's library and third parties.
use ingress_api_gateway.Prelude.{ℕ, String, Bool, Option, List}
use ingress_api_gateway.Prelude.Int.{ℤ}
use ingress_api_gateway.Domain.Result.{Result, ok, Act}
use ingress_api_gateway.Domain.Job.{Job, JobType, JobStatus, Priority, JobAttempt, JobFilter}
use ingress_api_gateway.Domain.Event.{
  RegistrationPayload, PaymentWebhookPayload, QrScanPayload, NotificationPayload, Registration,
  PaymentEvent, QrScanEvent, NotificationEvent, AuditLog,
}

-- `pop` gives `none` for the `(nil, nil)` of a poll timeout.
pub record Queue (Q : Type 0) : Type 0 where
  pub push : Job → Act Q Unit
  pub pop : Act Q (Option Job)
  pub push_dead_letter : Job → Act Q Unit
  pub depth : Priority → Act Q ℕ
  pub total_depth : Act Q ℕ
  pub dead_letter_depth : Act Q ℕ
  pub list_dead_letter : ℤ → Act Q (List Job)
  pub ping : Act Q Unit

-- `get` gives `none` where the source returns `found = false`.
pub record Cache (C : Type 0) : Type 0 where
  pub set_nx : String → String → ℤ → Act C Bool
  pub get : String → Act C (Option String)
  pub set : String → String → ℤ → Act C Unit
  pub incr : String → Act C ℤ
  pub del : String → Act C Unit
  pub ping : Act C Unit

pub record JobRepository (S : Type 0) : Type 0 where
  pub create : Job → Act S Unit
  pub update : Job → Act S Unit
  pub get_by_id : String → Act S Job
  pub list : JobFilter → Act S (List Job)
  pub list_dead_letter : ℤ → ℤ → Act S (List Job)
  pub count_by_status : Act S (List (JobStatus × ℕ))
  pub count_by_type : Act S (List (JobType × ℕ))
  pub add_attempt : JobAttempt → Act S Unit
  pub ping : Act S Unit

-- The union of the repository ports.
pub record Store (S : Type 0) : Type 0 where
  pub jobs : JobRepository S
  pub create_registration : Registration → Act S Unit
  pub upsert_payment_event : PaymentEvent → Act S Unit
  pub create_qr_scan_event : QrScanEvent → Act S Unit
  pub create_notification_event : NotificationEvent → Act S Unit
  pub create_audit_log : AuditLog → Act S Unit

-- What the code writes to the collectors of internal/observability/metrics.go. An HTTP duration is in
-- nanoseconds.
pub data Metric : Type 0 where
  idempotency_hits load_shed workers_active_inc workers_active_dec : Metric
  jobs_processed : JobType → JobStatus → Metric
  jobs_failed jobs_retried jobs_dead_letter : JobType → Metric
  rate_limited : String → Metric
  http_request : String → String → ℕ → Metric
  http_duration : String → String → ℕ → Metric

-- What surrounds the process: the clock, `uuid.NewString`, `rand.Int63n` and the metrics registry.
pub record Env (E : Type 0) : Type 0 where
  pub now : E → ℕ × E
  pub new_uuid : E → String × E
  pub int63n : ℕ → E → ℕ × E
  pub count : Metric → E → E

-- The functions of Go's library that the code calls: `%q`, SHA-256, HMAC-SHA256 and JSON.
pub record Runtime : Type 0 where
  pub quote : String → String
  pub sha256_hex : String → String
  pub hmac_sha256_hex : String → String → String
  pub json_valid : String → Bool
  pub decode_registration : String → Result RegistrationPayload
  pub decode_payment : String → Result PaymentWebhookPayload
  pub decode_qr_scan : String → Result QrScanPayload
  pub decode_notification : String → Result NotificationPayload
  pub encode_notification : NotificationPayload → Result String
  pub encode_job : Job → Result String
  pub decode_job : String → Result Job

-- The state that a request or a worker acts on.
pub record World (Q S C E : Type 0) : Type 0 where
  pub queue : Q
  pub store : S
  pub cache : C
  pub env : E

module _ {Q S C E A : Type 0} where
  abbrev pub on_queue : Act Q A → Act (World Q S C E) A
  on_queue m w = let (r, q) = m w.queue in (r, record w { queue = q })

  abbrev pub on_store : Act S A → Act (World Q S C E) A
  on_store m w = let (r, s) = m w.store in (r, record w { store = s })

  abbrev pub on_cache : Act C A → Act (World Q S C E) A
  on_cache m w = let (r, c) = m w.cache in (r, record w { cache = c })

  abbrev pub on_env : (E → A × E) → Act (World Q S C E) A
  on_env m w = let (a, e) = m w.env in (ok a, record w { env = e })

abbrev pub tick : {Q S C E : Type 0} → (E → E) → World Q S C E → World Q S C E
tick f w = record w { env = f w.env }

-- `JobType`, payload, optional idempotency key and trace id of `Enqueue`.
pub record EnqueueRequest : Type 0 where
  pub job_type : JobType
  pub payload : String
  pub idempotency_key : String
  pub trace_id : String

pub record EnqueueResult : Type 0 where
  pub job : Job
  pub duplicate : Bool

-- `Enqueuer` and `Processor`.
abbrev pub Enqueuer : Type 0 → Type 0
Enqueuer W = EnqueueRequest → Act W EnqueueResult

pub record Processor (W : Type 0) : Type 0 where
  pub type : JobType
  pub process : Job → Act W Unit
