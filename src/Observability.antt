-- ===== src/Observability.antt =====
-- internal/observability/metrics.go: the collectors, and which of them the code writes to. The registry
-- is Prometheus's.
use ingress_api_gateway.Prelude.{String, List, [], ◌∷◌, ◌++◌, decimal}
use ingress_api_gateway.Domain.Ports.{
  Metric, idempotency_hits, load_shed, workers_active_inc, workers_active_dec, jobs_processed,
  jobs_failed, jobs_retried, jobs_dead_letter, rate_limited, http_request, http_duration,
}

pub data Kind : Type 0 where
  counter gauge histogram : Kind

pub record Collector : Type 0 where
  pub kind : Kind
  pub name : String
  pub labels : List String

abbrev pub collector : Kind → String → List String → Collector
collector kind name labels = record { kind = kind; name = name; labels = labels }

abbrev pub job_type_label : List String
job_type_label = "job_type" ∷ []

-- The collectors of `Metrics`.
pub record Metrics : Type 0 where
  pub http_requests : Collector
  pub http_duration : Collector
  pub queue_depth : Collector
  pub dead_letter_depth : Collector
  pub jobs_processed : Collector
  pub jobs_failed : Collector
  pub jobs_retried : Collector
  pub jobs_dead_letter : Collector
  pub workers_active : Collector
  pub rate_limited : Collector
  pub load_shed : Collector
  pub idempotency_hits : Collector

-- `New`
abbrev pub new_metrics : Metrics
new_metrics = record {
  http_requests =
      collector counter "gateway_http_requests_total" ("method" ∷ "route" ∷ "status" ∷ []);
  http_duration =
      collector histogram "gateway_http_request_duration_seconds" ("method" ∷ "route" ∷ []);
  queue_depth = collector gauge "gateway_queue_depth" ("priority" ∷ []);
  dead_letter_depth = collector gauge "gateway_dead_letter_depth" [];
  jobs_processed = collector counter "gateway_jobs_processed_total" ("job_type" ∷ "status" ∷ []);
  jobs_failed = collector counter "gateway_jobs_failed_total" job_type_label;
  jobs_retried = collector counter "gateway_jobs_retried_total" job_type_label;
  jobs_dead_letter = collector counter "gateway_jobs_dead_letter_total" job_type_label;
  workers_active = collector gauge "gateway_workers_active" [];
  rate_limited = collector counter "gateway_rate_limited_total" ("scope" ∷ []);
  load_shed = collector counter "gateway_load_shed_total" [];
  idempotency_hits = collector counter "gateway_idempotency_hits_total" [];
}

-- What New registers, in order: the collectors of the Go runtime and of the process, which are
-- Prometheus's, and its own.
abbrev pub registered : (go_runtime process : List Collector) → Metrics → List Collector
registered go_runtime process m =
    go_runtime
    ++ process
    ++ m.http_requests ∷ m.http_duration ∷ m.queue_depth ∷ m.dead_letter_depth ∷ m.jobs_processed
      ∷ m.jobs_failed ∷ m.jobs_retried ∷ m.jobs_dead_letter ∷ m.workers_active ∷ m.rate_limited
      ∷ m.load_shed ∷ m.idempotency_hits ∷ []

-- The collector that a write of the code is to, and the values it gives for the labels.
unfoldable pub written : Metrics → Metric → Collector × List String
written m idempotency_hits = (m.idempotency_hits, [])
written m load_shed = (m.load_shed, [])
written m workers_active_inc = (m.workers_active, [])
written m workers_active_dec = (m.workers_active, [])
written m (jobs_processed t s) = (m.jobs_processed, t ∷ s ∷ [])
written m (jobs_failed t) = (m.jobs_failed, t ∷ [])
written m (jobs_retried t) = (m.jobs_retried, t ∷ [])
written m (jobs_dead_letter t) = (m.jobs_dead_letter, t ∷ [])
written m (rate_limited scope) = (m.rate_limited, scope ∷ [])
written m (http_request method route status) =
    (m.http_requests, method ∷ route ∷ decimal status ∷ [])
written m (http_duration method route nanoseconds) = (m.http_duration, method ∷ route ∷ [])
