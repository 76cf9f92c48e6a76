-- ===== src/Api/Middleware/Observe.antt =====
-- internal/api/middleware/recovery.go, logging.go and metrics.go: what is recorded of a request, and
-- a handler that panics. A handler that panics has not begun its response.
pub mod Events
use ingress_api_gateway.Prelude.{
  ℕ, ◌-◌, String, ◌≡◌, refl, ap, Bool, true, false, ◌==◌, if◌then◌else◌, arith,
}
use ingress_api_gateway.Domain.Ports.{Metric, http_request, http_duration}
use ingress_api_gateway.Api.Http.{Request, Response, Handler, write_error}

-- A response, or what `recover` gives of a panic.
pub data Outcome : Type 0 where
  returned : Response → Outcome
  panicked : String → Outcome

abbrev pub Raw : Type 0 → Type 0
Raw W = Request → W → Outcome × W

-- The fields of the access log but the number of bytes.
pub record AccessLine : Type 0 where
  pub request_id : String
  pub trace_id : String
  pub method : String
  pub path : String
  pub status : ℕ
  pub latency : ℕ
  pub remote_ip : String

-- The fields of the panic log but the stack.
pub record PanicLine : Type 0 where
  pub panic : String
  pub request_id : String
  pub path : String

-- The logger, the metrics and the clock.
pub record Observers (W : Type 0) : Type 0 where
  pub now : W → ℕ × W
  pub info : AccessLine → W → W
  pub error : PanicLine → W → W
  pub count : Metric → W → W

abbrev pub route_label : Request → String
route_label r = if r.route == "" then "unmatched" else r.route

module _ {W : Type 0} (o : Observers W) where
  abbrev pub recovered : Request → Outcome × W → Response × W
  recovered r (returned resp, w) = (resp, w)
  recovered r (panicked p, w) = (
    write_error r 500 "internal_error" "unexpected server error",
    o.error (record { panic = p; request_id = r.request_id; path = r.path }) w,
  )

  unfoldable pub recovery : Raw W → Handler W
  recovery next r w = recovered r (next r w)

  -- What follows the call of the next handler does not run when that panics.
  abbrev pub after : (Response → W → W) → Outcome × W → Outcome × W
  after f (returned resp, w) = (returned resp, f resp w)
  after f (panicked p, w) = (panicked p, w)

  abbrev pub log_access : Request → ℕ → Response → W → W
  log_access r start resp w =
      let (end, w) = o.now w in
      o.info
        (record {
          request_id = r.request_id;
          trace_id = r.trace_id;
          method = r.method;
          path = r.path;
          status = resp.status;
          latency = end - start;
          remote_ip = r.remote_addr;
        })
        w

  unfoldable pub logging : Raw W → Raw W
  logging next r w = let (start, w) = o.now w in after (log_access r start) (next r w)

  abbrev pub count_request : Request → ℕ → Response → W → W
  count_request r start resp w =
      let w = o.count (http_request r.method (route_label r) resp.status) w in
      let (end, w) = o.now w in o.count (http_duration r.method (route_label r) (end - start)) w

  unfoldable pub metrics : Raw W → Raw W
  metrics next r w = let (start, w) = o.now w in after (count_request r start) (next r w)

  -- The order of the router.
  unfoldable pub observed : Raw W → Handler W
  observed next = recovery (logging (metrics next))
