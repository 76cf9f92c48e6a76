-- ===== src/Api/Middleware/Observe/Events.antt =====
-- internal/api/middleware: what one request adds to the logs and the metrics.
use ingress_api_gateway.Prelude.{ℕ, ◌-◌, String, ◌≡◌, refl, ap, ◌∙◌, List, [], ◌∷◌, ◌++◌}
use ingress_api_gateway.Domain.Ports.{Metric, http_request, http_duration}
use ingress_api_gateway.Api.Http.{Request, Response, write_error}
use ingress_api_gateway.Api.Middleware.Observe.{
  returned, panicked, Raw, AccessLine, PanicLine, Observers, observed, route_label, recovery,
  logging, metrics, log_access, count_request,
}

pub data Event : Type 0 where
  counted : Metric → Event
  accessed : AccessLine → Event
  failed : PanicLine → Event

-- The logs and the registry, read as one list of events, grow at their end.
pub record IsRecorded {W : Type 0} (o : Observers W) (events : W → List Event) : Type 0 where
  pub now_keeps : (w : W) → events (o.now w).1 ≡ events w
  pub info_adds : (l : AccessLine) (w : W) → events (o.info l w) ≡ events w ++ accessed l ∷ []
  pub error_adds : (l : PanicLine) (w : W) → events (o.error l w) ≡ events w ++ failed l ∷ []
  pub count_adds : (m : Metric) (w : W) → events (o.count m w) ≡ events w ++ counted m ∷ []

-- The access line of a response.
abbrev pub line : Request → Response → ℕ → AccessLine
line r resp latency = record {
  request_id = r.request_id;
  trace_id = r.trace_id;
  method = r.method;
  path = r.path;
  status = resp.status;
  latency = latency;
  remote_ip = r.remote_addr;
}

-- What a request that is answered adds.
abbrev pub answered : Request → Response → ℕ → ℕ → List Event
answered r resp d e =
    counted (http_request r.method (route_label r) resp.status)
    ∷ counted (http_duration r.method (route_label r) d)
    ∷ accessed (line r resp e)
    ∷ []

append_one {ℓ} : {A : Type ℓ} (x : A) {u v : List A} → u ≡ v → u ++ x ∷ [] ≡ v ++ x ∷ []
append_one x p = ap (λ es. es ++ x ∷ []) p

append-two {ℓ} :
    {A : Type ℓ} (es : List A) (x y z : A)
    → ((es ++ x ∷ []) ++ y ∷ []) ++ z ∷ [] ≡ es ++ x ∷ y ∷ z ∷ []
append-two [] x y z = refl
append-two (e ∷ es) x y z = ap (λ t. e ∷ t) (append-two es x y z)

module _ {W : Type 0} (o : Observers W) (events : W → List Event)
    (recorded : IsRecorded o events) where
  events-log_access :
      (r : Request) (start : ℕ) (resp : Response) (w : W)
      → events (log_access o r start resp w)
        ≡ events w ++ accessed (line r resp ((o.now w).0 - start)) ∷ []
  events-log_access r start resp w =
      recorded.info_adds _ (o.now w).1 ∙ append_one _ (recorded.now_keeps w)

  events-count_request :
      (r : Request) (start : ℕ) (resp : Response) (w : W)
      → let m = http_request r.method (route_label r) resp.status in
        events (count_request o r start resp w)
        ≡ (events w ++ counted m ∷ [])
          ++ counted (http_duration r.method (route_label r) ((o.now (o.count m w)).0 - start)) ∷ []
  events-count_request r start resp w =
      let m = http_request r.method (route_label r) resp.status in
      recorded.count_adds _ (o.now (o.count m w)).1
      ∙ append_one _ (recorded.now_keeps (o.count m w) ∙ recorded.count_adds m w)

module _ {W : Type 0} (o : Observers W) (events : W → List Event) (recorded : IsRecorded o events)
    (next : Raw W) (r : Request) (w w' : W) where
  -- The state in which the next handler is called.
  abbrev pub started : W
  started = (o.now (o.now w).1).1

  -- Where logs and metrics grow at their end: a request whose handler returns is answered with the
  -- handler's response, and adds one request count and one duration, of its method and its route or
  -- "unmatched", the count with the response's status, and one access line with that status, to what
  -- the handler has recorded.
  pub observed_returns :
      (resp : Response)
      → next r started ≡ (returned resp, w')
      → ((observed o next r w).0 ≡ resp)
        × ((d : ℕ) × (e : ℕ) × (events (observed o next r w).1 ≡ events w' ++ answered r resp d e))
  unfolding observed recovery logging metrics
  observed_returns resp h =
      let (t0, w0) = o.now w in
      let t1 = (o.now w0).0 in
      let w1 = count_request o r t1 resp w' in
      rw h (
        refl,
        (
          _,
          _,
          events-log_access o events recorded r t0 resp w1
              ∙ append_one _ (events-count_request o events recorded r t1 resp w')
              ∙ append-two (events w') _ _ _,
        ),
      )

  -- Where logs and metrics grow at their end: a request whose handler panics is answered 500 with
  -- the request's ids, and adds one line of the panic to what the handler has recorded: no request
  -- is counted and no access line is written.
  pub observed_panics :
      (p : String)
      → next r started ≡ (panicked p, w')
      → ((observed o next r w).0 ≡ write_error r 500 "internal_error" "unexpected server error")
        × (events (observed o next r w).1
            ≡ events w'
              ++ failed (record { panic = p; request_id = r.request_id; path = r.path }) ∷ [])
  unfolding observed recovery logging metrics
  observed_panics p h = rw h (refl, recorded.error_adds _ w')
