-- ===== src/Api/Router.antt =====
-- internal/api/router.go: the middleware and the table of routes. chi is a parameter: `real_ip` gives
-- the RemoteAddr that its RealIP sets, a request carries the pattern that its path has, and `not_found`
-- answers a request that no route serves.
pub mod Guards
pub mod Table
use ingress_api_gateway.Prelude.{
  ℕ, String, Bool, ◌&&◌, ◌||◌, not, Option, List, [], ◌∷◌, ◌++◌, ◌==◌, if◌then◌else◌,
}
use ingress_api_gateway.Prelude.Int.{ℤ}
use ingress_api_gateway.Domain.Result.{Result, Act}
use ingress_api_gateway.Domain.Ports.{Metric}
use ingress_api_gateway.Security.Jwt.{Claims}
use ingress_api_gateway.Api.Http.{Request, Handler}
use ingress_api_gateway.Api.Middleware.Observe.{Observers, Raw, returned, observed}
use ingress_api_gateway.Api.Middleware.{
  rate_limit, global_key, client_ip_key, backpressure, body_limit, jwt_auth, request_id,
}

-- What the middleware is built from.
pub record RouterDeps (W : Type 0) : Type 0 where
  pub global_allow : String → W → Bool × W
  pub client_allow : String → W → Bool × W
  pub total_depth : Act W ℕ
  pub max_body_bytes : ℤ
  pub queue_max_depth : ℤ
  pub count : Metric → W → W
  pub new_uuid : W → String × W
  pub split_host_port : String → Option String
  pub verify : String → Result Claims
  pub trim_space : String → String
  pub real_ip : Request → String
  pub not_found : Handler W
  pub observers : Observers W
  pub openapi_path : String

-- The handlers of the routes.
pub record Endpoints (W : Type 0) : Type 0 where
  pub health_probe : Handler W
  pub live : Handler W
  pub ready : Handler W
  pub metrics : Handler W
  pub openapi : Handler W
  pub docs : Handler W
  pub registrations : Handler W
  pub payment_webhooks : Handler W
  pub qr_scans : Handler W
  pub notifications : Handler W
  pub list_jobs : Handler W
  pub stats : Handler W
  pub get_job : Handler W
  pub retry_job : Handler W
  pub dead_letter_jobs : Handler W

-- A method, "" for any, a pattern and the handler behind its middleware.
pub record Route (W : Type 0) : Type 0 where
  pub method : String
  pub pattern : String
  pub handler : Handler W

abbrev pub route : {W : Type 0} → String → String → Handler W → Route W
route method pattern handler = record { method = method; pattern = pattern; handler = handler }

abbrev pub serves : {W : Type 0} → Route W → Request → Bool
serves x r = ((x.method == "") || (x.method == r.method)) && (x.pattern == r.route)

-- The first route that serves the request.
unfoldable pub dispatch : {W : Type 0} → Handler W → List (Route W) → Handler W
dispatch not_found [] r w = not_found r w
dispatch not_found (x ∷ xs) r w = if serves x r then x.handler r w else dispatch not_found xs r w

-- A handler that does not panic.
abbrev pub total : {W : Type 0} → Handler W → Raw W
total next r w = let (resp, w) = next r w in (returned resp, w)

-- The probes and the metrics.
abbrev pub probes : {W : Type 0} → Endpoints W → List (Route W)
probes e =
    route "GET" "/health" e.health_probe
    ∷ route "GET" "/live" e.live
    ∷ route "GET" "/ready" e.ready
    ∷ route "" "/metrics" e.metrics
    ∷ []

module _ {W : Type 0} (d : RouterDeps W) where
  -- What runs on every route of /api/v1.
  abbrev pub on_api : Handler W → Handler W
  on_api next = rate_limit d.global_allow "global" global_key d.count next

  unfoldable pub gateway_route : Handler W → Handler W
  gateway_route next = on_api (
      body_limit d.max_body_bytes (
        rate_limit d.client_allow "route" (client_ip_key d.split_host_port) d.count
          (backpressure d.total_depth d.queue_max_depth d.count next)))

  unfoldable pub admin_route : Handler W → Handler W
  admin_route next = on_api (jwt_auth d.verify d.trim_space "admin" next)

  abbrev pub documents : Endpoints W → List (Route W)
  documents e =
      if not (d.openapi_path == "")
      then route "GET" "/openapi.yaml" e.openapi ∷ route "GET" "/docs" e.docs ∷ []
      else []

  abbrev pub gateway : Endpoints W → List (Route W)
  gateway e =
      route "POST" "/api/v1/gateway/registrations" (gateway_route e.registrations)
      ∷ route "POST" "/api/v1/gateway/payment-webhooks" (gateway_route e.payment_webhooks)
      ∷ route "POST" "/api/v1/gateway/qr-scans" (gateway_route e.qr_scans)
      ∷ route "POST" "/api/v1/gateway/notifications" (gateway_route e.notifications)
      ∷ []

  abbrev pub admin : Endpoints W → List (Route W)
  admin e =
      route "GET" "/api/v1/admin/jobs" (admin_route e.list_jobs)
      ∷ route "GET" "/api/v1/admin/jobs/stats" (admin_route e.stats)
      ∷ route "GET" "/api/v1/admin/jobs/{id}" (admin_route e.get_job)
      ∷ route "POST" "/api/v1/admin/jobs/{id}/retry" (admin_route e.retry_job)
      ∷ route "GET" "/api/v1/admin/dead-letter-jobs" (admin_route e.dead_letter_jobs)
      ∷ []

  unfoldable pub routes : Endpoints W → List (Route W)
  routes e = probes e ++ documents e ++ gateway e ++ admin e

  unfoldable pub new_router : Endpoints W → Handler W
  unfolding routes
  new_router e r w =
      request_id d.new_uuid (observed d.observers (total (dispatch d.not_found (routes e))))
        (record r { remote_addr = d.real_ip r }) w
