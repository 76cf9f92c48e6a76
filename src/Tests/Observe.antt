-- ===== src/Tests/Observe.antt =====
-- internal/api/middleware, the router, the probes and the metrics at concrete inputs. The state is
-- the list of recorded events.
use ingress_api_gateway.Prelude.{ℕ, String, ◌≡◌, refl, true, none, List, [], ◌∷◌, ◌++◌, length}
use ingress_api_gateway.Prelude.Int.{pos}
use ingress_api_gateway.Domain.Error.{foreign}
use ingress_api_gateway.Domain.Result.{ok, err}
use ingress_api_gateway.Api.Http.{
  bytes, Request, Response, Handler, write_json, write_error, alive, many_jobs,
}
use ingress_api_gateway.Api.Middleware.Observe.{Observers, returned, panicked, Raw, observed}
use ingress_api_gateway.Api.Middleware.Observe.Events.{
  Event, counted, accessed, failed, IsRecorded, answered, observed_returns, observed_panics,
}
use ingress_api_gateway.Api.Router.{RouterDeps, Endpoints, new_router}
use ingress_api_gateway.Api.Router.Table.{with_admin, new_router-with_admin}

abbrev Log : Type 0
Log = List Event

abbrev observers : Observers Log
observers = record {
  now = λ w. (length w, w);
  info = λ l w. w ++ accessed l ∷ [];
  error = λ l w. w ++ failed l ∷ [];
  count = λ m w. w ++ counted m ∷ [];
}

observers-IsRecorded : IsRecorded observers (λ w. w)
observers-IsRecorded = record {
  now_keeps = λ w. refl;
  info_adds = λ l w. refl;
  error_adds = λ l w. refl;
  count_adds = λ m w. refl;
}

abbrev get : String → Request
get route = record {
  method = "GET";
  path = route;
  route = route;
  header = λ k. "";
  content_length = pos 0;
  body = λ limit. bytes "";
  limit = none;
  remote_addr = "1.2.3.4:5";
  request_id = "r";
  trace_id = "t";
}

abbrev live_response : Response
live_response = write_json 200 alive

abbrev live_raw : Raw Log
live_raw r w = (returned live_response, w)

abbrev broken_raw : Raw Log
broken_raw r w = (panicked "nil map", w)

observed_returns_example :
    ((observed observers live_raw (get "/live") []).0 ≡ live_response)
    × ((d : ℕ) × (e : ℕ) × ((observed observers live_raw (get "/live") []).1
          ≡ answered (get "/live") live_response d e))
observed_returns_example =
    observed_returns observers (λ w. w) observers-IsRecorded live_raw (get "/live") [] []
      live_response refl

observed_panics_example :
    ((observed observers broken_raw (get "/live") []).0
      ≡ write_error (get "/live") 500 "internal_error" "unexpected server error")
    × ((observed observers broken_raw (get "/live") []).1
        ≡ failed (record { panic = "nil map"; request_id = "r"; path = "/live" }) ∷ [])
observed_panics_example =
    observed_panics observers (λ w. w) observers-IsRecorded broken_raw (get "/live") [] [] "nil map"
      refl

abbrev values : List String
values = "GET" ∷ "/live" ∷ "200" ∷ []

abbrev deps : RouterDeps Log
deps = record {
  global_allow = λ key w. (true, w);
  client_allow = λ key w. (true, w);
  total_depth = λ w. (ok 9, w);
  max_body_bytes = pos 100;
  queue_max_depth = pos 5;
  count = λ m w. w ++ counted m ∷ [];
  new_uuid = λ w. ("u", w);
  split_host_port = λ s. none;
  verify = λ s. err (foreign "expired");
  trim_space = λ s. s;
  real_ip = λ r. "9.9.9.9";
  not_found = λ r w. (write_error r 404 "" "", w);
  observers = observers;
  openapi_path = "";
}

abbrev listed : Handler Log
listed r w = (write_json 200 (many_jobs 0 []), w)

abbrev every : Handler Log → Endpoints Log
every next = record {
  health_probe = next;
  live = next;
  ready = next;
  metrics = next;
  openapi = next;
  docs = next;
  registrations = next;
  payment_webhooks = next;
  qr_scans = next;
  notifications = next;
  list_jobs = next;
  stats = next;
  get_job = next;
  retry_job = next;
  dead_letter_jobs = next;
}

abbrev gone : Handler Log
gone r w = (write_json 410 alive, [])

new_router-with_admin_example :
    new_router deps (every listed) (get "/api/v1/admin/jobs") []
    ≡ new_router deps (with_admin (every listed) (every gone)) (get "/api/v1/admin/jobs") []
new_router-with_admin_example =
    new_router-with_admin deps (every listed) (every gone) (get "/api/v1/admin/jobs") [] refl
