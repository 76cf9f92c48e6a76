-- ===== src/Tests/Pressure.antt =====
-- internal/api/middleware/backpressure.go in several goroutines, at concrete inputs.
use ingress_api_gateway.Prelude.{
  ℕ, ◌+◌, ◌≤◌, refl, false, none, List, [], ◌∷◌, length, length-append, arith,
}
use ingress_api_gateway.Prelude.Int.{pos}
use ingress_api_gateway.Interleaving.{State, Reach, stay}
use ingress_api_gateway.Domain.Job.{Job, job_type_valid}
use ingress_api_gateway.Domain.Ports.{World, Metric, on_queue}
use ingress_api_gateway.Service.Gateway.{GatewayConfig, enqueue, claim_with}
use ingress_api_gateway.Api.Http.{Request, Handler, bytes}
use ingress_api_gateway.Api.Middleware.Pressure.{
  Admission, incoming, admitted, advance, IsGauged, admissions, Reach-waiting,
}
use ingress_api_gateway.Api.Handlers.Validate.{validate_payload}
use ingress_api_gateway.Api.Handlers.Gateway.{accept}
use ingress_api_gateway.Api.Handlers.Gateway.Grows.{AddsOne, accept_grows}
use ingress_api_gateway.Tests.Interleaving.{walk}
use ingress_api_gateway.Tests.Reference.{
  Memory, memory_cache, list_queue, list_jobs, counter, rt, queued, fresh_world,
}

abbrev config : GatewayConfig
config = record { max_retries = pos 3; idempotency_ttl = pos 10 }

abbrev W : Type 0
W = World (List Job) (List Job) Memory ℕ

abbrev handler : Handler W
handler =
    accept rt (enqueue list_queue list_jobs memory_cache counter rt config) "s" "REGISTRATION" false

abbrev waiting : W → ℕ
waiting w = length w.queue

abbrev uncounted : Metric → W → W
uncounted m w = w

list_queue-AddsOne : AddsOne list_queue length
list_queue-AddsOne = record {
  takes_none = λ job q. omega (arith, length-append q (job ∷ []));
  adds_one = λ job q. omega (arith, length-append q (job ∷ []));
}

handler-IsGauged : IsGauged waiting (on_queue list_queue.total_depth) uncounted handler
handler-IsGauged =
    let grows =
      accept_grows list_queue length list_queue-AddsOne list_jobs memory_cache counter rt config "s"
        "REGISTRATION" false in
    record {
      probed = λ w. refl;
      probe_keeps = λ w. refl;
      count_keeps = λ m w. refl;
      takes_none = λ r w. (grows r w).0;
      adds_one = λ r w. (grows r w).1;
    }

abbrev request : Request
request = record {
  method = "POST";
  path = "/api/v1/gateway/registrations";
  route = "/api/v1/gateway/registrations";
  header = λ k. "";
  content_length = pos 2;
  body = λ limit. bytes "{}";
  limit = none;
  remote_addr = "1.2.3.4:5";
  request_id = "r";
  trace_id = "t";
}

-- At a limit of one job: one request has passed the check, another comes in.
abbrev full : State W Admission
full = record {
  world = record fresh_world { queue = queued ∷ [] };
  places = admitted request ∷ incoming request ∷ [];
  count = 0;
  expiries = 0;
}

unfoldable served :
    (t : State W Admission) × Reach
      (admissions waiting
        (on_queue list_queue.total_depth)
        uncounted
        handler
        handler-IsGauged
        1
        (omega arith))
      full
      t
unfolding walk
served =
    walk
      (admissions waiting (on_queue list_queue.total_depth) uncounted handler handler-IsGauged 1
        (omega arith))
      (1 ∷ 0 ∷ []) full full stay

Reach-waiting_example : 2 + 0 ≤ 1 + 1
unfolding served walk advance accept enqueue claim_with validate_payload job_type_valid
Reach-waiting_example =
    Reach-waiting waiting (on_queue list_queue.total_depth) uncounted handler handler-IsGauged 1
      (omega arith) full served.0 (omega arith) served.1
