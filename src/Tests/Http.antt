-- ===== src/Tests/Http.antt =====
-- internal/api at concrete inputs. The state of the router's dependencies is a number.
use ingress_api_gateway.Prelude.{ℕ, ◌+◌, String, ◌≡◌, refl, ◌⊎◌, false, none}
use ingress_api_gateway.Prelude.Int.{pos}
use ingress_api_gateway.Domain.Result.{ok}
use ingress_api_gateway.Domain.Ports.{Enqueuer}
use ingress_api_gateway.Api.Http.{bytes, Request}
use ingress_api_gateway.Api.Handlers.Validate.{validate_payload}
use ingress_api_gateway.Api.Handlers.Gateway.{accept}
use ingress_api_gateway.Api.Handlers.Gateway.Replies.{accept_refuses}
use ingress_api_gateway.Tests.Reference.{rt, queued}

abbrev post : String → Request
post body = record {
  method = "POST";
  path = "/api/v1/gateway/registrations";
  route = "/api/v1/gateway/registrations";
  header = λ k. "";
  content_length = pos 2;
  body = λ limit. bytes body;
  limit = none;
  remote_addr = "1.2.3.4:5";
  request_id = "r";
  trace_id = "t";
}

-- An enqueuer that counts its calls.
abbrev enqueuer : Enqueuer ℕ
enqueuer req w = (ok (record { job = queued; duplicate = false }), w + 1)

accept_refuses_example :
    let out = accept rt enqueuer "s" "REGISTRATION" false (post "x") 0 in
    (out.1 ≡ 0) × ((out.0.status ≡ 400) ⊎ (out.0.status ≡ 401) ⊎ (out.0.status ≡ 413))
unfolding validate_payload
accept_refuses_example = accept_refuses rt enqueuer "s" "REGISTRATION" false (post "x") 0 refl
