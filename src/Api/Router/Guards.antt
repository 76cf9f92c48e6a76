-- ===== src/Api/Router/Guards.antt =====
-- internal/api/router.go: which requests never reach a handler.
use ingress_api_gateway.Prelude.{ℕ, ◌≡◌, ◌⊎◌, Bool, true, false, ◌&&◌, arith, starts_with, ◌==◌}
use ingress_api_gateway.Prelude.Int.{pos, is_positive, ltb_ℤ}
use ingress_api_gateway.Domain.Result.{Result, ok, err}
use ingress_api_gateway.Security.Jwt.{Claims}
use ingress_api_gateway.Api.Http.{Request, Handler, write_error}
use ingress_api_gateway.Api.Middleware.{
  rate_limit, backpressure, body_limit, jwt_auth, request_id, bearer, bearer_token,
}
use ingress_api_gateway.Api.Router.{RouterDeps, gateway_route, admin_route}

abbrev pub is_admin : Result Claims → Bool
is_admin (ok claims) = claims.role == "admin"
is_admin (err e) = false

module _ {W : Type 0} (d : RouterDeps W) where
  -- While the depth that is read is at or above a positive limit, no request of a gateway route reaches
  -- the handler: any other handler in its place gives the same response and state, and the response is
  -- 413, 429 or 503.
  pub gateway_route_sheds :
      (depth : ℕ) (next other : Handler W) (r : Request) (w : W)
      → is_positive d.queue_max_depth ≡ true
      → ltb_ℤ (pos depth) d.queue_max_depth ≡ false
      → ((w' : W) → (d.total_depth w').0 ≡ ok depth)
      → (gateway_route d next r w ≡ gateway_route d other r w)
        × (((gateway_route d next r w).0.status ≡ 413)
            ⊎ ((gateway_route d next r w).0.status ≡ 429)
            ⊎ ((gateway_route d next r w).0.status ≡ 503))
  unfolding gateway_route request_id rate_limit body_limit backpressure write_error
  gateway_route_sheds depth next other r w on full read = grind (arith, read)

  -- A request that the global limiter denies is answered alike on gateway and admin routes, whatever
  -- their handlers, with 429 and Retry-After 1.
  pub gateway_route_limited :
      (next other : Handler W) (r : Request) (w : W)
      → ((w' : W) → (d.global_allow "global" w').0 ≡ false)
      → (gateway_route d next r w ≡ admin_route d other r w)
        × ((gateway_route d next r w).0.status ≡ 429)
        × ((gateway_route d next r w).0.retry_after ≡ "1")
  unfolding gateway_route admin_route request_id rate_limit write_error
  gateway_route_limited next other r w deny = grind (arith, deny)

  -- A request without a bearer token that verifies and has the role admin reaches no handler of an admin
  -- route: any other handler in its place gives the same response and state, which is 401, 403 or 429.
  pub admin_route_guards :
      (next other : Handler W) (r : Request) (w : W)
      → (starts_with (r.header "Authorization") bearer
          && is_admin (d.verify (bearer_token d.trim_space (r.header "Authorization"))))
        ≡ false
      → (admin_route d next r w ≡ admin_route d other r w)
        × (((admin_route d next r w).0.status ≡ 401)
            ⊎ ((admin_route d next r w).0.status ≡ 403)
            ⊎ ((admin_route d next r w).0.status ≡ 429))
  unfolding admin_route request_id rate_limit jwt_auth write_error
  admin_route_guards next other r w h = ground arith
