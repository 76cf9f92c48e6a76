-- ===== src/Api/Middleware.antt =====
-- internal/api/middleware: correlation ids, rate limits, the body limit, load shedding and the
-- admin check, over any state. The access log, the request metrics and the recovery from panics
-- are in Observe.
pub mod Admin
pub mod Observe
pub mod Pressure
use Prim.Native.String.{slice, len}
use ingress_api_gateway.Prelude.{
  ℕ, String, Bool, false, not, ◌&&◌, Option, none, some, ◌==◌, starts_with, if◌then◌else◌,
}
use ingress_api_gateway.Prelude.Int.{ℤ, pos, is_positive, ltb_ℤ}
use ingress_api_gateway.Domain.Result.{Result, ok, err, Act}
use ingress_api_gateway.Domain.Ports.{Metric, load_shed, rate_limited}
use ingress_api_gateway.Security.Jwt.{Claims}
use ingress_api_gateway.Api.Http.{Request, Handler, write_error}

abbrev pub or_new_id : {W : Type 0} → String → (W → String × W) → W → String × W
or_new_id id new_uuid w = if id == "" then new_uuid w else (id, w)

-- The ids of the request are kept, or made, and echoed in the response.
unfoldable pub request_id : {W : Type 0} → (W → String × W) → Handler W → Handler W
request_id new_uuid next r w =
    let (rid, w) = or_new_id (r.header "X-Request-ID") new_uuid w in
    let (tid, w) = or_new_id (r.header "X-Trace-ID") new_uuid w in
    let (resp, w) = next (record r { request_id = rid; trace_id = tid }) w in
    (record resp { request_id = rid; trace_id = tid }, w)

-- `allow` is the limiter, `key` the key of a request and `count` a metric's increment.
unfoldable pub rate_limit :
    {W : Type 0}
    → (String → W → Bool × W)
    → String
    → (Request → String)
    → (Metric → W → W)
    → Handler W
    → Handler W
rate_limit allow scope key count next r w =
    let (allowed, w) = allow (key r) w in
    if not allowed
    then (let resp = write_error r 429 "rate_limited" "too many requests, slow down" in
        (record resp { retry_after = "1" }, count (rate_limited scope) w))
    else next r w

abbrev pub global_key : Request → String
global_key r = "global"

-- `split_host_port` is `net.SplitHostPort`, `none` for its error.
unfoldable pub client_ip_key : (String → Option String) → Request → String
client_ip_key split_host_port r = elim (split_host_port r.remote_addr) [
  | some host ↦ host
  | none ↦ r.remote_addr
]

-- `none` where the depth could not be read: the check fails open.
abbrev pub is_saturated : ℤ → Result ℕ → Bool
is_saturated threshold (ok depth) = not (ltb_ℤ (pos depth) threshold)
is_saturated threshold (err e) = false

unfoldable pub backpressure : {W : Type 0} → Act W ℕ → ℤ → (Metric → W → W) → Handler W → Handler W
backpressure total_depth threshold count next r w =
    if is_positive threshold
    then (let (depth, w) = total_depth w in
        if is_saturated threshold depth
        then (let resp =
              write_error r 503 "service_unavailable" "queue saturated, please retry shortly" in
            (record resp { retry_after = "2" }, count load_shed w))
        else next r w)
    else next r w

unfoldable pub body_limit : {W : Type 0} → ℤ → Handler W → Handler W
body_limit max_bytes next r w =
    if is_positive max_bytes
    then (if ltb_ℤ max_bytes r.content_length
        then (write_error r 413 "payload_too_large" "request body exceeds limit", w)
        else next (record r { limit = some max_bytes }) w)
    else next r w

abbrev pub bearer : String
bearer = "Bearer "

-- The token after the prefix; `trim_space` is `strings.TrimSpace`.
unfoldable pub bearer_token : (String → String) → String → String
bearer_token trim_space authz = trim_space (slice authz (len bearer) (len authz))

abbrev pub authorize : {W : Type 0} → String → Handler W → Result Claims → Handler W
authorize required_role next (err e) r w =
    (write_error r 401 "unauthorized" "invalid or expired token", w)
authorize required_role next (ok claims) r w =
    if not (required_role == "") && not (claims.role == required_role)
    then (write_error r 403 "forbidden" "insufficient role", w)
    else next r w

-- `verify` is `JWTManager.Verify`. No handler reads the claims off the context, so they are dropped.
unfoldable pub jwt_auth :
    {W : Type 0} → (String → Result Claims) → (String → String) → String → Handler W → Handler W
unfolding bearer_token
jwt_auth verify trim_space required_role next r w =
    let authz = r.header "Authorization" in
    if not (starts_with authz bearer)
    then (write_error r 401 "unauthorized" "missing or malformed Authorization header", w)
    else authorize required_role next (verify (bearer_token trim_space authz)) r w
