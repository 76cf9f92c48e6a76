-- ===== src/Api/Handlers/Gateway/Replies.antt =====
-- internal/api/handlers/gateway_handler.go: how the pipeline answers.
use ingress_api_gateway.Prelude.{
  ℕ, String, ◌≡◌, ◌⊎◌, Bool, true, false, not, ◌&&◌, ◌||◌, Option, none, some, arith, ◌==◌,
  if◌then◌else◌,
}
use ingress_api_gateway.Domain.Error.{
  Error, is_error, err_unknown_job_type, err_invalid_payload, err_queue_full,
}
use ingress_api_gateway.Domain.Result.{Result, ok, err}
use ingress_api_gateway.Domain.Job.{JobType}
use ingress_api_gateway.Domain.Ports.{Runtime, EnqueueResult, Enqueuer}
use ingress_api_gateway.Security.{verify_hmac_sha256}
use ingress_api_gateway.Api.Http.{BodyRead, bytes, max_bytes_error, broken, Request}
use ingress_api_gateway.Api.Handlers.Validate.{validate_payload}
use ingress_api_gateway.Api.Handlers.Gateway.{accept, signature_of, request_of}

abbrev pub is_nil : Option Error → Bool
is_nil none = true
is_nil (some e) = false

-- A body that is read, is not empty, carries a valid signature where one is wanted, and validates.
abbrev pub is_acceptable : Runtime → String → JobType → Bool → Request → BodyRead → Bool
is_acceptable rt secret job_type verify_hmac r (bytes body) =
    not (body == "")
    && ((not verify_hmac || verify_hmac_sha256 rt secret body (signature_of r))
        && is_nil (validate_payload rt job_type body))
is_acceptable rt secret job_type verify_hmac r max_bytes_error = false
is_acceptable rt secret job_type verify_hmac r broken = false

-- The status of the enqueuer's answer.
abbrev pub status_of : Result EnqueueResult → ℕ
status_of (ok res) = if res.duplicate then 200 else 202
status_of (err e) =
    if is_error e err_unknown_job_type || is_error e err_invalid_payload
    then 400
    else if is_error e err_queue_full
    then 503
    else 500

module _ {W : Type 0} (rt : Runtime) (enqueuer : Enqueuer W) (secret : String) where
  -- A request whose body cannot be read or is empty, is not signed where it must be, or does not
  -- validate is answered by 400, 401 or 413, and changes nothing.
  pub accept_refuses :
      (job_type : JobType) (verify_hmac : Bool) (r : Request) (w : W)
      → is_acceptable rt secret job_type verify_hmac r (r.body r.limit) ≡ false
      → let out = accept rt enqueuer secret job_type verify_hmac r w in
        (out.1 ≡ w) × ((out.0.status ≡ 400) ⊎ (out.0.status ≡ 401) ⊎ (out.0.status ≡ 413))
  unfolding accept
  accept_refuses job_type verify_hmac r w h = ground arith

  -- A request whose body is read, not empty, signed where it must be and valid is handed to the enqueuer once, with its body, key and trace id; the state is
  -- the enqueuer's, and its answer decides the status: 202, 200 for a duplicate, 400, 503 or 500.
  pub accept_replies :
      (job_type : JobType) (verify_hmac : Bool) (r : Request) (body : String) (w : W)
      → r.body r.limit ≡ bytes body
      → is_acceptable rt secret job_type verify_hmac r (bytes body) ≡ true
      → let out = accept rt enqueuer secret job_type verify_hmac r w in
        let answer = enqueuer (request_of rt enqueuer secret job_type r body) w in
        (out.1 ≡ answer.1) × (out.0.status ≡ status_of answer.0)
  unfolding accept
  accept_replies job_type verify_hmac r body w read h = ground arith
