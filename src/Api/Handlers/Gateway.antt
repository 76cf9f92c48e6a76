-- ===== src/Api/Handlers/Gateway.antt =====
-- internal/api/handlers/gateway_handler.go: the pipeline that every traffic type goes through.
pub mod Replies
pub mod Agree
pub mod Delivers
pub mod Grows
use ingress_api_gateway.Prelude.{
  String, Bool, true, false, not, ◌&&◌, Option, none, some, ◌==◌, if◌then◌else◌,
}
use ingress_api_gateway.Domain.Error.{
  Error, error_text, is_error, err_unknown_job_type, err_invalid_payload, err_queue_full,
}
use ingress_api_gateway.Domain.Result.{Result, ok, err}
use ingress_api_gateway.Domain.Job.{
  JobType, job_type_registration, job_type_payment_webhook, job_type_qr_scan, job_type_notification,
}
use ingress_api_gateway.Domain.Ports.{Runtime, EnqueueRequest, EnqueueResult, Enqueuer}
use ingress_api_gateway.Security.{verify_hmac_sha256}
use ingress_api_gateway.Api.Http.{
  BodyRead, bytes, max_bytes_error, broken, Request, Response, Handler, accepted, write_json,
  write_error,
}
use ingress_api_gateway.Api.Handlers.Validate.{validate_payload}

-- The signature header, or Razorpay's.
abbrev pub signature_of : Request → String
signature_of r =
    if r.header "X-Signature" == "" then r.header "X-Razorpay-Signature" else r.header "X-Signature"

-- `mapError`
unfoldable pub map_error_response : (String → String) → Request → Error → Response
unfolding write_error
map_error_response quote r e =
    if is_error e err_unknown_job_type
    then write_error r 400 "unknown_job_type" (error_text quote e)
    else if is_error e err_invalid_payload
    then write_error r 400 "invalid_payload" (error_text quote e)
    else if is_error e err_queue_full
    then (let resp = write_error r 503 "service_unavailable" "queue saturated, retry later" in
        record resp { retry_after = "2" })
    else write_error r 500 "internal_error" "could not accept request"

module _ {W : Type 0} (rt : Runtime) (enqueuer : Enqueuer W) (hmac_secret : String) where
  abbrev pub reply : JobType → Request → Result EnqueueResult × W → Response × W
  unfolding map_error_response write_json
  reply job_type r (err e, w) = (map_error_response rt.quote r e, w)
  reply job_type r (ok res, w) = (
    write_json (if res.duplicate then 200 else 202) (
        accepted (record {
          job_id = res.job.id;
          status = res.job.status;
          job_type = job_type;
          duplicate = res.duplicate;
          trace_id = r.trace_id;
        })),
    w,
  )

  abbrev pub request_of : JobType → Request → String → EnqueueRequest
  request_of job_type r body = record {
    job_type = job_type;
    payload = body;
    idempotency_key = r.header "Idempotency-Key";
    trace_id = r.trace_id;
  }

  abbrev pub enqueue_valid : JobType → Request → String → Option Error → W → Response × W
  unfolding write_error
  enqueue_valid job_type r body (some e) w =
      (write_error r 400 "invalid_payload" (error_text rt.quote e), w)
  enqueue_valid job_type r body none w = reply job_type r (enqueuer (request_of job_type r body) w)

  -- The steps after the body was read.
  unfoldable pub accept_body : JobType → Bool → Request → String → W → Response × W
  unfolding map_error_response write_json write_error
  accept_body job_type verify_hmac r body w =
      if verify_hmac && not (verify_hmac_sha256 rt hmac_secret body (signature_of r))
      then (write_error r 401 "invalid_signature" "webhook signature verification failed", w)
      else enqueue_valid job_type r body (validate_payload rt job_type body) w

  abbrev pub accept_read : JobType → Bool → Request → BodyRead → W → Response × W
  unfolding write_error
  accept_read job_type verify_hmac r max_bytes_error w =
      (write_error r 413 "payload_too_large" "request body exceeds limit", w)
  accept_read job_type verify_hmac r broken w =
      (write_error r 400 "bad_request" "could not read request body", w)
  accept_read job_type verify_hmac r (bytes body) w =
      if body == ""
      then (write_error r 400 "invalid_payload" "empty request body", w)
      else accept_body job_type verify_hmac r body w

  unfoldable pub accept : JobType → Bool → Handler W
  unfolding accept_body
  accept job_type verify_hmac r w = accept_read job_type verify_hmac r (r.body r.limit) w

  unfoldable pub registrations : Handler W
  registrations = accept job_type_registration false

  unfoldable pub payment_webhooks : Handler W
  payment_webhooks = accept job_type_payment_webhook true

  unfoldable pub qr_scans : Handler W
  qr_scans = accept job_type_qr_scan false

  unfoldable pub notifications : Handler W
  notifications = accept job_type_notification false
