-- ===== src/Api/Handlers/Gateway/Agree.antt =====
-- internal/api/handlers/gateway_handler.go with internal/worker: what the validation lets through
-- and what the processors take.
use ingress_api_gateway.Prelude.{String, ◌≡◌, Bool, true, false, none, arith, ◌==◌, if◌then◌else◌}
use ingress_api_gateway.Domain.Result.{ok}
use ingress_api_gateway.Domain.Job.{
  JobType, job_type_registration, job_type_payment_webhook, job_type_qr_scan, job_type_notification,
}
use ingress_api_gateway.Domain.Event.{PaymentWebhookPayload}
use ingress_api_gateway.Domain.Ports.{Runtime}
use ingress_api_gateway.Worker.Processors.Payment.{valid_payment_status}
use ingress_api_gateway.Worker.Processors.Permanent.{
  takes_registration, takes_payment, takes_qr_scan, takes_notification,
}
use ingress_api_gateway.Api.Handlers.Validate.{validate_payload}

-- Whether the processor of a job type takes a payload.
abbrev pub is_taken : Runtime → JobType → String → Bool
is_taken rt job_type body =
    if job_type == job_type_registration
    then takes_registration (rt.decode_registration body)
    else if job_type == job_type_payment_webhook
    then takes_payment (rt.decode_payment body)
    else if job_type == job_type_qr_scan
    then takes_qr_scan (rt.decode_qr_scan body)
    else if job_type == job_type_notification
    then takes_notification (rt.decode_notification body)
    else false

-- A payload that validates for any type but a payment webhook decodes and has what the type's processor
-- requires.
pub validate_payload-is_taken :
    (rt : Runtime) (job_type : JobType) (body : String)
    → (job_type == job_type_payment_webhook) ≡ false
    → validate_payload rt job_type body ≡ none
    → is_taken rt job_type body ≡ true
unfolding validate_payload
validate_payload-is_taken rt job_type body other h = ground arith

-- A payment webhook with an order id and a status that is not empty and no known payment status passes
-- the validation, and is not one that its processor takes.
validate_payload_lets_unknown_status :
    (rt : Runtime) (body : String) (p : PaymentWebhookPayload)
    → rt.decode_payment body ≡ ok p
    → (p.gateway_order_id == "") ≡ false
    → (p.payment_status == "") ≡ false
    → valid_payment_status p.payment_status ≡ false
    → (validate_payload rt job_type_payment_webhook body ≡ none)
      × (takes_payment (rt.decode_payment body) ≡ false)
unfolding validate_payload
validate_payload_lets_unknown_status rt body p decoded id status unknown = ground arith
