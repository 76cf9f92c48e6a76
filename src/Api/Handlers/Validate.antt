-- ===== src/Api/Handlers/Validate.antt =====
-- internal/api/handlers/gateway_handler.go: the validation of a payload before it is queued.
use ingress_api_gateway.Prelude.{String, not, Option, none, some, ◌==◌, if◌then◌else◌}
use ingress_api_gateway.Domain.Error.{
  Error, sentinel, wrap, new_validation_error, err_invalid_payload, err_unknown_job_type,
}
use ingress_api_gateway.Domain.Result.{Result, ok, err}
use ingress_api_gateway.Domain.Job.{
  JobType, job_type_registration, job_type_payment_webhook, job_type_qr_scan, job_type_notification,
}
use ingress_api_gateway.Domain.Event.{
  RegistrationPayload, PaymentWebhookPayload, QrScanPayload, NotificationPayload, channel_valid,
}
use ingress_api_gateway.Domain.Ports.{Runtime}

-- `none` is the nil error.
abbrev pub required : String → String → Option Error
required field value = if value == "" then some (new_validation_error field "is required") else none

abbrev pub err_invalid_json : Error
err_invalid_json = wrap "" (sentinel err_invalid_payload) ": body is not valid JSON"

-- `firstNonNil`, two errors at a time.
abbrev pub first_non_nil : Option Error → Option Error → Option Error
first_non_nil (some e) rest = some e
first_non_nil none rest = rest

abbrev pub check_registration : Result RegistrationPayload → Option Error
check_registration (err e) = some err_invalid_json
check_registration (ok p) =
    first_non_nil (required "event_id" p.event_id)
      (first_non_nil (required "attendee_name" p.attendee_name) (required "email" p.email))

abbrev pub check_payment : Result PaymentWebhookPayload → Option Error
check_payment (err e) = some err_invalid_json
check_payment (ok p) =
    first_non_nil (required "gateway_order_id" p.gateway_order_id)
      (required "payment_status" p.payment_status)

abbrev pub check_qr_scan : Result QrScanPayload → Option Error
check_qr_scan (err e) = some err_invalid_json
check_qr_scan (ok p) = required "qr_code" p.qr_code

abbrev pub check_notification : Result NotificationPayload → Option Error
check_notification (err e) = some err_invalid_json
check_notification (ok p) =
    if not (channel_valid p.channel)
    then some (new_validation_error "channel" "must be one of EMAIL, SMS, PUSH")
    else required "recipient" p.recipient

unfoldable pub validate_payload : Runtime → JobType → String → Option Error
validate_payload rt job_type body =
    if job_type == job_type_registration
    then check_registration (rt.decode_registration body)
    else if job_type == job_type_payment_webhook
    then check_payment (rt.decode_payment body)
    else if job_type == job_type_qr_scan
    then check_qr_scan (rt.decode_qr_scan body)
    else if job_type == job_type_notification
    then check_notification (rt.decode_notification body)
    else some (sentinel err_unknown_job_type)
