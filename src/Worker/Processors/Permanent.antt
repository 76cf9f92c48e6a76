-- ===== src/Worker/Processors/Permanent.antt =====
-- internal/worker/*_processor.go: payloads that no retry can mend.
use ingress_api_gateway.Prelude.{◌≡◌, Bool, true, false, not, ◌&&◌, arith, ◌==◌}
use ingress_api_gateway.Prelude.Int.{ℤ}
use ingress_api_gateway.Domain.Error.{err_non_retryable, is_error}
use ingress_api_gateway.Domain.Result.{Result, ok, err, fails_with}
use ingress_api_gateway.Domain.Job.{Job}
use ingress_api_gateway.Domain.Event.{
  RegistrationPayload, PaymentWebhookPayload, QrScanPayload, NotificationPayload, channel_valid,
}
use ingress_api_gateway.Domain.Ports.{Cache, Store, Env, Runtime, World, Enqueuer}
use ingress_api_gateway.Worker.Processors.Registration.{process_registration}
use ingress_api_gateway.Worker.Processors.Payment.{process_payment, valid_payment_status}
use ingress_api_gateway.Worker.Processors.QrScan.{process_qr_scan}
use ingress_api_gateway.Worker.Processors.Notification.{process_notification, Sender}

-- Which decoded payloads each processor takes.
abbrev pub takes_registration : Result RegistrationPayload → Bool
takes_registration (err e) = false
takes_registration (ok p) =
    not (p.event_id == "") && (not (p.attendee_name == "") && not (p.email == ""))

abbrev pub takes_payment : Result PaymentWebhookPayload → Bool
takes_payment (err e) = false
takes_payment (ok p) = not (p.gateway_order_id == "") && valid_payment_status p.payment_status

abbrev pub takes_qr_scan : Result QrScanPayload → Bool
takes_qr_scan (err e) = false
takes_qr_scan (ok p) = not (p.qr_code == "")

abbrev pub takes_notification : Result NotificationPayload → Bool
takes_notification (err e) = false
takes_notification (ok p) = channel_valid p.channel && not (p.recipient == "")

module _ {Q S C E : Type 0} (store : Store S) (cache : Cache C) (env : Env E) (rt : Runtime) where
  -- A registration that does not decode, or lacks its event, name or email, fails as non-retryable and
  -- changes nothing.
  pub process_registration_refuses :
      (enqueuer : Enqueuer (World Q S C E)) (job : Job) (w : World Q S C E)
      → takes_registration (rt.decode_registration job.payload) ≡ false
      → let out = process_registration store env rt enqueuer job w in
        (fails_with out.0 err_non_retryable ≡ true) × (out.1 ≡ w)
  unfolding process_registration is_error
  process_registration_refuses enqueuer job w h = ground arith

  -- A payment webhook that does not decode, has no order id or no known status, fails as non-retryable
  -- and changes nothing.
  pub process_payment_refuses :
      (job : Job) (w : World Q S C E)
      → takes_payment (rt.decode_payment job.payload) ≡ false
      → let out = process_payment store env rt job w in
        (fails_with out.0 err_non_retryable ≡ true) × (out.1 ≡ w)
  unfolding process_payment is_error
  process_payment_refuses job w h = ground arith

  -- A QR scan that does not decode or has no code fails as non-retryable and changes nothing.
  pub process_qr_scan_refuses :
      (ttl : ℤ) (job : Job) (w : World Q S C E)
      → takes_qr_scan (rt.decode_qr_scan job.payload) ≡ false
      → let out = process_qr_scan store cache env rt ttl job w in
        (fails_with out.0 err_non_retryable ≡ true) × (out.1 ≡ w)
  unfolding process_qr_scan is_error
  process_qr_scan_refuses ttl job w h = ground arith

  -- A notification that does not decode, or has no valid channel or no recipient, fails as
  -- non-retryable and changes nothing.
  pub process_notification_refuses :
      (sender : Sender (World Q S C E)) (job : Job) (w : World Q S C E)
      → takes_notification (rt.decode_notification job.payload) ≡ false
      → let out = process_notification store env rt sender job w in
        (fails_with out.0 err_non_retryable ≡ true) × (out.1 ≡ w)
  unfolding process_notification is_error
  process_notification_refuses sender job w h = ground arith
