-- ===== src/Worker/Processors/Effects.antt =====
-- internal/worker/*_processor.go: what the processors store, and what decides their result.
use ingress_api_gateway.Prelude.{ℕ, String, ◌≡◌, true, ◌&&◌, arith, if◌then◌else◌}
use ingress_api_gateway.Prelude.Int.{inc}
use ingress_api_gateway.Domain.Result.{Result, ok, is_ok}
use ingress_api_gateway.Domain.Job.{Job}
use ingress_api_gateway.Domain.Event.{
  RegistrationPayload, PaymentWebhookPayload, NotificationPayload, NotificationEvent,
}
use ingress_api_gateway.Domain.Ports.{Store, Env, Runtime, World, Enqueuer}
use ingress_api_gateway.Worker.Processors.Registration.{process_registration, new_registration}
use ingress_api_gateway.Worker.Processors.Payment.{process_payment, new_payment_event}
use ingress_api_gateway.Worker.Processors.Notification.{
  process_notification, new_notification_event, Sender,
}
use ingress_api_gateway.Worker.Processors.Permanent.{
  takes_registration, takes_payment, takes_notification,
}

module _ {Q S C E : Type 0} (store : Store S) (env : Env E) (rt : Runtime) where
  -- The clock and the id that a processor draws first.
  abbrev time_of : World Q S C E → ℕ
  time_of w = (env.now w.env).0

  abbrev id_of : World Q S C E → String
  id_of w = (env.new_uuid (env.now w.env).1).0

  -- A registration that decodes and has its required fields succeeds exactly if its row is stored: neither the welcome
  -- notification nor the audit log can fail it.
  pub process_registration-ok :
      (enqueuer : Enqueuer (World Q S C E)) (job : Job) (p : RegistrationPayload)
      (w : World Q S C E)
      → rt.decode_registration job.payload ≡ ok p
      → takes_registration (ok p) ≡ true
      → is_ok (process_registration store env rt enqueuer job w).0
        ≡ is_ok (store.create_registration (new_registration (id_of w) (time_of w) job p) w.store).0
  unfolding process_registration
  process_registration-ok enqueuer job p w decoded taken = ground arith

  -- A payment webhook that decodes and is taken succeeds exactly if the upsert of its event does: a
  -- failed audit does not fail it.
  pub process_payment-ok :
      (job : Job) (p : PaymentWebhookPayload) (w : World Q S C E)
      → rt.decode_payment job.payload ≡ ok p
      → takes_payment (ok p) ≡ true
      → is_ok (process_payment store env rt job w).0
        ≡ is_ok
            (store.upsert_payment_event (new_payment_event (id_of w) (time_of w) job p) w.store).0
  unfolding process_payment
  process_payment-ok job p w decoded taken = ground arith

  -- What the sender answers, called after the clock was read.
  abbrev pub attempted :
      Sender (World Q S C E)
      → NotificationPayload
      → World Q S C E
      → Result (Unit {0}) × World Q S C E
  attempted sender p w =
      sender p.channel p.recipient p.subject p.body (record w { env = (env.now w.env).1 })

  -- The event that records the attempt.
  abbrev pub event_of :
      Sender (World Q S C E) → Job → NotificationPayload → World Q S C E → NotificationEvent
  event_of sender job p w =
      let (sent, w') = attempted sender p w in
      new_notification_event (env.new_uuid w'.env).0 (time_of w) job p (is_ok sent)

  -- A notification that decodes and is taken is recorded with the sender's verdict, SENT or FAILED, and
  -- succeeds exactly if it was sent and recorded; if it was not sent, no audit row is written.
  pub process_notification-ok :
      (sender : Sender (World Q S C E)) (job : Job) (p : NotificationPayload) (w : World Q S C E)
      → rt.decode_notification job.payload ≡ ok p
      → takes_notification (ok p) ≡ true
      → let (sent, w') = attempted sender p w in
        let event = event_of sender job p w in
        let stored = store.create_notification_event event w'.store in
        let out = process_notification store env rt sender job w in
        (is_ok out.0 ≡ (is_ok sent && is_ok stored.0))
        × (event.status ≡ (if is_ok sent then "SENT" else "FAILED"))
        × (event.attempts ≡ inc job.retry_count)
        × ((if is_ok sent then stored.1 else out.1.store) ≡ stored.1)
  unfolding process_notification
  process_notification-ok sender job p w decoded taken = ground arith
