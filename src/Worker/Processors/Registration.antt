-- ===== src/Worker/Processors/Registration.antt =====
-- internal/worker/registration_processor.go
use ingress_api_gateway.Prelude.{ℕ, String, ◌||◌, ◌<>◌, ◌==◌, if◌then◌else◌}
use ingress_api_gateway.Domain.Error.{wrap}
use ingress_api_gateway.Domain.Result.{Result, ok, err, Act, fail, map_error, ignore, ◌>>=◌, ◌>>◌}
use ingress_api_gateway.Domain.Job.{Job, job_type_registration, job_type_notification}
use ingress_api_gateway.Domain.Event.{
  RegistrationPayload, Registration, NotificationPayload, channel_email,
}
use ingress_api_gateway.Domain.Ports.{
  Store, Env, Runtime, World, on_store, on_env, Enqueuer, Processor,
}
use ingress_api_gateway.Worker.Processors.{non_retryable, undecodable, default_str}

unfoldable pub new_registration : String → ℕ → Job → RegistrationPayload → Registration
unfolding default_str
new_registration id now job p = record {
  id = id;
  job_id = job.id;
  event_id = p.event_id;
  attendee_name = p.attendee_name;
  email = p.email;
  phone = p.phone;
  ticket_type = default_str p.ticket_type "GENERAL";
  status = "CONFIRMED";
  created_at = now;
}

unfoldable pub welcome : Registration → NotificationPayload
welcome reg = record {
  channel = channel_email;
  recipient = reg.email;
  template = "registration_welcome";
  subject = "Your registration is confirmed";
  body = "Hi " <> reg.attendee_name <> ", you are confirmed for event " <> reg.event_id <> ".";
  event_id = reg.event_id;
}

module _ {Q S C E : Type 0} (store : Store S) (env : Env E) (rt : Runtime)
    (enqueuer : Enqueuer (World Q S C E)) where
  abbrev pub enqueue_encoded : Job → Registration → Result String → World Q S C E → World Q S C E
  enqueue_encoded job reg (ok b) w =
      ignore
        (enqueuer (record {
          job_type = job_type_notification;
          payload = b;
          idempotency_key = "notif:registration:" <> reg.id;
          trace_id = job.trace_id;
        }))
        w
  enqueue_encoded job reg (err e) w = w

  -- A failure to encode or to enqueue is only logged.
  unfoldable pub enqueue_welcome : Job → Registration → World Q S C E → World Q S C E
  unfolding welcome
  enqueue_welcome job reg w = enqueue_encoded job reg (rt.encode_notification (welcome reg)) w

  unfoldable pub write_audit : Registration → Job → ℕ → World Q S C E → World Q S C E
  write_audit reg job now = ignore (
      on_store (
        store.create_audit_log (record {
          entity_type = "registration";
          entity_id = reg.id;
          action = "CREATED";
          detail = job.payload;
          trace_id = job.trace_id;
          created_at = now;
        })))

  unfoldable pub register : Job → RegistrationPayload → Act (World Q S C E) (Unit {0})
  unfolding new_registration enqueue_welcome write_audit
  register job p = do
    now ← on_env env.now
    id ← on_env env.new_uuid
    let reg = new_registration id now job p
    map_error (λ e. wrap "store registration: " e "") (on_store (store.create_registration reg))
    λ w. (ok tt, write_audit reg job now (enqueue_welcome job reg w))

  abbrev pub process_decoded : Job → Result RegistrationPayload → Act (World Q S C E) (Unit {0})
  process_decoded job (err e) w = fail (undecodable rt.quote "decode registration payload" e) w
  process_decoded job (ok p) w =
      if p.event_id == "" || p.attendee_name == "" || p.email == ""
      then fail (non_retryable "event_id, attendee_name and email are required") w
      else register job p w

  unfoldable pub process_registration : Job → Act (World Q S C E) (Unit {0})
  unfolding register
  process_registration job w = process_decoded job (rt.decode_registration job.payload) w

  abbrev pub registration_processor : Processor (World Q S C E)
  registration_processor = record { type = job_type_registration; process = process_registration }
