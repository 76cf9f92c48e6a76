-- ===== src/Worker/Processors/Notification.antt =====
-- internal/worker/notification_processor.go; a sender is any function of the channel, the
-- recipient, the subject and the body.
use ingress_api_gateway.Prelude.{
  ℕ, String, Bool, not, Option, none, some, ◌<>◌, ◌==◌, if◌then◌else◌,
}
use ingress_api_gateway.Prelude.Int.{inc}
use ingress_api_gateway.Domain.Error.{wrap}
use ingress_api_gateway.Domain.Result.{
  Result, ok, err, Act, fail, catch, map_error, ignore, is_ok, ◌>>=◌, ◌>>◌,
}
use ingress_api_gateway.Domain.Job.{Job, job_type_notification}
use ingress_api_gateway.Domain.Event.{
  NotificationChannel, NotificationPayload, NotificationEvent, AuditLog, channel_valid,
}
use ingress_api_gateway.Domain.Ports.{Store, Env, Runtime, World, on_store, on_env, Processor}
use ingress_api_gateway.Worker.Processors.{non_retryable, undecodable}

abbrev pub Sender : Type 0 → Type 0
Sender W = NotificationChannel → String → String → String → Act W (Unit {0})

-- `SimulatedSender`, the sender that a nil sender defaults to: it always succeeds.
abbrev pub simulated_sender : {W : Type 0} → Sender W
simulated_sender channel recipient subject body w = (ok tt, w)

abbrev pub sender_or_simulated : {W : Type 0} → Option (Sender W) → Sender W
sender_or_simulated none = simulated_sender
sender_or_simulated (some sender) = sender

unfoldable pub sent_at : ℕ → Bool → Option ℕ
sent_at t sent = if sent then some t else none

unfoldable pub new_notification_event :
    String → ℕ → Job → NotificationPayload → Bool → NotificationEvent
unfolding sent_at
new_notification_event id now job p sent = record {
  id = id;
  job_id = job.id;
  channel = p.channel;
  recipient = p.recipient;
  template = p.template;
  status = if sent then "SENT" else "FAILED";
  attempts = inc job.retry_count;
  sent_at = sent_at now sent;
  created_at = now;
}

abbrev pub notification_audit : ℕ → Job → NotificationPayload → AuditLog
notification_audit now job p = record {
  entity_type = "notification";
  entity_id = p.recipient;
  action = "SENT_" <> p.channel;
  detail = job.payload;
  trace_id = job.trace_id;
  created_at = now;
}

module _ {Q S C E : Type 0} (store : Store S) (env : Env E) (rt : Runtime)
    (sender : Sender (World Q S C E)) where
  -- A failed send is an error, so that the pool retries; a failed audit is only logged.
  abbrev pub conclude :
      ℕ → Job → NotificationPayload → Result (Unit {0}) → Act (World Q S C E) (Unit {0})
  conclude now job p (err e) w = fail (wrap ("send " <> p.channel <> " notification: ") e "") w
  conclude now job p (ok _) w =
      (ok tt, ignore (on_store (store.create_audit_log (notification_audit now job p))) w)

  -- The delivery result is recorded whether the send failed or not.
  unfoldable pub deliver : Job → NotificationPayload → Act (World Q S C E) (Unit {0})
  unfolding new_notification_event
  deliver job p = do
    now ← on_env env.now
    sent ← catch (sender p.channel p.recipient p.subject p.body)
    id ← on_env env.new_uuid
    map_error (λ e. wrap "store notification event: " e "")
        (on_store
          (store.create_notification_event (new_notification_event id now job p (is_ok sent))))
    conclude now job p sent

  abbrev pub process_decoded : Job → Result NotificationPayload → Act (World Q S C E) (Unit {0})
  process_decoded job (err e) w = fail (undecodable rt.quote "decode notification payload" e) w
  process_decoded job (ok p) w =
      if not (channel_valid p.channel)
      then fail (non_retryable ("invalid channel " <> rt.quote p.channel)) w
      else if p.recipient == ""
      then fail (non_retryable "recipient is required") w
      else deliver job p w

  unfoldable pub process_notification : Job → Act (World Q S C E) (Unit {0})
  unfolding deliver
  process_notification job w = process_decoded job (rt.decode_notification job.payload) w

  abbrev pub notification_processor : Processor (World Q S C E)
  notification_processor = record { type = job_type_notification; process = process_notification }
