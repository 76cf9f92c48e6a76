-- ===== src/Worker/Processors/Payment.antt =====
-- internal/worker/payment_processor.go
use ingress_api_gateway.Prelude.{ℕ, String, Bool, not, ◌||◌, some, ◌<>◌, ◌==◌, if◌then◌else◌}
use ingress_api_gateway.Domain.Error.{wrap}
use ingress_api_gateway.Domain.Result.{Result, ok, err, Act, fail, map_error, ignore, ◌>>=◌, ◌>>◌}
use ingress_api_gateway.Domain.Job.{Job, job_type_payment_webhook}
use ingress_api_gateway.Domain.Event.{PaymentWebhookPayload, PaymentEvent, AuditLog}
use ingress_api_gateway.Domain.Ports.{Store, Env, Runtime, World, on_store, on_env, Processor}
use ingress_api_gateway.Worker.Processors.{non_retryable, undecodable, default_str}

-- Membership in `validPaymentStatuses`.
unfoldable pub valid_payment_status : String → Bool
valid_payment_status s =
    s == "AUTHORIZED" || s == "CAPTURED" || s == "FAILED" || s == "REFUNDED" || s == "PENDING"

unfoldable pub new_payment_event : String → ℕ → Job → PaymentWebhookPayload → PaymentEvent
unfolding default_str
new_payment_event id now job p = record {
  id = id;
  job_id = job.id;
  gateway_order_id = p.gateway_order_id;
  payment_id = p.payment_id;
  status = p.payment_status;
  amount_cents = p.amount_cents;
  currency = default_str p.currency "INR";
  processed_at = some now;
  created_at = now;
}

abbrev pub payment_audit : ℕ → Job → PaymentWebhookPayload → AuditLog
payment_audit now job p = record {
  entity_type = "payment";
  entity_id = p.gateway_order_id;
  action = "WEBHOOK_" <> p.payment_status;
  detail = job.payload;
  trace_id = job.trace_id;
  created_at = now;
}

module _ {Q S C E : Type 0} (store : Store S) (env : Env E) (rt : Runtime) where
  unfoldable pub record_payment : Job → PaymentWebhookPayload → Act (World Q S C E) (Unit {0})
  unfolding new_payment_event
  record_payment job p = do
    now ← on_env env.now
    id ← on_env env.new_uuid
    map_error (λ e. wrap "upsert payment event: " e "")
        (on_store (store.upsert_payment_event (new_payment_event id now job p)))
    λ w. (ok tt, ignore (on_store (store.create_audit_log (payment_audit now job p))) w)

  abbrev pub process_decoded : Job → Result PaymentWebhookPayload → Act (World Q S C E) (Unit {0})
  process_decoded job (err e) w = fail (undecodable rt.quote "decode payment payload" e) w
  process_decoded job (ok p) w =
      if p.gateway_order_id == ""
      then fail (non_retryable "gateway_order_id is required") w
      else if not (valid_payment_status p.payment_status)
      then fail (non_retryable ("unknown payment_status " <> rt.quote p.payment_status)) w
      else record_payment job p w

  unfoldable pub process_payment : Job → Act (World Q S C E) (Unit {0})
  unfolding record_payment
  process_payment job w = process_decoded job (rt.decode_payment job.payload) w

  abbrev pub payment_processor : Processor (World Q S C E)
  payment_processor = record { type = job_type_payment_webhook; process = process_payment }
