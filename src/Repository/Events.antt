-- ===== src/Repository/Events.antt =====
-- internal/repository/event_repository.go: the rows that the processors store.
use ingress_api_gateway.Prelude.{String, List, [], ◌∷◌, ◌==◌, if◌then◌else◌}
use ingress_api_gateway.Domain.Error.{wrap}
use ingress_api_gateway.Domain.Result.{Act, pure, map_error, ◌>>◌}
use ingress_api_gateway.Domain.Event.{
  Registration, PaymentEvent, QrScanEvent, NotificationEvent, AuditLog,
}
use ingress_api_gateway.Repository.Database.{Postgres, Value, text, int, time, optional_time}
use ingress_api_gateway.Repository.Sql.{
  insert_registration, upsert_payment, insert_scan, insert_notification, insert_audit,
}

-- `_, err := pool.Exec(...)`, and the error under the name of the step.
abbrev pub exec_only : {D : Type 0} → Postgres D → String → String → List Value → Act D (Unit {0})
exec_only pg step sql args = do map_error (λ e. wrap step e "") (pg.exec sql args); pure tt

abbrev pub registration_values : Registration → List Value
registration_values r =
    text r.id
    ∷ text r.job_id
    ∷ text r.event_id
    ∷ text r.attendee_name
    ∷ text r.email
    ∷ text r.phone
    ∷ text r.ticket_type
    ∷ text r.status
    ∷ time r.created_at
    ∷ []

abbrev pub payment_values : PaymentEvent → List Value
payment_values p =
    text p.id
    ∷ text p.job_id
    ∷ text p.gateway_order_id
    ∷ text p.payment_id
    ∷ text p.status
    ∷ int p.amount_cents
    ∷ text p.currency
    ∷ optional_time p.processed_at
    ∷ time p.created_at
    ∷ []

abbrev pub scan_values : QrScanEvent → List Value
scan_values e =
    text e.id
    ∷ text e.job_id
    ∷ text e.qr_code
    ∷ text e.event_id
    ∷ text e.gate_id
    ∷ text e.scanned_by
    ∷ time e.created_at
    ∷ []

abbrev pub notification_values : NotificationEvent → List Value
notification_values n =
    text n.id
    ∷ text n.job_id
    ∷ text n.channel
    ∷ text n.recipient
    ∷ text n.template
    ∷ text n.status
    ∷ int n.attempts
    ∷ optional_time n.sent_at
    ∷ time n.created_at
    ∷ []

-- An empty detail is stored as the empty object.
abbrev pub audit_values : AuditLog → List Value
audit_values l =
    text l.entity_type
    ∷ text l.entity_id
    ∷ text l.action
    ∷ text (if l.detail == "" then "{}" else l.detail)
    ∷ text l.trace_id
    ∷ time l.created_at
    ∷ []

module _ {D : Type 0} (pg : Postgres D) where
  unfoldable pub create_registration : Registration → Act D (Unit {0})
  create_registration r =
      exec_only pg "insert registration: " insert_registration (registration_values r)

  unfoldable pub upsert_payment_event : PaymentEvent → Act D (Unit {0})
  upsert_payment_event p = exec_only pg "upsert payment event: " upsert_payment (payment_values p)

  unfoldable pub create_qr_scan_event : QrScanEvent → Act D (Unit {0})
  create_qr_scan_event e = exec_only pg "insert qr scan event: " insert_scan (scan_values e)

  unfoldable pub create_notification_event : NotificationEvent → Act D (Unit {0})
  create_notification_event n =
      exec_only pg "insert notification event: " insert_notification (notification_values n)

  unfoldable pub create_audit_log : AuditLog → Act D (Unit {0})
  create_audit_log l = exec_only pg "insert audit log: " insert_audit (audit_values l)
