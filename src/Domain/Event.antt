-- ===== src/Domain/Event.antt =====
-- internal/domain/events.go: the request payloads and the rows that the processors store.
use ingress_api_gateway.Prelude.{ℕ, String, Bool, ◌||◌, Option, ◌==◌}
use ingress_api_gateway.Prelude.Int.{ℤ}

pub record RegistrationPayload : Type 0 where
  pub event_id : String
  pub attendee_name : String
  pub email : String
  pub phone : String
  pub ticket_type : String

pub record PaymentWebhookPayload : Type 0 where
  pub gateway_order_id : String
  pub payment_id : String
  pub payment_status : String
  pub amount_cents : ℤ
  pub currency : String

pub record QrScanPayload : Type 0 where
  pub qr_code : String
  pub event_id : String
  pub gate_id : String
  pub scanned_by : String

abbrev pub NotificationChannel : Type 0
NotificationChannel = String

abbrev pub channel_email : NotificationChannel
channel_email = "EMAIL"

abbrev pub channel_sms : NotificationChannel
channel_sms = "SMS"

abbrev pub channel_push : NotificationChannel
channel_push = "PUSH"

-- `NotificationChannel.Valid`.
unfoldable pub channel_valid : NotificationChannel → Bool
channel_valid c = c == channel_email || c == channel_sms || c == channel_push

pub record NotificationPayload : Type 0 where
  pub channel : NotificationChannel
  pub recipient : String
  pub template : String
  pub subject : String
  pub body : String
  pub event_id : String

pub record Registration : Type 0 where
  pub id : String
  pub job_id : String
  pub event_id : String
  pub attendee_name : String
  pub email : String
  pub phone : String
  pub ticket_type : String
  pub status : String
  pub created_at : ℕ

pub record PaymentEvent : Type 0 where
  pub id : String
  pub job_id : String
  pub gateway_order_id : String
  pub payment_id : String
  pub status : String
  pub amount_cents : ℤ
  pub currency : String
  pub processed_at : Option ℕ
  pub created_at : ℕ

pub record QrScanEvent : Type 0 where
  pub id : String
  pub job_id : String
  pub qr_code : String
  pub event_id : String
  pub gate_id : String
  pub scanned_by : String
  pub created_at : ℕ

pub record NotificationEvent : Type 0 where
  pub id : String
  pub job_id : String
  pub channel : String
  pub recipient : String
  pub template : String
  pub status : String
  pub attempts : ℤ
  pub sent_at : Option ℕ
  pub created_at : ℕ

-- The number that the database gives a row is left out: no code reads it.
pub record AuditLog : Type 0 where
  pub entity_type : String
  pub entity_id : String
  pub action : String
  pub detail : String
  pub trace_id : String
  pub created_at : ℕ
