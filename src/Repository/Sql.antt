-- ===== src/Repository/Sql.antt =====
-- The texts of the statements in internal/repository.
use ingress_api_gateway.Prelude.{String, ◌<>◌}

abbrev pub insert_job : String
insert_job =
    "\nINSERT INTO jobs (id, job_type, payload, status, retry_count, max_retries,\n                  priority, idempotency_key, trace_id, error_message,\n                  created_at, updated_at, processed_at)\nVALUES ($1,$2,$3,$4,$5,$6,$7,$8,$9,$10,$11,$12,$13)"

abbrev pub update_job : String
update_job =
    "\nUPDATE jobs\n   SET status=$2, retry_count=$3, error_message=$4, updated_at=$5, processed_at=$6\n WHERE id=$1"

abbrev pub job_columns : String
job_columns =
    "id, job_type, payload, status, retry_count, max_retries,\n\tpriority, idempotency_key, trace_id, error_message,\n\tcreated_at, updated_at, processed_at"

abbrev pub select_job : String
select_job = "SELECT " <> job_columns <> " FROM jobs WHERE id=$1"

abbrev pub select_dead_letter : String
select_dead_letter =
    "SELECT " <> job_columns
    <> " FROM jobs WHERE status=$1 ORDER BY updated_at DESC LIMIT $2 OFFSET $3"

abbrev pub select_count_by_status : String
select_count_by_status = "SELECT status, COUNT(*) FROM jobs GROUP BY status"

abbrev pub select_count_by_type : String
select_count_by_type = "SELECT job_type, COUNT(*) FROM jobs GROUP BY job_type"

abbrev pub insert_attempt : String
insert_attempt =
    "\nINSERT INTO job_attempts (job_id, attempt, status, error, duration_ms, created_at)\nVALUES ($1,$2,$3,$4,$5,$6)"

abbrev pub insert_registration : String
insert_registration =
    "\nINSERT INTO registrations (id, job_id, event_id, attendee_name, email, phone, ticket_type, status, created_at)\nVALUES ($1,$2,$3,$4,$5,$6,$7,$8,$9)"

abbrev pub upsert_payment : String
upsert_payment =
    "\nINSERT INTO payment_events (id, job_id, gateway_order_id, payment_id, status, amount_cents, currency, processed_at, created_at)\nVALUES ($1,$2,$3,$4,$5,$6,$7,$8,$9)\nON CONFLICT (gateway_order_id) DO UPDATE\n   SET payment_id   = EXCLUDED.payment_id,\n       status       = EXCLUDED.status,\n       amount_cents = EXCLUDED.amount_cents,\n       currency     = EXCLUDED.currency,\n       processed_at = EXCLUDED.processed_at"

abbrev pub insert_scan : String
insert_scan =
    "\nINSERT INTO qr_scan_events (id, job_id, qr_code, event_id, gate_id, scanned_by, created_at)\nVALUES ($1,$2,$3,$4,$5,$6,$7)"

abbrev pub insert_notification : String
insert_notification =
    "\nINSERT INTO notification_events (id, job_id, channel, recipient, template, status, attempts, sent_at, created_at)\nVALUES ($1,$2,$3,$4,$5,$6,$7,$8,$9)"

abbrev pub insert_audit : String
insert_audit =
    "\nINSERT INTO audit_logs (entity_type, entity_id, action, detail, trace_id, created_at)\nVALUES ($1,$2,$3,$4,$5,$6)"
