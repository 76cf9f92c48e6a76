-- ===== src/Service/Idempotency.antt =====
-- internal/service/idempotency.go: the keys under which accepted requests are remembered.
use ingress_api_gateway.Prelude.{String, ◌<>◌}
use ingress_api_gateway.Domain.Job.{JobType}

-- `sha256_hex` is the lower-case hexadecimal SHA-256 of a text.
unfoldable pub payload_hash : (String → String) → JobType → String → String
payload_hash sha256_hex job_type payload = sha256_hex (job_type <> ":" <> payload)

unfoldable pub idempotency_redis_key : JobType → String → String
idempotency_redis_key job_type key = "idemp:" <> job_type <> ":" <> key
