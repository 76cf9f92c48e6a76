-- ===== src/Service.antt =====
-- internal/service: the use-cases of the gateway.
pub mod Idempotency
pub mod Gateway
pub mod Requests
pub mod Admin
