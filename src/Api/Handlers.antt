-- ===== src/Api/Handlers.antt =====
-- internal/api/handlers: the gateway's, the admin's and the health handlers.
pub mod Validate
pub mod Gateway
pub mod Admin
pub mod Health
