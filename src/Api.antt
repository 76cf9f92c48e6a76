-- ===== src/Api.antt =====
-- internal/api: the HTTP surface. A handler takes a request and the state to a response and the
-- state; a middleware wraps a handler.
pub mod Http
pub mod Middleware
pub mod Handlers
pub mod Router
