-- ===== src/Domain.antt =====
-- internal/domain: the entities, the errors and the ports of the gateway.
pub mod Error
pub mod Result
pub mod Job
pub mod Event
pub mod Ports
pub mod Laws
