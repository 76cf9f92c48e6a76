-- ===== src/Worker.antt =====
-- internal/worker: the background processing tier.
pub mod Pool
pub mod Processors
pub mod Goroutines
pub mod Deliveries
