-- ===== src/Tests.antt =====
-- The theorems at concrete inputs.
mod Reference
mod Repository
mod TokenLib
mod Tokens
mod Delivery
mod Lifecycle
mod Observe
mod Service
mod Stranded
mod Pool
mod Interleaving
mod Deliveries
mod Requests
mod Processors
mod Adapters
mod Http
mod Pressure
mod Goroutines
mod Config
