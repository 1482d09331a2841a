-- ===== src/Worker.antt =====
-- gateway/workers: the circuit breaker and the queue of the worker service.
pub mod Circuit
pub mod Jobs
pub mod Service
pub mod Signature
pub mod Remote
pub mod Http
pub mod Relay
pub mod Proxy
pub mod Stop
pub mod Once
