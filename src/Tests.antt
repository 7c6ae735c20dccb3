-- ===== src/Tests.antt =====
-- Concrete values for the modules: a fixed-point instance of the floats, samples, and runs of the code.
pub mod Fixed
pub mod Samples
mod Routing
mod Assign
mod Audit
mod Registry
mod RateLimit
pub mod Workers
mod Consumer
mod Containers
mod Security
mod Secrets
mod Events
mod Entry
mod Heartbeat
mod Metrics
