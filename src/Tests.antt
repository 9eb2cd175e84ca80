-- ===== src/Tests.antt =====
-- Concrete services, and the theorems applied to them.
mod Data
mod Auth
mod EventBus
mod Api
mod Store
mod Webhooks
mod Worker
mod Consumer
mod List
mod Startup
mod Logging
mod Status
mod Files
mod Lifecycle
mod Metrics
