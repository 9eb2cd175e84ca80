-- ===== src/Webhooks.antt =====
-- extract_service/webhooks.py: webhook delivery and the retention sweeper.
pub mod Delivery
pub mod Sweeper
pub mod Attempts
pub mod Rounds
pub mod Retention
pub mod Signed
