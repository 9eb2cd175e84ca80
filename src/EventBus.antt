-- ===== src/EventBus.antt =====
-- extract_service/event_bus.py: topics with offsets, delivery with retries and dead letters, and
-- retention.
pub mod Log
pub mod Delivery
pub mod Numbering
pub mod Retries
pub mod Consumption
pub mod Gaps
