-- ===== src/Models.antt =====
-- extract_service/models.py: the enumerations, the request, and the event schemas. Texts are
-- `String`, instants are seconds since the epoch (`utcnow` drops microseconds), dates are day
-- numbers.
pub mod Enums
pub mod Request
pub mod Events
