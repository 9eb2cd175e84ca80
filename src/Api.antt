-- ===== src/Api.antt =====
-- extract_service/main.py: the request handlers.
pub mod Create
pub mod Cancel
pub mod Idempotency
pub mod Cap
pub mod Cancelling
pub mod Listing
pub mod Pages
pub mod Replay
pub mod Status
pub mod Reported
pub mod Files
pub mod FilesListed
pub mod Downloads
