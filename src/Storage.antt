-- ===== src/Storage.antt =====
-- extract_service/storage.py: class `Storage` over SQLite. A method is a function on the tables;
-- one that may raise `IntegrityError` is an `Exec`.
pub mod Rows
pub mod Apps
pub mod Extracts
pub mod Lookup
pub mod Listing
