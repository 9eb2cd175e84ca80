-- ===== src/ObjectStore.antt =====
-- extract_service/object_store.py: the object store on the local file system.
pub mod Files
pub mod Publishing
pub mod Tokens
pub mod Signing
