-- ===== src/ObjectStore.antt =====
-- internal/objectstore: uploads to an object store.
pub mod Multipart
