-- ===== src/Helper.antt =====
-- The package internal/helper.
pub mod WriteAfterReader
