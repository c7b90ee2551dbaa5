-- ===== src/Git.antt =====
-- The package internal/git.
pub mod PktLine
pub mod Archive
pub mod Senders
pub mod SmartHttp
