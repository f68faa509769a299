-- ===== src/Server.antt =====
-- pkg/server: util.go and progress.go.
pub mod FileName
pub mod Percent
pub mod Encode
pub mod Sanitize
