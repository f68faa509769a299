-- ===== src/Config.antt =====
-- pkg/config: the files of the configuration.
pub mod Files
pub mod Recovery
pub mod Replace
