-- ===== src/Transfer.antt =====
-- pkg/chat/v2/transfer: the jobs of job.go and the Manager of manager.go.
pub mod Job
pub mod Manager
pub mod Run
pub mod Lifecycle
pub mod Progress
