-- ===== src/Quota.antt =====
-- pkg/server/chat_limiter.go: the daily allowance of an unpaid user, its signed file and its locks.
pub mod Usage
pub mod Load
pub mod Calls
pub mod Locks
pub mod Saved
pub mod Charges
pub mod Day
pub mod NetTime
pub mod Fetches
