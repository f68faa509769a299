-- ===== src/Bandwidth.antt =====
-- pkg/chat/v2/bandwidth: the policies of policy.go and the Scheduler of scheduler.go.
-- A job that the Go code changes through its pointer is written back to the map. `now` is what
-- `time.Now()` returns during the call. Logging (`diag.Emit`) and the mutex are left out.
pub mod Limit
pub mod Throttle
pub mod Run
pub mod Bounds
pub mod Sleep
pub mod Pace
