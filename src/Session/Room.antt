-- ===== src/Session/Room.antt =====
-- pkg/chat/v2/session/session.go and client.go: the clients of a room and what they are sent. A
-- method returns the session and the effects that it has on the clients, in order: `Send` and
-- `Close` calls, and the start of `CleanupUploads`. What a client's queue makes of a `Send` changes
-- nothing in the session. The clock, message ids and the order of `range` are arguments.
pub mod Visible
pub mod Members
pub mod Peers
pub mod Edits
pub mod Replay
pub mod Client
pub mod Queue
pub mod Themes
pub mod Draws
pub mod Assigned
