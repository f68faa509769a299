-- ===== src/Session.antt =====
-- pkg/chat/v2/session: the rooms of the chat, their message store and their clients.
pub mod Event
pub mod Store
pub mod History
pub mod Room
pub mod Registry
