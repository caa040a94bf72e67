-- ===== src/Conversations.antt =====
-- server/internal/conversations: messages, chats and their agents.
pub mod Messages
pub mod Membership
pub mod Attachments
pub mod Cadence
pub mod Desk
pub mod Composing
pub mod Agenda
pub mod Schedules
pub mod Sending
pub mod Streams
pub mod History
