-- ===== src/Messages.antt =====
-- Messages: sending, and the advanced commands (apps/im-server/src/modules/messages/services).
pub mod Guards
pub mod Send
pub mod Numbering
pub mod Access
pub mod Recall
pub mod Reactions
pub mod Hiding
pub mod Forward
