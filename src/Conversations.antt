-- ===== src/Conversations.antt =====
-- Conversations: settings, receipts, and direct conversations
-- (apps/im-server/src/modules/conversations/services).
pub mod Membership
pub mod Receipts
pub mod Settings
pub mod Direct
