-- ===== src/Outbox.antt =====
-- The transactional outbox: apps/im-server/src/modules/outbox/services.
pub mod Writer
pub mod Relay
