-- ===== src/Sync.antt =====
-- The events that a user's devices read after a disconnection: apps/im-server/src/modules/sync.
pub mod Projection
