-- ===== src/Groups.antt =====
-- Groups: apps/im-server/src/modules/groups/services.
pub mod Locking
pub mod System
pub mod Joining
pub mod Profile
pub mod Invites
pub mod Requests
pub mod Leaving
pub mod Ownership
pub mod Roles
pub mod Counting
