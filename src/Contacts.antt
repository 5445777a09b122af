-- ===== src/Contacts.antt =====
-- Friend requests, contacts and blocks: apps/im-server/src/modules/contacts/services.
pub mod Policy
pub mod Blocking
pub mod Requests
pub mod WellFormed
