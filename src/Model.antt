-- ===== src/Model.antt =====
-- The entities of the services (apps/im-server/src/modules/*/persistence/entities) as records,
-- and the store: one list of rows for each table.
mod Identity
mod Chat
mod Group
mod Contact
mod Media
mod Event
mod Tables
pub use Identity.*
pub use Chat.*
pub use Group.*
pub use Contact.*
pub use Media.*
pub use Event.*
pub use Tables.*
