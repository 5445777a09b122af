-- ===== src/Auth.antt =====
-- Registration, login, refresh, logout and passwords: apps/im-server/src/modules/auth/services.
pub mod Tokens
pub mod Challenges
pub mod Revoking
pub mod Issue
pub mod Refresh
pub mod Limiter
pub mod Normalizer
pub mod Registration
pub mod Login
pub mod Passwords
