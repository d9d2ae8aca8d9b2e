-- ===== src/Auth.antt =====
-- server/auth: sessions of signed-in devices.
pub mod Session
pub mod Contest
pub mod Refresh
pub mod Use
pub mod Limiter
