-- ===== src/Server.antt =====
-- The HTTP layer (`internal/server`).
pub mod RateLimit
pub mod Security
pub mod Identity
pub mod Login
pub mod Api
