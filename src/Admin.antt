-- ===== src/Admin.antt =====
-- The guards of the administration API.
pub mod Redis
pub mod RateLimit
