-- ===== src/Middleware.antt =====
-- The packages of api/middleware.
pub mod RateLimit
pub mod Auth
pub mod Logging
