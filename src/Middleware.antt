-- ===== src/Middleware.antt =====
-- apps/api/src/middleware: who makes a request.
pub mod Auth
