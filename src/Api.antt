-- ===== src/Api.antt =====
-- The HTTP API: backend/lumendark/api.
pub mod Auth
pub mod Routes
