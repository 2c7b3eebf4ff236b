-- ===== src/Matching.antt =====
-- The matching engine: backend/lumendark/matching.
pub mod Engine
