-- ===== src/Models.antt =====
-- The data of the backend: backend/lumendark/models.
pub mod Order
pub mod Trade
pub mod User
pub mod Message
