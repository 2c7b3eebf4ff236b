-- ===== src/Storage.antt =====
-- The stores: backend/lumendark/storage.
pub mod UserStore
pub mod OrderBook
pub mod MessageStore
