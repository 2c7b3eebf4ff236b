-- ===== src/Executor.antt =====
-- The executors: backend/lumendark/executor.
pub mod ActionHandler
pub mod MessageHandler
pub mod Exchange
