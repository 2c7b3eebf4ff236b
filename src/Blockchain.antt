-- ===== src/Blockchain.antt =====
-- The connection to the contract: backend/lumendark/blockchain.
pub mod Client
pub mod Transaction
pub mod Decoding
pub mod EventListener
