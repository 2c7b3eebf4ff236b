-- ===== src/Client.antt =====
-- The client package: client/lumendark_client.
pub mod Signing
pub mod Polling
pub mod Requests
