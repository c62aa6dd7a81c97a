-- ===== src/Tls.antt =====
-- src/tls: the layer between a connection and its handler that encrypts, and its credentials.
pub mod Credentials
pub mod Policy
pub mod Layer
