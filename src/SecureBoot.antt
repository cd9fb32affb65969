-- ===== src/SecureBoot.antt =====
-- Updates of the configuration where Secure Boot protects it.
pub mod Tools
pub mod EfiImage
pub mod Transaction
pub mod Service
