-- ===== src/MerchantAssist.antt =====
-- The merchant assistant's evidence: internal/application/merchantassist.
pub mod Scan
mod Tests
