-- ===== src/Signer.antt =====
-- The signer's modules: src/signer.
pub mod AuthorizationStore
