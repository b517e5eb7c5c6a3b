-- ===== src/Administration.antt =====
-- The administration of policies and mandates: src/policy.
pub mod PolicyAdministration
