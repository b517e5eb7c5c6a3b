-- ===== src/Anomaly.antt =====
-- src/anomaly: the divergence of a branch from its siblings.
pub mod SiblingDivergence
