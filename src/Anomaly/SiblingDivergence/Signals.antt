-- ===== src/Anomaly/SiblingDivergence/Signals.antt =====
-- When a target is signalled, and that a valid evaluation returns.
