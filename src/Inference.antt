-- ===== src/Inference.antt =====
-- The controlled execution of inference requests: src/inference.
pub mod InferenceExecution
