-- ===== src/Persistence.antt =====
-- The stores of src/persistence.
pub mod PolicyStore
