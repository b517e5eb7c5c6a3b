-- ===== src/Core.antt =====
-- src/core: the branch circuit, the budget ledger, pricing and the service over them.
pub mod Circuit
pub mod Ledger
pub mod Pricing
pub mod Service
