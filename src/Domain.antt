-- ===== src/Domain.antt =====
-- src/domain: lifecycles of requests, payments and mandates, the policy engine, the journal.
pub mod Lifecycles
pub mod Policy
pub mod FinancialLedger
