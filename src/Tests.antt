-- ===== src/Tests.antt =====
-- Runs at concrete inputs, with every hypothesis of a property given.
mod Circuit
mod Ledger
mod Lifecycles
mod Policy
mod Journal
mod Onboarding
mod Divergence
mod Authorizations
mod Administration
mod Completions
mod Store
mod Calls
mod Branches
