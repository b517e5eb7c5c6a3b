-- ===== src/Product.antt =====
-- src/product: the onboarding state machine.
pub mod OnboardingState
