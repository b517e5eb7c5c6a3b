-- ===== src/Tests/Onboarding.antt =====
-- src/product/onboardingState.ts on a workspace that is set up, and on one that is suspended.
use fuse_agent_control_plane.Base.{true, false, List, [], ◌∷◌, String, ok, is_some, ◌≡◌, refl, inl}
use fuse_agent_control_plane.Product.OnboardingState.{
  EventType, to_identity_ready, to_provider_verified, to_payment_ready, to_agent_ready,
  to_mandate_ready, suspended, OnboardingEvent, new_snapshot, initial_onboarding_state,
  ready_to_run,
}
use fuse_agent_control_plane.Product.OnboardingState.Progress.{
  run, entered_since, enters_verified, enters_paid, is_blocked, ready_needs_provider_and_payment,
  blocked_has_reason,
}

abbrev event : EventType → OnboardingEvent × String
event t = (record { type = t; actor_id = "admin"; request_id = "r"; reason = "fraud" }, "now")

abbrev set_up : List (OnboardingEvent × String)
set_up =
    event to_identity_ready
    ∷ event to_payment_ready
    ∷ event to_provider_verified
    ∷ event to_payment_ready
    ∷ event to_agent_ready
    ∷ event to_agent_ready
    ∷ event to_mandate_ready
    ∷ []

created_workspace : initial_onboarding_state "w" ≡ ok (new_snapshot "w")
unfolding initial_onboarding_state
created_workspace = refl

becomes_ready : (run (new_snapshot "w") set_up).state ≡ ready_to_run
unfolding run fuse_agent_control_plane.Product.OnboardingState.advance_onboarding
    fuse_agent_control_plane.Product.OnboardingState.next_state
    fuse_agent_control_plane.Product.OnboardingState.advance_to
becomes_ready = refl

ready_needs_provider_and_payment_example :
    (entered_since enters_verified false (run (new_snapshot "w") set_up).transitions ≡ true)
    × (entered_since enters_paid false (run (new_snapshot "w") set_up).transitions ≡ true)
ready_needs_provider_and_payment_example =
    ready_needs_provider_and_payment "w" set_up created_workspace (inl becomes_ready)

blocked_has_reason_example :
    is_some (run (new_snapshot "w") (event suspended ∷ [])).block_reason
    ≡ is_blocked (run (new_snapshot "w") (event suspended ∷ [])).state
blocked_has_reason_example = blocked_has_reason "w" (event suspended ∷ []) created_workspace
