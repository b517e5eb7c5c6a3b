-- ===== src/Tests/Lifecycles.antt =====
-- src/domain/lifecycles.ts on a request that is paid for and a mandate that closes.
use fuse_agent_control_plane.Base.{
  ℤ, pos, ◌≤◌, true, Option, some, none, List, [], ◌∷◌, length, String, is_blank, ok, ◌≡◌, refl,
  if◌then◌else◌, ◌==◌,
}
use fuse_agent_control_plane.Domain.Lifecycles.{
  TransitionContext, Lifecycle, RequestState, received, admitted, reserved, provider_pending,
  response_held, payment_pending, released, request_transitions, RequestState-discrete,
  MandateState, active, closing, closed, mandate_transitions, MandateState-discrete,
  create_request_lifecycle,
}
use fuse_agent_control_plane.Domain.Lifecycles.Routes.{visits}
use fuse_agent_control_plane.Domain.Lifecycles.History.{IsChain, run, history-IsChain}
use fuse_agent_control_plane.Domain.Lifecycles.Guarantees.{
  is_released, request_bounded, release_needs_payment,
}

abbrev parse_example : String → Option ℤ
parse_example s = if s == "never" then none else some (pos 0)

abbrev context : TransitionContext
context = record { actor_id = "agent"; causation_id = "cause"; occurred_at = "now" }

abbrev broken_context : TransitionContext
broken_context = record context { occurred_at = "never" }

abbrev request : Lifecycle RequestState
request = record {
  kind = "request";
  entity_id = "r1";
  current = received;
  transitions = request_transitions;
  events = [];
}

created_request : create_request_lifecycle "r1" ≡ ok request
unfolding create_request_lifecycle is_blank
created_request = refl

abbrev paid_request : List (RequestState × TransitionContext)
paid_request =
    (admitted, context)
    ∷ (released, context)
    ∷ (reserved, broken_context)
    ∷ (reserved, context)
    ∷ (provider_pending, context)
    ∷ (response_held, context)
    ∷ (payment_pending, context)
    ∷ (released, context)
    ∷ []

reaches_released :
    is_released (run RequestState-discrete parse_example request paid_request).current ≡ true
unfolding run is_blank request_transitions
    fuse_agent_control_plane.Domain.Lifecycles.History.attempt
    fuse_agent_control_plane.Domain.Lifecycles.transition mathlib.Core.Bool.decide
    RequestState-discrete
reaches_released = refl

history-IsChain_example :
    IsChain RequestState-discrete parse_example request_transitions 0 received
      (run RequestState-discrete parse_example request paid_request).events
      (run RequestState-discrete parse_example request paid_request).current
history-IsChain_example =
    history-IsChain RequestState-discrete parse_example request paid_request refl

request_bounded_example :
    length (run RequestState-discrete parse_example request paid_request).events ≤ 7
request_bounded_example = request_bounded parse_example "r1" paid_request created_request

release_needs_payment_example :
    (visits RequestState-discrete parse_example response_held
        (run RequestState-discrete parse_example request paid_request).events
      ≡ true)
    × (visits RequestState-discrete parse_example payment_pending
          (run RequestState-discrete parse_example request paid_request).events
        ≡ true)
release_needs_payment_example =
    release_needs_payment parse_example "r1" paid_request created_request reaches_released
