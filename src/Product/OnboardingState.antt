-- ===== src/Product/OnboardingState.antt =====
-- src/product/onboardingState.ts. The clock's reading is an argument of `advance_onboarding`.
pub mod Progress
use fuse_agent_control_plane.Base.{
  Bool, true, false, Option, none, some, List, [], ◌∷◌, ◌++◌, String, trim, ◌==◌, Result, ok, err,
  ◌>>=◌, ◌>>◌, throw_if,
}

pub data OnboardingState : Type 0 where
  created identity_ready provider_pending provider_verified payment_pending : OnboardingState
  payment_ready agent_pending mandate_pending ready_to_run : OnboardingState
  first_run_completed blocked : OnboardingState

pub data EventType : Type 0 where
  to_identity_ready to_provider_pending to_provider_verified to_payment_pending : EventType
  to_payment_ready to_agent_pending to_agent_ready to_mandate_pending to_mandate_ready : EventType
  to_first_run_completed suspended unblocked : EventType

-- Only a suspension has a reason; the field is not read of other events.
pub record OnboardingEvent : Type 0 where
  pub type : EventType
  pub actor_id : String
  pub request_id : String
  pub reason : String

pub record OnboardingTransition : Type 0 where
  pub source : OnboardingState
  pub target : OnboardingState
  pub event : EventType
  pub actor_id : String
  pub request_id : String
  pub occurred_at : String
  pub reason : Option String

pub record OnboardingSnapshot : Type 0 where
  pub workspace_id : String
  pub state : OnboardingState
  pub block_reason : Option String
  pub transitions : List OnboardingTransition

pub data OnboardingError : Type 0 where
  workspace_required workspace_blocked invalid_transition : OnboardingError

-- The table `nextStates`.
unfoldable pub next_state : OnboardingState → EventType → Option OnboardingState
next_state created to_identity_ready = some identity_ready
next_state created suspended = some blocked
next_state identity_ready to_provider_pending = some provider_pending
next_state identity_ready to_provider_verified = some provider_verified
next_state identity_ready suspended = some blocked
next_state provider_pending to_provider_verified = some provider_verified
next_state provider_pending suspended = some blocked
next_state provider_verified to_payment_pending = some payment_pending
next_state provider_verified to_payment_ready = some payment_ready
next_state provider_verified suspended = some blocked
next_state payment_pending to_payment_ready = some payment_ready
next_state payment_pending suspended = some blocked
next_state payment_ready to_agent_pending = some agent_pending
next_state payment_ready to_agent_ready = some agent_pending
next_state payment_ready suspended = some blocked
next_state agent_pending to_agent_ready = some mandate_pending
next_state agent_pending to_mandate_pending = some mandate_pending
next_state agent_pending to_mandate_ready = some ready_to_run
next_state agent_pending suspended = some blocked
next_state mandate_pending to_mandate_ready = some ready_to_run
next_state mandate_pending suspended = some blocked
next_state ready_to_run to_first_run_completed = some first_run_completed
next_state ready_to_run suspended = some blocked
next_state first_run_completed suspended = some blocked
next_state blocked unblocked = some created
next_state _ _ = none

abbrev pub new_snapshot : String → OnboardingSnapshot
new_snapshot workspace_id = record {
  workspace_id = trim workspace_id;
  state = created;
  block_reason = none;
  transitions = [];
}

unfoldable pub initial_onboarding_state : String → Result OnboardingError OnboardingSnapshot
unfolding trim
initial_onboarding_state workspace_id =
    throw_if (trim workspace_id == "") workspace_required >> ok (new_snapshot workspace_id)

-- The reason of a suspension.
abbrev pub reason_of : EventType → String → Option String
reason_of suspended reason = some reason
reason_of _ reason = none

-- What is thrown for a state and an event with no next state.
abbrev pub refusal : OnboardingState → EventType → OnboardingError
refusal blocked unblocked = invalid_transition
refusal blocked _ = workspace_blocked
refusal _ _ = invalid_transition

unfoldable pub advance_to :
    OnboardingState → OnboardingSnapshot → OnboardingEvent → String → OnboardingSnapshot
advance_to target s e now = record {
  workspace_id = s.workspace_id;
  state = target;
  block_reason = reason_of e.type e.reason;
  transitions =
      s.transitions
      ++ record {
        source = s.state;
        target = target;
        event = e.type;
        actor_id = e.actor_id;
        request_id = e.request_id;
        occurred_at = now;
        reason = reason_of e.type e.reason;
      }
        ∷ [];
}

unfoldable pub advance_onboarding :
    OnboardingSnapshot → OnboardingEvent → String → Result OnboardingError OnboardingSnapshot
advance_onboarding s e now = elim (next_state s.state e.type) [
  | none ↦ err (refusal s.state e.type)
  | some target ↦ ok (advance_to target s e now)
]
