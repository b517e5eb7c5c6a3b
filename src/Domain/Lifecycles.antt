-- ===== src/Domain/Lifecycles.antt =====
-- src/domain/lifecycles.ts: a lifecycle is a current state, the table of its transitions and the
-- list of the events so far. `Date.parse` is a parameter, `none` where it gives NaN.
pub mod History
pub mod Routes
pub mod Guarantees
use fuse_agent_control_plane.Base.{
  ℕ, suc, ◌+◌, ℤ, Bool, true, false, ◌||◌, not, is_some, decide, Option, none, some, List, [], ◌∷◌,
  ◌++◌, length, any, String, is_blank, Result, ok, err, ◌>>=◌, ◌>>◌, throw_if,
}

pub record TransitionContext : Type 0 where
  pub actor_id : String
  pub causation_id : String
  pub occurred_at : String

pub record LifecycleTransition (State : Type 0) : Type 0 where
  pub context : TransitionContext
  pub entity_id : String
  pub kind : String
  pub source : State
  pub target : State
  pub sequence : ℕ

-- The message of `transition_invalid` names the kind and the two states.
pub data LifecycleError (State : Type 0) : Type 0 where
  entity_id_required actor_required causation_required occurred_at_invalid : LifecycleError State
  transition_invalid : String → State → State → LifecycleError State

pub record Lifecycle (State : Type 0) : Type 0 where
  pub kind : String
  pub entity_id : String
  pub current : State
  pub transitions : State → List State
  pub events : List (LifecycleTransition State)

-- `states.includes(to)`; states are compared by the decision `d`.
abbrev pub listed : {State : Type 0} → Discrete State → State → List State → Bool
listed d to states = any (λ s. decide (d s to)) states

module _ {State : Type 0} where
  unfoldable pub new_lifecycle :
      String
      → String
      → State
      → (State → List State)
      → Result (LifecycleError State) (Lifecycle State)
  new_lifecycle kind entity_id initial transitions =
      throw_if (is_blank entity_id) entity_id_required
      >> ok (record {
        kind = kind;
        entity_id = entity_id;
        current = initial;
        transitions = transitions;
        events = [];
      })

  module _ (d : Discrete State) (date_parse : String → Option ℤ) where
    unfoldable pub transition :
        Lifecycle State
        → State
        → TransitionContext
        → Result (LifecycleError State) (Lifecycle State)
    transition l to context =
        throw_if (is_blank context.actor_id) actor_required
        >> throw_if (is_blank context.causation_id) causation_required
        >> throw_if (not (is_some (date_parse context.occurred_at))) occurred_at_invalid
        >> throw_if (not (listed d to (l.transitions l.current)))
            (transition_invalid l.kind l.current to)
        >> ok (record l {
          events =
              l.events
              ++ record {
                context = context;
                entity_id = l.entity_id;
                kind = l.kind;
                source = l.current;
                target = to;
                sequence = length l.events + 1;
              }
                ∷ [];
          current = to;
        })

pub data RequestState : Type 0 where
  received admitted reserved provider_pending response_held payment_pending : RequestState
  released completed provider_failed reservation_expired payment_rejected : RequestState
  response_expired manual_review compensation_required : RequestState

unfoldable pub request_transitions : RequestState → List RequestState
request_transitions received = admitted ∷ manual_review ∷ []
request_transitions admitted = reserved ∷ manual_review ∷ []
request_transitions reserved = provider_pending ∷ reservation_expired ∷ manual_review ∷ []
request_transitions provider_pending = response_held ∷ provider_failed ∷ compensation_required ∷ []
request_transitions response_held = payment_pending ∷ response_expired ∷ manual_review ∷ []
request_transitions payment_pending =
    released ∷ payment_rejected ∷ compensation_required ∷ manual_review ∷ []
request_transitions released = completed ∷ compensation_required ∷ []
request_transitions completed = []
request_transitions provider_failed = []
request_transitions reservation_expired = []
request_transitions payment_rejected = []
request_transitions response_expired = []
request_transitions manual_review = []
request_transitions compensation_required = []

unfoldable pub RequestState-discrete : Discrete RequestState
RequestState-discrete = hlevel

pub data PaymentState : Type 0 where
  created signed submitted accepted pending_batch finalized rejected expired : PaymentState
  failed reversed disputed unknown : PaymentState

unfoldable pub payment_transitions : PaymentState → List PaymentState
payment_transitions created = signed ∷ rejected ∷ expired ∷ []
payment_transitions signed = submitted ∷ rejected ∷ expired ∷ []
payment_transitions submitted = accepted ∷ rejected ∷ failed ∷ expired ∷ unknown ∷ []
payment_transitions accepted = pending_batch ∷ finalized ∷ failed ∷ reversed ∷ unknown ∷ []
payment_transitions pending_batch = finalized ∷ failed ∷ reversed ∷ disputed ∷ unknown ∷ []
payment_transitions finalized = reversed ∷ disputed ∷ []
payment_transitions rejected = []
payment_transitions expired = []
payment_transitions failed = []
payment_transitions reversed = disputed ∷ []
payment_transitions disputed = []
payment_transitions unknown =
    accepted ∷ pending_batch ∷ finalized ∷ failed ∷ rejected ∷ expired ∷ reversed ∷ disputed ∷ []

unfoldable pub PaymentState-discrete : Discrete PaymentState
PaymentState-discrete = hlevel

pub data MandateState : Type 0 where
  draft active paused closing closed exhausted tripped : MandateState
  lapsed reconciliation_hold : MandateState

unfoldable pub MandateState-discrete : Discrete MandateState
MandateState-discrete = hlevel

-- `lapsed` is the code's `expired`.
unfoldable pub mandate_transitions : MandateState → List MandateState
mandate_transitions draft = active ∷ lapsed ∷ []
mandate_transitions active =
    paused ∷ closing ∷ exhausted ∷ tripped ∷ lapsed ∷ reconciliation_hold ∷ []
mandate_transitions paused = active ∷ closing ∷ lapsed ∷ reconciliation_hold ∷ []
mandate_transitions closing = closed ∷ reconciliation_hold ∷ []
mandate_transitions closed = []
mandate_transitions exhausted = closing ∷ reconciliation_hold ∷ []
mandate_transitions tripped = active ∷ closing ∷ reconciliation_hold ∷ []
mandate_transitions lapsed = closing ∷ []
mandate_transitions reconciliation_hold = closing ∷ []

unfoldable pub create_request_lifecycle :
    String → Result (LifecycleError RequestState) (Lifecycle RequestState)
unfolding new_lifecycle
create_request_lifecycle id = new_lifecycle "request" id received request_transitions

unfoldable pub create_payment_lifecycle :
    String → Result (LifecycleError PaymentState) (Lifecycle PaymentState)
unfolding new_lifecycle
create_payment_lifecycle id = new_lifecycle "payment" id created payment_transitions

unfoldable pub create_mandate_lifecycle :
    String → Result (LifecycleError MandateState) (Lifecycle MandateState)
unfolding new_lifecycle
create_mandate_lifecycle id = new_lifecycle "mandate" id draft mandate_transitions
