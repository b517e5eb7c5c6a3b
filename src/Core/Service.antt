-- ===== src/Core/Service.antt =====
-- src/core/service.ts, the class FuseService, over the models of the circuit, the ledger and
-- pricing. `prepareCompletion` waits for the provider in its middle, so it is two steps, between
-- which other calls may come: `begin_completion` up to the provider's call and `finish_completion`
-- after it. The provider's answer is an argument. A method gives the new service with its result,
-- since it may throw after it has changed something. A receipt keeps its amounts in millionths,
-- which the code writes as decimal text, and a request has none of its transport hooks.
pub mod Release
pub mod Accounts
pub mod Replays
use fuse_agent_control_plane.Base.{
  ℕ, ℤ, pos, ltb_ℤ, Number, Bool, true, false, Option, none, some, List, String, Dict, lookup,
  insert, Result, ok, err, ◌>>=◌, ◌>>◌, throw_if, or_throw, if◌then◌else◌,
}
use fuse_agent_control_plane.Core.Circuit.{
  CircuitState, CircuitReason, CircuitResult, CircuitConfig, BranchCircuit, is_tripped, assert_open,
  evaluate,
}
use fuse_agent_control_plane.Core.Ledger.{
  FuseLedger, Reservation, LedgerError, reserve, reconcile, reclaim_available,
}
use fuse_agent_control_plane.Core.Pricing.{
  TokenPrice, ActualUsage, MaximumUsage, PricingError, calculate_cost_micros,
  calculate_maximum_cost_micros,
}

pub record CompletionRequest : Type 0 where
  pub request_id : String
  pub child_id : String
  pub model : String
  pub input_tokens : Number
  pub max_output_tokens : Number
  pub messages : List (String × String)

pub record ProviderResult : Type 0 where
  pub id : String
  pub content : String
  pub usage : ActualUsage
  pub provider_cost_usd : Option String
  pub provider_model : Option String

pub record Receipt : Type 0 where
  pub request_id : String
  pub child_id : String
  pub payer_wallet : String
  pub input_tokens : Number
  pub output_tokens : Number
  pub cost_micros : ℕ
  pub authorization_hash : String
  pub circuit_state : CircuitState
  pub circuit_reason : CircuitReason
  pub reclaimed_micros : Option ℤ

pub record ReleasedCompletion : Type 0 where
  pub response : ProviderResult
  pub receipt : Receipt

pub record Pending : Type 0 where
  pub request : CompletionRequest
  pub result : ProviderResult
  pub exact_cost_micros : ℕ
  pub circuit : CircuitResult
  pub released : Option ReleasedCompletion

pub record FuseService : Type 0 where
  pub ledger : FuseLedger
  pub price : TokenPrice
  pub payer_wallet : String
  pub circuits : Dict BranchCircuit
  pub pending : Dict Pending

pub data ServiceError : Type 0 where
  unknown_child pending_completion_not_found branch_tripped : ServiceError
  of_ledger : LedgerError → ServiceError
  of_pricing : PricingError → ServiceError

-- What the first half leaves to do: nothing, for the cost that is cached, or the provider's call.
pub data Begun : Type 0 where
  payment_required : ℕ → Begun
  dispatched : Begun

abbrev circuit_of : FuseService → String → Result ServiceError BranchCircuit
circuit_of s child_id = or_throw (lookup child_id s.circuits) unknown_child

abbrev check_open : BranchCircuit → Result ServiceError (Unit {0})
check_open circuit = throw_if (is_tripped circuit.state) branch_tripped

abbrev pub priced : {A : Type 0} → Result PricingError A → Result ServiceError A
priced (ok a) = ok a
priced (err e) = err (of_pricing e)

-- The guards before the ledger is touched; the result is the amount to reserve.
unfoldable pub amount_to_reserve : FuseService → CompletionRequest → Result ServiceError ℕ
amount_to_reserve s request = circuit_of s request.child_id >>= λ circuit.
    check_open circuit
    >> priced (
        calculate_maximum_cost_micros
          (record {
            input_tokens = request.input_tokens;
            max_output_tokens = request.max_output_tokens;
          })
          s.price)

abbrev pub after_reserve :
    FuseService
    → Result LedgerError (FuseLedger × Reservation)
    → FuseService × Result ServiceError Begun
after_reserve s (ok (ledger, reservation)) = (record s { ledger = ledger }, ok dispatched)
after_reserve s (err e) = (s, err (of_ledger e))

abbrev pub begin_new :
    FuseService
    → CompletionRequest
    → Result ServiceError ℕ
    → FuseService × Result ServiceError Begun
begin_new s request (ok maximum) =
    after_reserve s (reserve s.ledger request.child_id (pos maximum) request.request_id)
begin_new s request (err e) = (s, err e)

abbrev pub begin_found :
    FuseService → CompletionRequest → Option Pending → FuseService × Result ServiceError Begun
begin_found s request (some cached) = (s, ok (payment_required cached.exact_cost_micros))
begin_found s request none = begin_new s request (amount_to_reserve s request)

-- `prepareCompletion` up to the provider's call.
unfoldable pub begin_completion :
    FuseService → CompletionRequest → FuseService × Result ServiceError Begun
begin_completion s request = begin_found s request (lookup request.request_id s.pending)

-- The circuit's new state is put back under its child: the code changes the object in place.
unfoldable pub finish_evaluated :
    FuseService
    → CompletionRequest
    → ProviderResult
    → ℕ
    → BranchCircuit
    → CircuitResult
    → FuseService
finish_evaluated s request result cost circuit outcome = record s {
  circuits = insert request.child_id circuit s.circuits;
  pending =
      insert request.request_id
        (record {
          request = request;
          result = result;
          exact_cost_micros = cost;
          circuit = outcome;
          released = none;
        })
        s.pending;
}

abbrev after_evaluate :
    FuseService
    → CompletionRequest
    → ProviderResult
    → ℕ
    → Result ServiceError (BranchCircuit × CircuitResult)
    → FuseService × Result ServiceError ℕ
after_evaluate s request result cost (ok (circuit, outcome)) =
    (finish_evaluated s request result cost circuit outcome, ok cost)
after_evaluate s request result cost (err e) = (s, err e)

abbrev circuit_answer :
    FuseService → String → ℕ → Result ServiceError (BranchCircuit × CircuitResult)
circuit_answer s child_id cost = circuit_of s child_id >>= λ circuit.
    elim (evaluate circuit (pos cost)) [ ok r ↦ ok r | err e ↦ err branch_tripped ]

abbrev finish_costed :
    FuseService
    → CompletionRequest
    → ProviderResult
    → Result ServiceError ℕ
    → FuseService × Result ServiceError ℕ
finish_costed s request result (ok cost) =
    after_evaluate s request result cost (circuit_answer s request.child_id cost)
finish_costed s request result (err e) = (s, err e)

-- `prepareCompletion` after the provider has answered; the result is the exact cost.
unfoldable pub finish_completion :
    FuseService → CompletionRequest → ProviderResult → FuseService × Result ServiceError ℕ
unfolding finish_evaluated
finish_completion s request result =
    finish_costed s request result (priced (calculate_cost_micros result.usage s.price))
