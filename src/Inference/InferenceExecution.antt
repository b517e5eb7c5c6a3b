-- ===== src/Inference/InferenceExecution.antt =====
-- src/inference/inferenceExecution.ts, the class InferenceExecutionService, over the models of the
-- policy store and of pricing. `execute` waits for the provider in its middle, so it is two steps,
-- between which other calls of the store may come: `begin_execution` up to the provider's call and
-- `settle_execution` after it. The provider's outcome, the readings of the clock and the decision's
-- id are arguments. A step gives the new tables with its answer, since it may throw after it has
-- changed them. The path of the reliability protocol is left out: a request has no such context.
pub mod Settlement
use fuse_agent_control_plane.Core.Pricing.{
  PricingError, TokenPrice, calculate_cost_micros, calculate_maximum_cost_micros,
}
use fuse_agent_control_plane.Core.Pricing.Usd.{usd_to_micros}
use fuse_agent_control_plane.Persistence.PolicyStore.{
  StoreError, StoredPolicyDecision, Store, Platform,
}
use fuse_agent_control_plane.Persistence.PolicyStore.Admission.{
  AdmissionResult, already_completed, AdmissionInput,
}
use fuse_agent_control_plane.Persistence.PolicyStore.Replay.{admit}
use fuse_agent_control_plane.Persistence.PolicyStore.Executions.{
  CompletionPersistenceResult, has_completed, is_on_hold, complete_inference, hold_inference,
  fail_inference,
}
use fuse_agent_control_plane.Base.{
  ℕ, String, Bool, true, false, ◌&&◌, not, Option, none, some, List, ◌==◌, is_some, pos, Number,
  Result, ok, err, throw_if, ◌>>◌,
}
use fuse_agent_control_plane.Core.Service.{ProviderResult}

pub record ControlledInferenceInput : Type 0 where
  pub request_id : String
  pub organization_id : String
  pub mandate_id : String
  pub agent_id : String
  pub agent_capabilities : List String
  pub branch_id : Option String
  pub workload_class : Option String
  pub requested_model : Option String
  pub input_tokens : Number
  pub max_output_tokens : Number
  pub messages : List (String × String)

pub record ProviderExecutionBinding : Type 0 where
  pub provider_name : String
  pub model : String
  pub price : TokenPrice
  pub require_provider_cost : Bool
  pub require_provider_model_match : Bool

-- What comes of the provider's call: an answer, or an error of which it is certain, by
-- `primitiveEntered === false`, or not, that nothing was sent.
pub data ProviderOutcome : Type 0 where
  answers : ProviderResult → ProviderOutcome
  not_dispatched ambiguous : ProviderOutcome

pub data ExecutionError : Type 0 where
  requested_model_mismatch provider_model_mismatch provider_cost_missing : ExecutionError
  actual_cost_exceeds_reservation provider_error : ExecutionError
  of_store : StoreError → ExecutionError
  of_price : PricingError → ExecutionError

-- The machine: the platform of the store, and the SHA-256 hash of the JSON text of a request with
-- its binding.
pub record Runtime : Type 0 where
  pub platform : Platform
  pub request_fingerprint : ControlledInferenceInput → ProviderExecutionBinding → String

abbrev pub in_pricing : {A : Type 0} → Result PricingError A → Result ExecutionError A
in_pricing (ok a) = ok a
in_pricing (err e) = err (of_price e)

abbrev is_other_model : Option String → String → Bool
is_other_model none model = false
is_other_model (some requested) model = not (requested == model)

unfoldable pub admission_input :
    Runtime → ProviderExecutionBinding → ControlledInferenceInput → ℕ → String → AdmissionInput
admission_input rt binding input estimate now = record {
  request_id = input.request_id;
  organization_id = input.organization_id;
  mandate_id = input.mandate_id;
  agent_id = input.agent_id;
  agent_capabilities = input.agent_capabilities;
  provider = binding.provider_name;
  model = binding.model;
  branch_id = input.branch_id;
  workload_class = input.workload_class;
  estimated_cost_atomic = pos estimate;
  input_tokens = input.input_tokens;
  max_output_tokens = input.max_output_tokens;
  request_fingerprint = rt.request_fingerprint input binding;
  decided_at = now;
}

-- The estimate of a request, whose model is the binding's.
unfoldable pub estimate_cost :
    ProviderExecutionBinding → ControlledInferenceInput → Result ExecutionError ℕ
estimate_cost binding input =
    throw_if (is_other_model input.requested_model binding.model) requested_model_mismatch
    >> in_pricing (
        calculate_maximum_cost_micros
          (record {
            input_tokens = input.input_tokens;
            max_output_tokens = input.max_output_tokens;
          })
          binding.price)

abbrev pub admission_outcome :
    {A : Type 0} → Store → Result StoreError (Store × A) → Store × Result ExecutionError A
admission_outcome s (ok (after, answer)) = (after, ok answer)
admission_outcome s (err e) = (s, err (of_store e))

unfoldable pub begin_estimated :
    Runtime
    → Bool
    → Store
    → ProviderExecutionBinding
    → ControlledInferenceInput
    → String
    → String
    → Result ExecutionError ℕ
    → Store × Result ExecutionError AdmissionResult
unfolding admission_input
begin_estimated rt preview_only s binding input id now (err e) = (s, err e)
begin_estimated rt preview_only s binding input id now (ok estimate) =
    admission_outcome s
      (admit rt.platform preview_only s (admission_input rt binding input estimate now) id)

unfoldable pub begin_execution :
    Runtime
    → Store
    → ProviderExecutionBinding
    → ControlledInferenceInput
    → String
    → String
    → Store × Result ExecutionError AdmissionResult
unfolding begin_estimated estimate_cost
begin_execution rt s binding input id now =
    begin_estimated rt false s binding input id now (estimate_cost binding input)

unfoldable pub preview :
    Runtime
    → Store
    → ProviderExecutionBinding
    → ControlledInferenceInput
    → String
    → String
    → Store × Result ExecutionError AdmissionResult
unfolding begin_estimated estimate_cost
preview rt s binding input id now =
    begin_estimated rt true s binding input id now (estimate_cost binding input)

abbrev is_model : Option String → String → Bool
is_model none model = false
is_model (some named_model) model = named_model == model

abbrev cost_of : ProviderExecutionBinding → ProviderResult → Option String → Result PricingError ℕ
cost_of binding response none = calculate_cost_micros response.usage binding.price
cost_of binding response (some reported) = usd_to_micros reported

-- The checks of an answer; the result is its actual cost.
unfoldable pub actual_cost : ProviderExecutionBinding → ProviderResult → Result ExecutionError ℕ
actual_cost binding response =
    throw_if
      (binding.require_provider_model_match && not (is_model response.provider_model binding.model))
      provider_model_mismatch
    >> throw_if (binding.require_provider_cost && not (is_some response.provider_cost_usd))
        provider_cost_missing
    >> in_pricing (cost_of binding response response.provider_cost_usd)

abbrev pub reason_of : ExecutionError → String
reason_of provider_model_mismatch = "PROVIDER_MODEL_MISMATCH"
reason_of provider_cost_missing = "PROVIDER_COST_MISSING"
reason_of _ = "POST_PROVIDER_RECONCILIATION_FAILED"

-- The execution is held and the error thrown again, unless holding it throws itself.
abbrev pub held_outcome :
    {A : Type 0}
    → Store
    → ExecutionError
    → Result StoreError Store
    → Store × Result ExecutionError A
held_outcome s e (ok after) = (after, err e)
held_outcome s e (err failure) = (s, err (of_store failure))

unfoldable pub hold_after_error :
    {A : Type 0}
    → Store
    → ControlledInferenceInput
    → String
    → Option ProviderResult
    → String
    → ExecutionError
    → Store × Result ExecutionError A
unfolding hold_inference
hold_after_error s input reason response now e = held_outcome s e (
    hold_inference s (record {
      request_id = input.request_id;
      organization_id = input.organization_id;
      reason_code = reason;
      response = response;
      held_at = now;
    }))

unfoldable pub completion_outcome :
    Store
    → ControlledInferenceInput
    → StoredPolicyDecision
    → ProviderResult
    → String
    → Result StoreError (Store × CompletionPersistenceResult)
    → Store × Result ExecutionError AdmissionResult
unfolding hold_after_error
completion_outcome s input d response now (ok (after, has_completed reservation actual answer)) =
    (after, ok (already_completed d reservation actual answer))
completion_outcome s input d response now (ok (after, is_on_hold reservation actual answer)) =
    (after, err actual_cost_exceeds_reservation)
completion_outcome s input d response now (err e) =
    hold_after_error s input (reason_of (of_store e)) (some response) now (of_store e)

unfoldable pub complete_with :
    Store
    → ControlledInferenceInput
    → StoredPolicyDecision
    → ProviderResult
    → String
    → Result ExecutionError ℕ
    → Store × Result ExecutionError AdmissionResult
unfolding completion_outcome complete_inference
complete_with s input d response now (err e) =
    hold_after_error s input (reason_of e) (some response) now e
complete_with s input d response now (ok cost) = completion_outcome s input d response now (
    complete_inference s (record {
      request_id = input.request_id;
      organization_id = input.organization_id;
      actual_cost_atomic = pos cost;
      response = response;
      completed_at = now;
    }))

-- `execute` after the provider's call, for the request that was admitted with the decision.
unfoldable pub settle_execution :
    Store
    → ProviderExecutionBinding
    → ControlledInferenceInput
    → StoredPolicyDecision
    → ProviderOutcome
    → String
    → Store × Result ExecutionError AdmissionResult
unfolding complete_with actual_cost fail_inference
settle_execution s binding input d (answers response) now =
    complete_with s input d response now (actual_cost binding response)
settle_execution s binding input d not_dispatched now = (
  fail_inference s input.organization_id input.request_id "PROVIDER_NOT_DISPATCHED" now,
  err provider_error,
)
settle_execution s binding input d ambiguous now =
    hold_after_error s input "PROVIDER_OUTCOME_AMBIGUOUS" none now provider_error
