-- ===== src/Tests/Calls.antt =====
-- Sequences of calls of src/persistence/policyStore.ts from new tables, and one request of
-- src/inference/inferenceExecution.ts.
use fuse_agent_control_plane.Inference.InferenceExecution.{
  answers, actual_cost_exceeds_reservation, ControlledInferenceInput, ProviderExecutionBinding,
  Runtime, admission_input, estimate_cost, admission_outcome, begin_estimated, begin_execution,
  settle_execution,
}
use fuse_agent_control_plane.Core.Pricing.Usd.{usd_to_micros}
use fuse_agent_control_plane.Persistence.PolicyStore.{
  failed, ControlMandate, StoredPolicyDecision, Store,
}
use fuse_agent_control_plane.Persistence.PolicyStore.Tables.{is_mandate, is_execution}
use fuse_agent_control_plane.Persistence.PolicyStore.Counters.{charge, mandate_spent}
use fuse_agent_control_plane.Persistence.PolicyStore.Admission.{to_execute}
use fuse_agent_control_plane.Persistence.PolicyStore.Replay.{admit_inference}
use fuse_agent_control_plane.Persistence.PolicyStore.Executions.{HoldInput}
use fuse_agent_control_plane.Persistence.PolicyStore.Reconciliation.{has_open_cases}
use fuse_agent_control_plane.Persistence.PolicyStore.Listing.{
  ReconciliationCase, list_reconciliation_cases, list_reconciliation_cases-has_open_cases,
}
use fuse_agent_control_plane.Persistence.PolicyStore.Budget.{mandate_covered, maximum_of}
use fuse_agent_control_plane.Persistence.PolicyStore.Runs.{
  Call, publishes, creates_mandate, assigns, transitions, admits, holds_execution, run,
}
use fuse_agent_control_plane.Persistence.PolicyStore.Lifetime.{new_store, run-mandate_covered}
use fuse_agent_control_plane.Persistence.PolicyStore.Cases.{run-has_open_cases}
use fuse_agent_control_plane.Persistence.PolicyStore.Gate.{is_shut}
use fuse_agent_control_plane.Persistence.PolicyStore.Closed.{run-KeepsClosed}
use fuse_agent_control_plane.Persistence.PolicyStore.Settled.{run-KeepsSettled}
use fuse_agent_control_plane.Inference.InferenceExecution.Settlement.{
  settled_as, IsSettled, begin_execution-settles,
}
use fuse_agent_control_plane.Tests.Store.{
  platform, policy, context, creation, mandate, fingerprint, call, active_store, decision,
  executing_row, admitted_after, admitted_call,
}
use fuse_agent_control_plane.Base.{
  any, ◌==◌, ◌+ℤ◌, is_blank, ◌≡◌, refl, ap, ◌∙◌, ◌≢◌, Bool, true, false, decide, none, some, List,
  [], ◌∷◌, ℤ, pos, int, ◌≤ℤ◌, find, ok, err,
}
use fuse_agent_control_plane.Domain.Policy.Evaluate.{
  workload_reasons, mandate_reasons, limit_reasons, decide_outcome, all_reasons, evaluate_policy,
}
use fuse_agent_control_plane.Domain.Policy.Validate.{validate_policy, validate_evaluation}
use fuse_agent_control_plane.Domain.Lifecycles.{
  active, closed, reconciliation_hold, MandateState-discrete,
}
use fuse_agent_control_plane.Core.Service.{ProviderResult}
use fuse_agent_control_plane.Signer.AuthorizationStore.{is_fingerprint}

abbrev setup : List Call
setup =
    publishes policy context
    ∷ creates_mandate creation
    ∷ assigns "o" "m" "agent" context
    ∷ transitions "o" "m" active context
    ∷ admits call "d1"
    ∷ []

abbrev after_setup : Store
after_setup = run platform (new_store ("o" ∷ []) (("o", "agent") ∷ [])) setup

after_setup_spent : mandate_spent after_setup.executions "o" "m" ≡ pos 1050
unfolding mandate_spent run fuse_agent_control_plane.Base.is_blank
    fuse_agent_control_plane.Signer.AuthorizationStore.is_fingerprint
    fuse_agent_control_plane.Domain.Policy.Validate.validate_policy mathlib.Core.Bool.decide
    fuse_agent_control_plane.Domain.Lifecycles.MandateState-discrete
    fuse_agent_control_plane.Domain.Policy.Evaluate.evaluate_policy
    fuse_agent_control_plane.Domain.Policy.Validate.validate_evaluation
    fuse_agent_control_plane.Base.◌+ℤ◌
    fuse_agent_control_plane.Persistence.PolicyStore.Counters.charge
    fuse_agent_control_plane.Domain.Policy.Evaluate.decide_outcome
    fuse_agent_control_plane.Domain.Policy.Evaluate.all_reasons
    fuse_agent_control_plane.Domain.Policy.Evaluate.mandate_reasons
    fuse_agent_control_plane.Domain.Policy.Evaluate.limit_reasons
    fuse_agent_control_plane.Domain.Policy.Evaluate.workload_reasons
after_setup_spent = refl

run-mandate_covered_example :
    mandate_covered after_setup.executions "o" "m"
    ≤ℤ maximum_of (find (is_mandate "o" "m") after_setup.mandates)
run-mandate_covered_example =
    run-mandate_covered platform ("o" ∷ []) (("o", "agent") ∷ []) setup "o" "m"
      (tt, (tt, (tt, (tt, (tt, tt)))))

abbrev hold_call : HoldInput
hold_call = record {
  request_id = "r1";
  organization_id = "o";
  reason_code = "PROVIDER_OUTCOME_AMBIGUOUS";
  response = none;
  held_at = "2026-01-03";
}

abbrev held_calls : List Call
held_calls =
    publishes policy context
    ∷ creates_mandate creation
    ∷ assigns "o" "m" "agent" context
    ∷ transitions "o" "m" active context
    ∷ admits call "d1"
    ∷ holds_execution hold_call
    ∷ []

abbrev after_held : Store
after_held = run platform (new_store ("o" ∷ []) (("o", "agent") ∷ [])) held_calls

abbrev held_mandate : ControlMandate
held_mandate = record mandate { state = reconciliation_hold }

held_found : find (is_mandate "o" "m") after_held.mandates ≡ some held_mandate
unfolding run fuse_agent_control_plane.Base.is_blank
    fuse_agent_control_plane.Signer.AuthorizationStore.is_fingerprint
    fuse_agent_control_plane.Domain.Policy.Validate.validate_policy mathlib.Core.Bool.decide
    fuse_agent_control_plane.Domain.Lifecycles.MandateState-discrete
    fuse_agent_control_plane.Domain.Policy.Evaluate.evaluate_policy
    fuse_agent_control_plane.Domain.Policy.Validate.validate_evaluation
    fuse_agent_control_plane.Domain.Policy.Evaluate.decide_outcome
    fuse_agent_control_plane.Domain.Policy.Evaluate.all_reasons
    fuse_agent_control_plane.Domain.Policy.Evaluate.mandate_reasons
    fuse_agent_control_plane.Domain.Policy.Evaluate.limit_reasons fuse_agent_control_plane.Base.◌+ℤ◌
    fuse_agent_control_plane.Domain.Policy.Evaluate.workload_reasons
held_found = refl

held_open : has_open_cases after_held "o" "m" ≡ true
unfolding has_open_cases run fuse_agent_control_plane.Base.is_blank
    fuse_agent_control_plane.Signer.AuthorizationStore.is_fingerprint
    fuse_agent_control_plane.Domain.Policy.Validate.validate_policy mathlib.Core.Bool.decide
    fuse_agent_control_plane.Domain.Lifecycles.MandateState-discrete
    fuse_agent_control_plane.Domain.Policy.Evaluate.evaluate_policy
    fuse_agent_control_plane.Domain.Policy.Validate.validate_evaluation
    fuse_agent_control_plane.Domain.Policy.Evaluate.decide_outcome
    fuse_agent_control_plane.Domain.Policy.Evaluate.all_reasons
    fuse_agent_control_plane.Domain.Policy.Evaluate.mandate_reasons
    fuse_agent_control_plane.Domain.Policy.Evaluate.limit_reasons fuse_agent_control_plane.Base.◌+ℤ◌
    fuse_agent_control_plane.Domain.Policy.Evaluate.workload_reasons
held_open = refl

abbrev open_case : ReconciliationCase
open_case = record {
  request_id = "r1";
  mandate_id = "m";
  agent_id = "agent";
  provider = call.provider;
  model = call.model;
  reason_code = "PROVIDER_OUTCOME_AMBIGUOUS";
  reserved_cost_atomic = pos 1050;
  reported_cost_atomic = none;
  has_provider_response = false;
  held_at = "2026-01-03";
}

held_listed :
    list_reconciliation_cases platform (λ s t. s == t) after_held "o" ≡ ok (open_case ∷ [])
unfolding list_reconciliation_cases run fuse_agent_control_plane.Base.is_blank
    fuse_agent_control_plane.Signer.AuthorizationStore.is_fingerprint
    fuse_agent_control_plane.Domain.Policy.Validate.validate_policy mathlib.Core.Bool.decide
    fuse_agent_control_plane.Domain.Lifecycles.MandateState-discrete
    fuse_agent_control_plane.Domain.Policy.Evaluate.evaluate_policy
    fuse_agent_control_plane.Domain.Policy.Validate.validate_evaluation
    fuse_agent_control_plane.Domain.Policy.Evaluate.decide_outcome
    fuse_agent_control_plane.Domain.Policy.Evaluate.all_reasons
    fuse_agent_control_plane.Domain.Policy.Evaluate.mandate_reasons
    fuse_agent_control_plane.Domain.Policy.Evaluate.limit_reasons fuse_agent_control_plane.Base.◌+ℤ◌
    fuse_agent_control_plane.Domain.Policy.Evaluate.workload_reasons
held_listed = refl

list_reconciliation_cases-has_open_cases_example :
    any (λ (c : ReconciliationCase). c.mandate_id == "m") (open_case ∷ [])
    ≡ has_open_cases after_held "o" "m"
list_reconciliation_cases-has_open_cases_example =
    list_reconciliation_cases-has_open_cases platform (λ s t. s == t) after_held "o" "m" held_listed

run-has_open_cases_example :
    (is_shut reconciliation_hold ≡ true)
    × ((after : Store) (d : StoredPolicyDecision) (reservation : ℤ)
        → admit_inference platform after_held call "d2" ≢ ok (after, to_execute d reservation))
run-has_open_cases_example =
    run-has_open_cases platform ("o" ∷ []) (("o", "agent") ∷ []) held_calls call "d2" held_found
      held_open

abbrev failed_store : Store
failed_store = record admitted_after {
  executions =
      record executing_row { status = failed; failure_code = some "PROVIDER_NOT_DISPATCHED" } ∷ [];
}

run-KeepsSettled_example :
    find
      (is_execution "o" "r1")
      (run platform failed_store (holds_execution hold_call ∷ admits call "d2" ∷ [])).executions
    ≡ some (record executing_row { status = failed; failure_code = some "PROVIDER_NOT_DISPATCHED" })
run-KeepsSettled_example =
    run-KeepsSettled platform failed_store (holds_execution hold_call ∷ admits call "d2" ∷ []) "o"
      "r1" refl refl

abbrev runtime : Runtime
runtime = record { platform = platform; request_fingerprint = λ input binding. fingerprint }

abbrev binding : ProviderExecutionBinding
binding = record {
  provider_name = "openai";
  model = "gpt";
  price = record { input_usd_per_million = "3.00"; output_usd_per_million = "15.00" };
  require_provider_cost = true;
  require_provider_model_match = false;
}

abbrev request : ControlledInferenceInput
request = record {
  request_id = "r1";
  organization_id = "o";
  mandate_id = "m";
  agent_id = "agent";
  agent_capabilities = "inference:invoke" ∷ [];
  branch_id = none;
  workload_class = none;
  requested_model = none;
  input_tokens = int (pos 100);
  max_output_tokens = int (pos 50);
  messages = [];
}

estimated : estimate_cost binding request ≡ ok 1050
unfolding estimate_cost fuse_agent_control_plane.Core.Pricing.calculate_maximum_cost_micros
    fuse_agent_control_plane.Core.Pricing.calculate_cost_micros
    fuse_agent_control_plane.Core.Pricing.token_cost_micros
    fuse_agent_control_plane.Core.Pricing.decimal_to_scaled
    fuse_agent_control_plane.Core.Pricing.ceil_div
estimated = refl

begun_request :
    begin_execution runtime active_store binding request "d1" "2026-01-02"
    ≡ (admitted_after, ok (to_execute decision (pos 1050)))
unfolding begin_execution begin_estimated admission_input admit_inference
begun_request =
    ap (begin_estimated runtime false active_store binding request "d1" "2026-01-02") estimated
    ∙ ap (admission_outcome active_store) admitted_call

abbrev answer : ProviderResult
answer = record {
  id = "gen-1";
  content = "done";
  usage = record { input_tokens = int (pos 100); output_tokens = int (pos 20) };
  provider_cost_usd = some "1.2e-3";
  provider_model = none;
}

reported_cost : usd_to_micros "1.2e-3" ≡ ok 1200
unfolding usd_to_micros
reported_cost = refl

-- The cost that the provider reports is above the reservation.
settled_request :
    (settle_execution admitted_after binding request decision (answers answer) "2026-01-03").1
    ≡ err actual_cost_exceeds_reservation
unfolding settle_execution usd_to_micros
settled_request = refl

abbrev closed_store : Store
closed_store = record active_store { mandates = record mandate { state = closed } ∷ [] }

abbrev late_calls : List Call
late_calls = transitions "o" "m" active context ∷ admits call "d1" ∷ []

run-KeepsClosed_example :
    find (is_mandate "o" "m") (run platform closed_store late_calls).mandates
    ≡ some (record mandate { state = closed })
run-KeepsClosed_example = run-KeepsClosed platform closed_store late_calls "o" "m" refl refl

begin_execution-settles_example :
    IsSettled
      (settle_execution admitted_after binding request decision (answers answer) "2026-01-03").0
      request
      (settled_as binding (pos 1050) (answers answer))
begin_execution-settles_example =
    begin_execution-settles runtime active_store binding request "d1" "2026-01-02" "2026-01-03"
      (answers answer) begun_request
