-- ===== src/Tests/Store.antt =====
-- Admissions of src/persistence/policyStore.ts on a mandate of one agent.
use fuse_agent_control_plane.Persistence.PolicyStore.{
  executing, idempotency_conflict, PolicyMutationContext, ControlMandate, Assignment,
  StoredPolicyDecision, InferenceExecutionRow, Store, Platform,
}
use fuse_agent_control_plane.Persistence.PolicyStore.Tables.{is_mandate}
use fuse_agent_control_plane.Persistence.PolicyStore.Counters.{mandate_spent}
use fuse_agent_control_plane.Persistence.PolicyStore.Admission.{
  to_execute, in_progress, AdmissionInput,
}
use fuse_agent_control_plane.Persistence.PolicyStore.Replay.{admit_inference, preview_inference}
use fuse_agent_control_plane.Persistence.PolicyStore.Mandates.{CreateControlMandateInput}
use fuse_agent_control_plane.Persistence.PolicyStore.Lifetime.{new_store}
use fuse_agent_control_plane.Persistence.PolicyStore.Admissions.{admit_inference-mandate_spent}
use fuse_agent_control_plane.Persistence.PolicyStore.Replays.{
  sent_again, answered_under, admit_again-conflict, admit_again, preview-admit_inference,
}
use fuse_agent_control_plane.Base.{
  ◌+ℤ◌, String, ◌≡◌, refl, true, none, some, [], ◌∷◌, pos, int, ◌≤ℤ◌, find, ok, err,
}
use fuse_agent_control_plane.Domain.Policy.{allow, PolicyVersion, PolicyDecisionResult}
use fuse_agent_control_plane.Domain.Lifecycles.{draft, active}
use fuse_agent_control_plane.Signer.AuthorizationStore.{is_fingerprint}

abbrev pub platform : Platform
platform = record {
  date_parse = λ s. some (pos 100000000);
  to_iso = λ s. s;
  delegation_hash = λ c. c.branch_id;
}

abbrev pub policy : PolicyVersion
policy = record {
  id = "p";
  organization_id = "o";
  version = int (pos 1);
  mode = "enforce";
  allowed_providers = "openai" ∷ [];
  allowed_models = "gpt" ∷ [];
  required_capability = "inference:invoke";
  limits = record {
    max_per_call_atomic = pos 2000;
    max_hourly_atomic = pos 10000;
    max_daily_atomic = pos 20000;
    max_requests_per_minute = int (pos 10);
    max_input_tokens = int (pos 1000);
    max_output_tokens = int (pos 1000);
  };
  workload_classes = [];
  created_at = "2026-01-01";
}

abbrev pub context : PolicyMutationContext
context = record { actor_id = "admin"; causation_id = "c"; occurred_at = "2026-01-01" }

abbrev pub creation : CreateControlMandateInput
creation = record {
  context = context;
  id = "m";
  organization_id = "o";
  name = "research";
  asset_id = "usdc";
  maximum_spend_atomic = pos 5000;
  state = draft;
  policy_id = "p";
  policy_version = int (pos 1);
  expires_at = none;
}

abbrev pub mandate : ControlMandate
mandate = record {
  id = "m";
  organization_id = "o";
  name = "research";
  asset_id = "usdc";
  maximum_spend_atomic = pos 5000;
  state = active;
  policy_id = "p";
  policy_version = int (pos 1);
  expires_at = none;
  created_at = "2026-01-01";
}

abbrev pub fingerprint : String
fingerprint = "0123456789abcdef0123456789abcdef0123456789abcdef0123456789abcdef"

abbrev other_fingerprint : String
other_fingerprint = "1123456789abcdef0123456789abcdef0123456789abcdef0123456789abcdef"

abbrev pub call : AdmissionInput
call = record {
  request_id = "r1";
  organization_id = "o";
  mandate_id = "m";
  agent_id = "agent";
  agent_capabilities = "inference:invoke" ∷ [];
  provider = "openai";
  model = "gpt";
  branch_id = none;
  workload_class = none;
  estimated_cost_atomic = pos 1050;
  input_tokens = int (pos 100);
  max_output_tokens = int (pos 50);
  request_fingerprint = fingerprint;
  decided_at = "2026-01-02";
}

abbrev pub assignment : Assignment
assignment = record { organization_id = "o"; mandate_id = "m"; agent_id = "agent" }

abbrev pub active_store : Store
active_store = record (new_store ("o" ∷ []) (("o", "agent") ∷ [])) {
  policies = policy ∷ [];
  mandates = mandate ∷ [];
  assignments = assignment ∷ [];
}

abbrev allowed : PolicyDecisionResult
allowed = record { outcome = allow; would_outcome = allow; enforced = true; reason_codes = [] }

abbrev pub decision : StoredPolicyDecision
decision = record {
  id = "d1";
  request_id = "r1";
  organization_id = "o";
  mandate_id = "m";
  agent_id = "agent";
  policy_id = "p";
  policy_version = int (pos 1);
  result = allowed;
  input = record {
    id = "d1";
    request_id = "r1";
    organization_id = "o";
    mandate_id = "m";
    agent_id = "agent";
    agent_capabilities = "inference:invoke" ∷ [];
    provider = "openai";
    model = "gpt";
    branch_id = none;
    workload_class = none;
    estimated_cost_atomic = pos 1050;
    input_tokens = int (pos 100);
    max_output_tokens = int (pos 50);
    spent_hour_atomic = pos 0;
    spent_day_atomic = pos 0;
    mandate_spent_atomic = pos 0;
    mandate_maximum_atomic = pos 5000;
    request_count_last_minute = int (pos 0);
    workload = none;
    exposure = none;
    decided_at = "2026-01-02";
  };
}

abbrev pub executing_row : InferenceExecutionRow
executing_row = record {
  organization_id = "o";
  request_id = "r1";
  mandate_id = "m";
  agent_id = "agent";
  decision_id = "d1";
  provider = "openai";
  model = "gpt";
  branch_id = none;
  workload_class = none;
  request_fingerprint = fingerprint;
  status = executing;
  reserved_cost_atomic = pos 1050;
  actual_cost_atomic = none;
  input_tokens = int (pos 100);
  max_output_tokens = int (pos 50);
  response_json = none;
  failure_code = none;
  created_at = "2026-01-02";
  updated_at = "2026-01-02";
}

abbrev pub admitted_after : Store
admitted_after = record active_store { decisions = decision ∷ []; executions = executing_row ∷ [] }

pub admitted_call :
    admit_inference platform active_store call "d1"
    ≡ ok (admitted_after, to_execute decision (pos 1050))
unfolding admit_inference fuse_agent_control_plane.Base.is_blank is_fingerprint
    fuse_agent_control_plane.Domain.Policy.Evaluate.evaluate_policy
    fuse_agent_control_plane.Domain.Policy.Validate.validate_policy
    fuse_agent_control_plane.Domain.Policy.Validate.validate_evaluation
    fuse_agent_control_plane.Domain.Policy.Evaluate.decide_outcome
    fuse_agent_control_plane.Domain.Policy.Evaluate.all_reasons
    fuse_agent_control_plane.Domain.Policy.Evaluate.mandate_reasons
    fuse_agent_control_plane.Domain.Policy.Evaluate.limit_reasons ◌+ℤ◌
    fuse_agent_control_plane.Domain.Policy.Evaluate.workload_reasons
admitted_call = refl

-- A preview draws an id of its own.
abbrev foreseen : StoredPolicyDecision
foreseen = record decision { id = "d0"; input = record decision.input { id = "d0" } }

previewed_call :
    preview_inference platform active_store call "d0"
    ≡ ok (active_store, to_execute foreseen (pos 1050))
unfolding preview_inference fuse_agent_control_plane.Base.is_blank is_fingerprint
    fuse_agent_control_plane.Domain.Policy.Evaluate.evaluate_policy
    fuse_agent_control_plane.Domain.Policy.Validate.validate_policy
    fuse_agent_control_plane.Domain.Policy.Validate.validate_evaluation
    fuse_agent_control_plane.Domain.Policy.Evaluate.decide_outcome
    fuse_agent_control_plane.Domain.Policy.Evaluate.all_reasons
    fuse_agent_control_plane.Domain.Policy.Evaluate.mandate_reasons
    fuse_agent_control_plane.Domain.Policy.Evaluate.limit_reasons ◌+ℤ◌
    fuse_agent_control_plane.Domain.Policy.Evaluate.workload_reasons
previewed_call = refl

admit_inference-mandate_spent_example :
    (m : ControlMandate) × (find (is_mandate "o" "m") active_store.mandates ≡ some m)
    × (m.state ≡ active)
    × (pos 1050 ≡ pos 1050)
    × (mandate_spent admitted_after.executions "o" "m"
        ≡ mandate_spent active_store.executions "o" "m" +ℤ pos 1050)
    × (mandate_spent admitted_after.executions "o" "m" ≤ℤ m.maximum_spend_atomic)
admit_inference-mandate_spent_example =
    admit_inference-mandate_spent platform active_store call "d1" admitted_call

admit_again_example :
    admit_inference platform admitted_after (sent_again call fingerprint "2026-01-03") "d2"
    ≡ ok (admitted_after, in_progress)
unfolding fuse_agent_control_plane.Base.◌-ℤ◌
admit_again_example =
    admit_again platform active_store call "d1" "d2" "2026-01-03" admitted_call refl refl

admit_again-conflict_example :
    admit_inference platform admitted_after (sent_again call other_fingerprint "2026-01-03") "d2"
    ≡ err idempotency_conflict
unfolding is_fingerprint
admit_again-conflict_example =
    admit_again-conflict platform active_store call "d1" "d2" other_fingerprint "2026-01-03"
      admitted_call refl refl refl

preview-admit_inference_example :
    (active_store ≡ active_store)
    × (answered_under "d1" (to_execute foreseen (pos 1050)) ≡ to_execute decision (pos 1050))
preview-admit_inference_example =
    preview-admit_inference platform active_store call "d0" "d1" refl previewed_call admitted_call
