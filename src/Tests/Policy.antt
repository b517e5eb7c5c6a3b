-- ===== src/Tests/Policy.antt =====
-- src/domain/policy.ts on a call that a policy with a workload class allows, and on a dry run.
use fuse_agent_control_plane.Base.{
  ℤ, pos, ◌+ℤ◌, ◌≤ℤ◌, ◌<ℤ◌, int, true, false, Option, none, some, [], ◌∷◌, find, String, ◌==◌,
  includes, ok, ◌≡◌, ◌≢◌, refl, eq_iff, arith,
}
use fuse_agent_control_plane.Domain.Policy.{
  PolicyOutcome, allow, deny, PolicyVersion, PolicyEvaluationInput, PolicyDecisionResult,
  WorkloadClassPolicy, WorkloadEvaluationInput, provider_not_allowed,
}
use fuse_agent_control_plane.Domain.Policy.Evaluate.{
  has_passed, is_hard, all_reasons, evaluate_policy,
}
use fuse_agent_control_plane.Domain.Policy.Soundness.{allowed_within_mandate}
use fuse_agent_control_plane.Domain.Policy.Branches.{FitsClass, allowed_within_branch}
use fuse_agent_control_plane.Domain.Policy.Modes.{
  enforced_within_limits, enforcing, dry_run_predicts,
}

abbrev parse_date : String → Option ℤ
parse_date s = some (pos 0)

abbrev research : WorkloadClassPolicy
research = record {
  id = "research";
  max_cost_per_call_atomic = pos 10;
  max_invocations_per_branch = int (pos 5);
  aggregate_budget_atomic = pos 50;
  minimum_input_tokens = int (pos 1);
  shadow = none;
}

abbrev policy : PolicyVersion
policy = record {
  id = "p";
  organization_id = "o";
  version = int (pos 1);
  mode = "enforce";
  allowed_providers = "openai" ∷ [];
  allowed_models = "gpt" ∷ [];
  required_capability = "inference:invoke";
  limits = record {
    max_per_call_atomic = pos 20;
    max_hourly_atomic = pos 100;
    max_daily_atomic = pos 200;
    max_requests_per_minute = int (pos 10);
    max_input_tokens = int (pos 1000);
    max_output_tokens = int (pos 1000);
  };
  workload_classes = research ∷ [];
  created_at = "2026-01-01";
}

abbrev workload : WorkloadEvaluationInput
workload = record {
  branch_id = "b";
  workload_class = "research";
  branch_authorized = true;
  branch_maximum_atomic = pos 40;
  branch_spent_atomic = pos 5;
  branch_expires_at = none;
  class_authorized = true;
  class_invocation_count = pos 2;
  class_spent_atomic = pos 5;
}

abbrev call : PolicyEvaluationInput
call = record {
  now = "2026-01-02";
  mandate_state = "active";
  mandate_expires_at = none;
  agent_authorized = true;
  agent_capabilities = "inference:invoke" ∷ [];
  provider = "openai";
  model = "gpt";
  estimated_cost_atomic = pos 7;
  input_tokens = int (pos 100);
  max_output_tokens = int (pos 100);
  spent_hour_atomic = pos 10;
  spent_day_atomic = pos 10;
  mandate_spent_atomic = pos 10;
  mandate_maximum_atomic = pos 500;
  request_count_last_minute = int (pos 3);
  workload = some workload;
}

abbrev allowed : PolicyDecisionResult
allowed = record { outcome = allow; would_outcome = allow; enforced = true; reason_codes = [] }

evaluate_policy-call : evaluate_policy parse_date policy call ≡ ok allowed
unfolding evaluate_policy fuse_agent_control_plane.Domain.Policy.Validate.validate_policy
    fuse_agent_control_plane.Domain.Policy.Validate.validate_evaluation
    fuse_agent_control_plane.Domain.Policy.Evaluate.decide_outcome all_reasons
    fuse_agent_control_plane.Domain.Policy.Evaluate.mandate_reasons
    fuse_agent_control_plane.Domain.Policy.Evaluate.limit_reasons ◌+ℤ◌
    fuse_agent_control_plane.Domain.Policy.Evaluate.workload_reasons
    fuse_agent_control_plane.Domain.Policy.Evaluate.branch_reasons
    fuse_agent_control_plane.Domain.Policy.Evaluate.class_or_not_allowed
    fuse_agent_control_plane.Domain.Policy.Evaluate.allowed_class
    fuse_agent_control_plane.Domain.Policy.Evaluate.class_reasons
evaluate_policy-call = refl

enforce-dry_run : policy.mode ≢ "dry_run"
enforce-dry_run e =
    let same : ("enforce" == "dry_run") ≡ true = (eq_iff "enforce" "dry_run").1 e in ground arith

allowed_within_mandate_example :
    (("active" == "active") ≡ true)
    × (has_passed parse_date none "2026-01-02" ≡ false)
    × (true ≡ true)
    × (includes "inference:invoke" ("inference:invoke" ∷ []) ≡ true)
    × (pos 10 +ℤ pos 7 ≤ℤ pos 500)
allowed_within_mandate_example =
    allowed_within_mandate parse_date policy call evaluate_policy-call refl

allowed_within_branch_example :
    (w : WorkloadEvaluationInput) × (c : WorkloadClassPolicy) × (some workload ≡ some w)
    × (w.branch_authorized ≡ true)
    × (has_passed parse_date w.branch_expires_at "2026-01-02" ≡ false)
    × (w.branch_spent_atomic +ℤ pos 7 ≤ℤ w.branch_maximum_atomic)
    × (w.class_authorized ≡ true)
    × (find (λ k. k.id == w.workload_class) (research ∷ []) ≡ some c)
    × FitsClass c w call
allowed_within_branch_example =
    allowed_within_branch parse_date policy call evaluate_policy-call refl (λ e. cc)

enforced_within_limits_example :
    (includes "openai" ("openai" ∷ []) ≡ true)
    × (includes "gpt" ("gpt" ∷ []) ≡ true)
    × (pos 7 ≤ℤ pos 20)
    × (pos 10 +ℤ pos 7 ≤ℤ pos 100)
    × (pos 10 +ℤ pos 7 ≤ℤ pos 200)
    × (pos 3 <ℤ pos 10)
    × (pos 100 ≤ℤ pos 1000)
    × (pos 100 ≤ℤ pos 1000)
enforced_within_limits_example =
    enforced_within_limits parse_date policy call evaluate_policy-call refl enforce-dry_run

abbrev dry_policy : PolicyVersion
dry_policy = record policy { mode = "dry_run" }

abbrev other_call : PolicyEvaluationInput
other_call = record call { provider = "other" }

abbrev would_deny : PolicyDecisionResult
would_deny = record {
  outcome = allow;
  would_outcome = deny;
  enforced = false;
  reason_codes = provider_not_allowed ∷ [];
}

dry_run_allowed : evaluate_policy parse_date dry_policy other_call ≡ ok would_deny
unfolding evaluate_policy fuse_agent_control_plane.Domain.Policy.Validate.validate_policy
    fuse_agent_control_plane.Domain.Policy.Validate.validate_evaluation
    fuse_agent_control_plane.Domain.Policy.Evaluate.decide_outcome all_reasons
    fuse_agent_control_plane.Domain.Policy.Evaluate.mandate_reasons
    fuse_agent_control_plane.Domain.Policy.Evaluate.limit_reasons ◌+ℤ◌
    fuse_agent_control_plane.Domain.Policy.Evaluate.workload_reasons
    fuse_agent_control_plane.Domain.Policy.Evaluate.branch_reasons
    fuse_agent_control_plane.Domain.Policy.Evaluate.class_or_not_allowed
    fuse_agent_control_plane.Domain.Policy.Evaluate.allowed_class
    fuse_agent_control_plane.Domain.Policy.Evaluate.class_reasons
dry_run_allowed = refl

dry_run_predicts_example :
    (r' : PolicyDecisionResult) × (evaluate_policy parse_date (enforcing dry_policy) other_call
      ≡ ok r')
    × (deny ≡ r'.outcome)
    × (provider_not_allowed ∷ [] ≡ r'.reason_codes)
dry_run_predicts_example = dry_run_predicts parse_date dry_policy other_call refl dry_run_allowed
