-- ===== src/Domain/Policy/Evaluate.antt =====
-- `evaluatePolicy` of src/domain/policy.ts.
use fuse_agent_control_plane.Base.{
  ℤ, ◌+ℤ◌, ltb_ℤ, leb_ℤ, to_int, Bool, true, false, not, Option, none, some, List, [], ◌∷◌, ◌++◌,
  any, find, String, ◌==◌, includes, Result, ok, ◌>>◌, if◌then◌else◌,
}
use fuse_agent_control_plane.Domain.Policy.{
  PolicyOutcome, allow, deny, WorkloadClassPolicy, PolicyVersion, PolicyReasonCode, policy_paused,
  mandate_inactive, mandate_expired, agent_not_authorized, capability_missing, provider_not_allowed,
  model_not_allowed, per_call_limit_exceeded, hourly_limit_exceeded, daily_limit_exceeded,
  mandate_budget_exceeded, rate_limit_exceeded, input_token_limit_exceeded,
  output_token_limit_exceeded, workload_class_required, branch_not_authorized, branch_expired,
  branch_budget_exceeded, workload_class_not_allowed, workload_class_per_call_limit_exceeded,
  workload_class_invocation_limit_exceeded, workload_class_budget_exceeded,
  workload_class_shape_mismatch, WorkloadEvaluationInput, PolicyEvaluationInput,
  PolicyDecisionResult,
}
use fuse_agent_control_plane.Domain.Policy.Validate.{
  PolicyError, validate_policy, validate_evaluation,
}

-- `if (b) reasons.push(r)`.
abbrev pub push_if : Bool → PolicyReasonCode → List PolicyReasonCode
push_if b r = if b then r ∷ [] else []

-- `Date.parse(s) <= Date.parse(t)`; a comparison with NaN is false.
abbrev pub date_le : Option ℤ → Option ℤ → Bool
date_le none t = false
date_le (some s) none = false
date_le (some s) (some t) = leb_ℤ s t

-- An expiry that is set and has passed.
abbrev pub has_passed : (String → Option ℤ) → Option String → String → Bool
has_passed date_parse none now = false
has_passed date_parse (some expiry) now = date_le (date_parse expiry) (date_parse now)

unfoldable pub class_reasons :
    WorkloadClassPolicy → WorkloadEvaluationInput → PolicyEvaluationInput → List PolicyReasonCode
class_reasons c w i =
    push_if (ltb_ℤ c.max_cost_per_call_atomic i.estimated_cost_atomic)
      workload_class_per_call_limit_exceeded
    ++ (push_if (leb_ℤ (to_int c.max_invocations_per_branch) w.class_invocation_count)
          workload_class_invocation_limit_exceeded
        ++ (push_if
              (ltb_ℤ c.aggregate_budget_atomic (w.class_spent_atomic +ℤ i.estimated_cost_atomic))
              workload_class_budget_exceeded
            ++ push_if (ltb_ℤ (to_int i.input_tokens) (to_int c.minimum_input_tokens))
                workload_class_shape_mismatch))

-- The class that the input names, if the branch may use it and the policy has it.
unfoldable pub allowed_class : PolicyVersion → WorkloadEvaluationInput → Option WorkloadClassPolicy
allowed_class p w =
    if w.class_authorized then find (λ c. c.id == w.workload_class) p.workload_classes else none

unfoldable pub class_or_not_allowed :
    Option WorkloadClassPolicy
    → WorkloadEvaluationInput
    → PolicyEvaluationInput
    → List PolicyReasonCode
class_or_not_allowed none w i = workload_class_not_allowed ∷ []
class_or_not_allowed (some c) w i = class_reasons c w i

unfoldable pub branch_reasons :
    (String → Option ℤ)
    → PolicyVersion
    → Option WorkloadEvaluationInput
    → PolicyEvaluationInput
    → List PolicyReasonCode
branch_reasons date_parse p none i = workload_class_required ∷ []
branch_reasons date_parse p (some w) i =
    if w.branch_authorized
    then push_if (has_passed date_parse w.branch_expires_at i.now) branch_expired
      ++ (push_if (ltb_ℤ w.branch_maximum_atomic (w.branch_spent_atomic +ℤ i.estimated_cost_atomic))
            branch_budget_exceeded
          ++ class_or_not_allowed (allowed_class p w) w i)
    else branch_not_authorized ∷ []

unfoldable pub workload_reasons :
    (String → Option ℤ)
    → PolicyVersion
    → List WorkloadClassPolicy
    → PolicyEvaluationInput
    → List PolicyReasonCode
workload_reasons date_parse p [] i = []
workload_reasons date_parse p (_ ∷ _) i = branch_reasons date_parse p i.workload i

-- The reasons against the call, in the order in which the code pushes them.
unfoldable pub mandate_reasons :
    (String → Option ℤ) → PolicyVersion → PolicyEvaluationInput → List PolicyReasonCode
mandate_reasons date_parse p i =
    push_if (not (i.mandate_state == "active")) mandate_inactive
    ++ (push_if (has_passed date_parse i.mandate_expires_at i.now) mandate_expired
        ++ (push_if (not i.agent_authorized) agent_not_authorized
            ++ push_if (not (includes p.required_capability i.agent_capabilities))
                capability_missing))

unfoldable pub limit_reasons : PolicyVersion → PolicyEvaluationInput → List PolicyReasonCode
limit_reasons p i =
    push_if (not (includes i.provider p.allowed_providers)) provider_not_allowed
    ++ (push_if (not (includes i.model p.allowed_models)) model_not_allowed
        ++ (push_if (ltb_ℤ p.limits.max_per_call_atomic i.estimated_cost_atomic)
              per_call_limit_exceeded
            ++ (push_if
                  (ltb_ℤ p.limits.max_hourly_atomic
                    (i.spent_hour_atomic +ℤ i.estimated_cost_atomic))
                  hourly_limit_exceeded
                ++ (push_if
                      (ltb_ℤ p.limits.max_daily_atomic
                        (i.spent_day_atomic +ℤ i.estimated_cost_atomic))
                      daily_limit_exceeded
                    ++ (push_if
                          (ltb_ℤ i.mandate_maximum_atomic
                            (i.mandate_spent_atomic +ℤ i.estimated_cost_atomic))
                          mandate_budget_exceeded
                        ++ (push_if
                              (leb_ℤ (to_int p.limits.max_requests_per_minute)
                                (to_int i.request_count_last_minute))
                              rate_limit_exceeded
                            ++ (push_if
                                  (ltb_ℤ (to_int p.limits.max_input_tokens) (to_int i.input_tokens))
                                  input_token_limit_exceeded
                                ++ push_if
                                    (ltb_ℤ (to_int p.limits.max_output_tokens)
                                      (to_int i.max_output_tokens))
                                    output_token_limit_exceeded)))))))

abbrev pub is_hard : PolicyReasonCode → Bool
is_hard mandate_inactive = true
is_hard mandate_expired = true
is_hard agent_not_authorized = true
is_hard capability_missing = true
is_hard mandate_budget_exceeded = true
is_hard workload_class_required = true
is_hard branch_not_authorized = true
is_hard branch_expired = true
is_hard branch_budget_exceeded = true
is_hard workload_class_not_allowed = true
is_hard workload_class_per_call_limit_exceeded = true
is_hard workload_class_invocation_limit_exceeded = true
is_hard workload_class_budget_exceeded = true
is_hard workload_class_shape_mismatch = true
is_hard _ = false

abbrev is_empty : {A : Type 0} → List A → Bool
is_empty [] = true
is_empty (_ ∷ _) = false

abbrev decision :
    PolicyOutcome → PolicyOutcome → Bool → List PolicyReasonCode → PolicyDecisionResult
decision outcome would enforced reasons = record {
  outcome = outcome;
  would_outcome = would;
  enforced = enforced;
  reason_codes = reasons;
}

-- The decision on the reasons that were found, in a mode other than `paused`.
unfoldable pub decide_outcome : String → List PolicyReasonCode → PolicyDecisionResult
decide_outcome mode reasons =
    let would = if is_empty reasons then allow else deny in
    if any is_hard reasons
    then decision deny would true reasons
    else if mode == "dry_run"
    then decision allow would false reasons
    else decision would would true reasons

unfoldable pub all_reasons :
    (String → Option ℤ) → PolicyVersion → PolicyEvaluationInput → List PolicyReasonCode
all_reasons date_parse p i =
    mandate_reasons date_parse p i
    ++ (limit_reasons p i ++ workload_reasons date_parse p p.workload_classes i)

unfoldable pub evaluate_policy :
    (String → Option ℤ)
    → PolicyVersion
    → PolicyEvaluationInput
    → Result PolicyError PolicyDecisionResult
evaluate_policy date_parse p i =
    validate_policy date_parse p
    >> validate_evaluation date_parse i
    >> ok (
        if p.mode == "paused"
        then decision deny deny true (policy_paused ∷ [])
        else decide_outcome p.mode (all_reasons date_parse p i))
