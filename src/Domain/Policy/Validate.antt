-- ===== src/Domain/Policy/Validate.antt =====
-- `validatePolicy` and `validateEvaluation` of src/domain/policy.ts, with API_CAPABILITIES of
-- src/identity/apiCredentials.ts.
use Prim.Native.Char.{code}
use fuse_agent_control_plane.Base.{
  ℕ, suc, ℤ, pos, ltb_ℤ, leb_ℤ, leb, eqb, Number, is_integer, is_safe_integer, to_int, Bool, true,
  false, ◌&&◌, ◌||◌, not, is_some, Option, none, some, List, [], ◌∷◌, map, any, String, is_blank,
  includes, has_duplicate, Result, ok, err, ◌>>◌, throw_if, for_each,
}
use fuse_agent_control_plane.Domain.Policy.{
  PolicyLimits, WorkloadClassShadowPolicy, WorkloadClassPolicy, PolicyVersion,
  PolicyEvaluationInput,
}

pub data PolicyError : Type 0 where
  policy_id_required policy_organization_required policy_version_invalid : PolicyError
  policy_mode_invalid policy_created_at_invalid policy_capability_invalid : PolicyError
  list_required list_duplicate policy_limit_invalid : String → PolicyError
  workload_class_id_invalid workload_class_duplicate workload_class_limit_invalid : PolicyError
  workload_class_shadow_invalid policy_evaluation_time_invalid mandate_expiry_invalid : PolicyError
  policy_evaluation_provider_required policy_evaluation_model_required : PolicyError
  policy_evaluation_capability_invalid policy_evaluation_amount_invalid : PolicyError
  policy_evaluation_count_invalid : PolicyError

abbrev pub api_capabilities : List String
api_capabilities =
    "inference:invoke" ∷ "mandates:read" ∷ "mandates:write" ∷ "receipts:read" ∷ "credentials:issue"
    ∷ "credentials:revoke" ∷ "agents:write" ∷ "policies:read" ∷ "policies:write" ∷ "mandates:admin"
    ∷ "providers:read" ∷ "providers:write" ∷ "sandbox:run" ∷ []

-- `Number.isSafeInteger(value) && value >= least`.
abbrev pub is_count : ℤ → Number → Bool
is_count least n = is_safe_integer n && leb_ℤ least (to_int n)

unfoldable pub validate_unique_list : List String → String → Result PolicyError (Unit {0})
validate_unique_list [] prefix = err (list_required prefix)
validate_unique_list (v ∷ vs) prefix =
    throw_if (any is_blank (v ∷ vs)) (list_required prefix)
    >> throw_if (has_duplicate (v ∷ vs)) (list_duplicate prefix)

is_lower : ℕ → Bool
is_lower c = leb b'a' c && leb c b'z'

is_class_char : ℕ → Bool
unfolding is_lower
is_class_char c = is_lower c || leb b'0' c && leb c b'9' || eqb c b'_' || eqb c b'.' || eqb c b'-'

-- Every character is one of a class id, and there are at most so many.
class_chars : ℕ → String → Bool
unfolding is_class_char
class_chars n String.[] = true
class_chars ℕ.zero (String.◌∷◌ c s) = false
class_chars (suc n) (String.◌∷◌ c s) = is_class_char (code c) && class_chars n s

-- The regular expression `^[a-z][a-z0-9_.-]{0,63}$`.
unfoldable pub is_class_id : String → Bool
unfolding class_chars
is_class_id String.[] = false
is_class_id (String.◌∷◌ c s) = is_lower (code c) && class_chars 63 s

unfoldable pub validate_shadow : WorkloadClassShadowPolicy → Result PolicyError (Unit {0})
validate_shadow s =
    throw_if
      (leb_ℤ s.class_prior_window_spend_atomic (pos 0)
        || not (is_count (pos 1) s.window_seconds)
        || not (is_count (pos 1) s.target_minimum_observations)
        || not (is_count (pos 1) s.sibling_minimum_for_scoring)
        || not (is_count (pos 1) s.sibling_minimum_for_intervention)
        || not (is_count (pos 1) s.confidence_constant)
        || not (is_count (pos 1) s.divergence_threshold_bps)
        || ltb_ℤ (to_int s.sibling_minimum_for_intervention) (to_int s.sibling_minimum_for_scoring))
      workload_class_shadow_invalid

unfoldable pub validate_class_limits : WorkloadClassPolicy → Result PolicyError (Unit {0})
unfolding validate_shadow
validate_class_limits w =
    throw_if
      (leb_ℤ w.max_cost_per_call_atomic (pos 0)
        || leb_ℤ w.aggregate_budget_atomic (pos 0)
        || ltb_ℤ w.aggregate_budget_atomic w.max_cost_per_call_atomic
        || not (is_count (pos 1) w.max_invocations_per_branch)
        || not (is_count (pos 0) w.minimum_input_tokens))
      workload_class_limit_invalid
    >> elim w.shadow [ none ↦ ok tt | some s ↦ validate_shadow s ]

unfoldable pub validate_workload_classes : List WorkloadClassPolicy → Result PolicyError (Unit {0})
unfolding validate_class_limits is_class_id
validate_workload_classes classes =
    throw_if (any (λ w. not (is_class_id w.id)) classes) workload_class_id_invalid
    >> throw_if (has_duplicate (map (λ w. w.id) classes)) workload_class_duplicate
    >> for_each validate_class_limits classes

unfoldable pub validate_limits : PolicyLimits → Result PolicyError (Unit {0})
validate_limits l =
    throw_if (ltb_ℤ l.max_per_call_atomic (pos 0)) (policy_limit_invalid "maxPerCallAtomic")
    >> throw_if (ltb_ℤ l.max_hourly_atomic (pos 0)) (policy_limit_invalid "maxHourlyAtomic")
    >> throw_if (ltb_ℤ l.max_daily_atomic (pos 0)) (policy_limit_invalid "maxDailyAtomic")
    >> throw_if (not (is_count (pos 0) l.max_requests_per_minute))
        (policy_limit_invalid "maxRequestsPerMinute")
    >> throw_if (not (is_count (pos 0) l.max_input_tokens)) (policy_limit_invalid "maxInputTokens")
    >> throw_if (not (is_count (pos 0) l.max_output_tokens))
        (policy_limit_invalid "maxOutputTokens")

module _ (date_parse : String → Option ℤ) where
  unfoldable pub validate_policy : PolicyVersion → Result PolicyError (Unit {0})
  unfolding validate_unique_list validate_workload_classes validate_limits is_blank
  validate_policy p =
      throw_if (is_blank p.id) policy_id_required
      >> throw_if (is_blank p.organization_id) policy_organization_required
      >> throw_if (not (is_integer p.version && leb_ℤ (pos 1) (to_int p.version)))
          policy_version_invalid
      >> throw_if (not (includes p.mode ("dry_run" ∷ "enforce" ∷ "paused" ∷ [])))
          policy_mode_invalid
      >> throw_if (not (is_some (date_parse p.created_at))) policy_created_at_invalid
      >> throw_if (not (includes p.required_capability api_capabilities)) policy_capability_invalid
      >> validate_unique_list p.allowed_providers "POLICY_PROVIDER"
      >> validate_unique_list p.allowed_models "POLICY_MODEL"
      >> validate_workload_classes p.workload_classes
      >> validate_limits p.limits

  unfoldable pub validate_evaluation : PolicyEvaluationInput → Result PolicyError (Unit {0})
  unfolding is_blank
  validate_evaluation i =
      throw_if (not (is_some (date_parse i.now))) policy_evaluation_time_invalid
      >> throw_if
          (elim i.mandate_expires_at [ none ↦ false | some t ↦ not (is_some (date_parse t)) ])
          mandate_expiry_invalid
      >> throw_if (is_blank i.provider) policy_evaluation_provider_required
      >> throw_if (is_blank i.model) policy_evaluation_model_required
      >> throw_if
          (any (λ c. not (includes c api_capabilities)) i.agent_capabilities
            || has_duplicate i.agent_capabilities)
          policy_evaluation_capability_invalid
      >> throw_if
          (ltb_ℤ i.estimated_cost_atomic (pos 0)
            || ltb_ℤ i.spent_hour_atomic (pos 0)
            || ltb_ℤ i.spent_day_atomic (pos 0)
            || ltb_ℤ i.mandate_spent_atomic (pos 0)
            || ltb_ℤ i.mandate_maximum_atomic (pos 0))
          policy_evaluation_amount_invalid
      >> throw_if
          (not (is_count (pos 0) i.input_tokens)
            || not (is_count (pos 0) i.max_output_tokens)
            || not (is_count (pos 0) i.request_count_last_minute))
          policy_evaluation_count_invalid
