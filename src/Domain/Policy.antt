-- ===== src/Domain/Policy.antt =====
-- src/domain/policy.ts: a policy version, the input of an evaluation, and the decision.
-- Modes, capabilities and the mandate's state are texts, as they are when the code tests them.
-- `Date.parse` is a parameter of the functions, `none` where it gives NaN. The count of a class's
-- invocations, which the code does not test, is an integer.
pub mod Validate
pub mod Evaluate
pub mod Soundness
pub mod Branches
pub mod Modes
use fuse_agent_control_plane.Base.{ℤ, Number, Bool, Option, List, String}

pub data PolicyOutcome : Type 0 where
  allow deny review : PolicyOutcome

pub record PolicyLimits : Type 0 where
  pub max_per_call_atomic : ℤ
  pub max_hourly_atomic : ℤ
  pub max_daily_atomic : ℤ
  pub max_requests_per_minute : Number
  pub max_input_tokens : Number
  pub max_output_tokens : Number

pub record WorkloadClassShadowPolicy : Type 0 where
  pub class_prior_window_spend_atomic : ℤ
  pub window_seconds : Number
  pub target_minimum_observations : Number
  pub sibling_minimum_for_scoring : Number
  pub sibling_minimum_for_intervention : Number
  pub confidence_constant : Number
  pub divergence_threshold_bps : Number

pub record WorkloadClassPolicy : Type 0 where
  pub id : String
  pub max_cost_per_call_atomic : ℤ
  pub max_invocations_per_branch : Number
  pub aggregate_budget_atomic : ℤ
  pub minimum_input_tokens : Number
  pub shadow : Option WorkloadClassShadowPolicy

-- A missing `workloadClasses` is read as the empty list everywhere.
pub record PolicyVersion : Type 0 where
  pub id : String
  pub organization_id : String
  pub version : Number
  pub mode : String
  pub allowed_providers : List String
  pub allowed_models : List String
  pub required_capability : String
  pub limits : PolicyLimits
  pub workload_classes : List WorkloadClassPolicy
  pub created_at : String

pub data PolicyReasonCode : Type 0 where
  policy_paused mandate_inactive mandate_expired agent_not_authorized : PolicyReasonCode
  capability_missing provider_not_allowed model_not_allowed : PolicyReasonCode
  per_call_limit_exceeded hourly_limit_exceeded daily_limit_exceeded : PolicyReasonCode
  mandate_budget_exceeded rate_limit_exceeded : PolicyReasonCode
  input_token_limit_exceeded output_token_limit_exceeded : PolicyReasonCode
  workload_class_required branch_not_authorized branch_expired : PolicyReasonCode
  branch_budget_exceeded workload_class_not_allowed : PolicyReasonCode
  workload_class_per_call_limit_exceeded workload_class_invocation_limit_exceeded : PolicyReasonCode
  workload_class_budget_exceeded workload_class_shape_mismatch : PolicyReasonCode

pub record WorkloadEvaluationInput : Type 0 where
  pub branch_id : String
  pub workload_class : String
  pub branch_authorized : Bool
  pub branch_maximum_atomic : ℤ
  pub branch_spent_atomic : ℤ
  pub branch_expires_at : Option String
  pub class_authorized : Bool
  pub class_invocation_count : ℤ
  pub class_spent_atomic : ℤ

pub record PolicyEvaluationInput : Type 0 where
  pub now : String
  pub mandate_state : String
  pub mandate_expires_at : Option String
  pub agent_authorized : Bool
  pub agent_capabilities : List String
  pub provider : String
  pub model : String
  pub estimated_cost_atomic : ℤ
  pub input_tokens : Number
  pub max_output_tokens : Number
  pub spent_hour_atomic : ℤ
  pub spent_day_atomic : ℤ
  pub mandate_spent_atomic : ℤ
  pub mandate_maximum_atomic : ℤ
  pub request_count_last_minute : Number
  pub workload : Option WorkloadEvaluationInput

pub record PolicyDecisionResult : Type 0 where
  pub outcome : PolicyOutcome
  pub would_outcome : PolicyOutcome
  pub enforced : Bool
  pub reason_codes : List PolicyReasonCode
