-- ===== src/Persistence/PolicyStore.antt =====
-- src/persistence/policyStore.ts, the class PolicyStore: the tables it keeps, with their
-- rows, and its errors. An operation is the effect of its transaction: it gives the new tables
-- with its answer, or throws and leaves the tables as they were. The locks on a mandate's row put
-- the transactions in an order. Audit rows, the bookkeeping of shadow evaluations and the hooks
-- that callers run inside a transaction are left out. Columns of JSON and of decimal text are kept
-- as what they encode.
pub mod Tables
pub mod Counters
pub mod Admission
pub mod Replay
pub mod Executions
pub mod Reconciliation
pub mod Listing
pub mod Mandates
pub mod MandateBranches
pub mod Decisions
pub mod Rows
pub mod Budget
pub mod Admitted
pub mod Spending
pub mod Settling
pub mod Steps
pub mod Resolving
pub mod Runs
pub mod Passed
pub mod Lifetime
pub mod Admissions
pub mod Gate
pub mod Placing
pub mod Gating
pub mod Administering
pub mod Restoring
pub mod Cases
pub mod Outcomes
pub mod Replays
pub mod Finals
pub mod Settled
pub mod Closing
pub mod Delegation
pub mod Shutting
pub mod Closed
use fuse_agent_control_plane.Base.{ℤ, Number, Bool, Option, List, String}
use fuse_agent_control_plane.Core.Service.{ProviderResult}
use fuse_agent_control_plane.Domain.Lifecycles.{MandateState}
use fuse_agent_control_plane.Domain.Policy.{
  PolicyVersion, PolicyDecisionResult, WorkloadEvaluationInput,
}
use fuse_agent_control_plane.Domain.Policy.Validate.{PolicyError}

-- `held` is the code's `reconciliation_hold`.
pub data ExecutionStatus : Type 0 where
  denied executing completed failed held : ExecutionStatus

pub record PolicyMutationContext : Type 0 where
  pub actor_id : String
  pub causation_id : String
  pub occurred_at : String

-- A row of `control_mandates`.
pub record ControlMandate : Type 0 where
  pub id : String
  pub organization_id : String
  pub name : String
  pub asset_id : String
  pub maximum_spend_atomic : ℤ
  pub state : MandateState
  pub policy_id : String
  pub policy_version : Number
  pub expires_at : Option String
  pub created_at : String

-- A row of `mandate_agent_assignments`.
pub record Assignment : Type 0 where
  pub organization_id : String
  pub mandate_id : String
  pub agent_id : String

-- The object whose JSON text is hashed for a branch.
pub record Canonical : Type 0 where
  pub authority_source : String
  pub organization_id : String
  pub mandate_id : String
  pub branch_id : String
  pub parent_branch_id : Option String
  pub agent_id : String
  pub policy_id : String
  pub policy_version : Number
  pub allowed_workload_classes : List String
  pub maximum_spend_atomic : ℤ
  pub expires_at : Option String
  pub created_at : String
  pub created_by : String

-- A row of `mandate_branches`.
pub record MandateBranchRow : Type 0 where
  pub organization_id : String
  pub mandate_id : String
  pub branch_id : String
  pub parent_branch_id : Option String
  pub agent_id : String
  pub policy_id : String
  pub policy_version : Number
  pub allowed_workload_classes : List String
  pub maximum_spend_atomic : ℤ
  pub expires_at : Option String
  pub delegation_hash : String
  pub authority_source : String
  pub created_at : String
  pub created_by : String

-- A branch as callers see it.
pub record MandateBranch : Type 0 where
  pub id : String
  pub organization_id : String
  pub mandate_id : String
  pub parent_branch_id : Option String
  pub agent_id : String
  pub policy_id : String
  pub policy_version : Number
  pub allowed_workload_classes : List String
  pub maximum_spend_atomic : ℤ
  pub expires_at : Option String
  pub delegation_hash : String
  pub authority_source : String
  pub created_at : String
  pub created_by : String

pub record ExposureSnapshot : Type 0 where
  pub branch_limit_atomic : ℤ
  pub branch_committed_before_atomic : ℤ
  pub request_reservation_atomic : ℤ
  pub maximum_exposure_atomic : ℤ
  pub remaining_authority_atomic : ℤ

pub record PolicyDecisionInput : Type 0 where
  pub id : String
  pub request_id : String
  pub organization_id : String
  pub mandate_id : String
  pub agent_id : String
  pub agent_capabilities : List String
  pub provider : String
  pub model : String
  pub branch_id : Option String
  pub workload_class : Option String
  pub estimated_cost_atomic : ℤ
  pub input_tokens : Number
  pub max_output_tokens : Number
  pub spent_hour_atomic : ℤ
  pub spent_day_atomic : ℤ
  pub mandate_spent_atomic : ℤ
  pub mandate_maximum_atomic : ℤ
  pub request_count_last_minute : Number
  pub workload : Option WorkloadEvaluationInput
  pub exposure : Option ExposureSnapshot
  pub decided_at : String

pub record StoredPolicyDecision : Type 0 where
  pub id : String
  pub request_id : String
  pub organization_id : String
  pub mandate_id : String
  pub agent_id : String
  pub policy_id : String
  pub policy_version : Number
  pub result : PolicyDecisionResult
  pub input : PolicyDecisionInput

-- A row of `inference_executions`, without the columns of the shadow evaluation.
pub record InferenceExecutionRow : Type 0 where
  pub organization_id : String
  pub request_id : String
  pub mandate_id : String
  pub agent_id : String
  pub decision_id : String
  pub provider : String
  pub model : String
  pub branch_id : Option String
  pub workload_class : Option String
  pub request_fingerprint : String
  pub status : ExecutionStatus
  pub reserved_cost_atomic : ℤ
  pub actual_cost_atomic : Option ℤ
  pub input_tokens : Number
  pub max_output_tokens : Number
  pub response_json : Option ProviderResult
  pub failure_code : Option String
  pub created_at : String
  pub updated_at : String

pub data ReconciliationResolution : Type 0 where
  settle confirm_not_billed : ReconciliationResolution

-- A row of `reconciliation_resolutions`.
pub record Resolution : Type 0 where
  pub organization_id : String
  pub request_id : String
  pub resolution : ReconciliationResolution
  pub actual_cost_atomic : ℤ
  pub note : String
  pub external_reference : String
  pub resolved_by : String

-- A row of `mandate_reconciliation_holds`.
pub record ReconciliationHold : Type 0 where
  pub organization_id : String
  pub mandate_id : String
  pub prior_state : MandateState

-- The tables. Organizations and their agents are written by other stores.
pub record Store : Type 0 where
  pub organizations : List String
  pub agents : List (String × String)
  pub policies : List PolicyVersion
  pub mandates : List ControlMandate
  pub assignments : List Assignment
  pub branches : List MandateBranchRow
  pub decisions : List StoredPolicyDecision
  pub executions : List InferenceExecutionRow
  pub resolutions : List Resolution
  pub holds : List ReconciliationHold

-- `Date.parse`, `none` where it gives NaN; `new Date(s).toISOString()`; and the SHA-256 hash of the
-- JSON text of a branch.
pub record Platform : Type 0 where
  pub date_parse : String → Option ℤ
  pub to_iso : String → String
  pub delegation_hash : Canonical → String

-- The last two are the database's own, for a key that is taken and for one that is missing.
pub data StoreError : Type 0 where
  policy_actor_required policy_causation_required policy_occurred_at_invalid : StoreError
  control_mandate_id_required control_mandate_organization_required : StoreError
  control_mandate_name_required control_mandate_asset_required : StoreError
  control_mandate_maximum_invalid control_mandate_policy_version_invalid : StoreError
  control_mandate_expiry_invalid control_mandate_initial_state_invalid : StoreError
  control_mandate_policy_required control_mandate_not_found : StoreError
  control_mandate_transition_invalid : MandateState → MandateState → StoreError
  control_mandate_policy_change_requires_pause : StoreError
  mandate_branch_id_required mandate_branch_organization_required : StoreError
  mandate_branch_mandate_required mandate_branch_agent_required : StoreError
  mandate_branch_workload_class_required mandate_branch_workload_class_duplicate : StoreError
  mandate_branch_budget_invalid mandate_branch_expiry_invalid : StoreError
  mandate_branch_change_requires_pause mandate_branch_budget_exceeds_mandate : StoreError
  mandate_branch_expiry_exceeds_mandate mandate_branch_workload_class_not_in_policy : StoreError
  mandate_branch_agent_not_assigned mandate_parent_branch_not_found : StoreError
  mandate_parent_branch_policy_mismatch mandate_branch_parent_authority_exceeded : StoreError
  mandate_branch_parent_budget_exceeded mandate_branch_parent_expiry_exceeded : StoreError
  mandate_branch_authority_source_invalid mandate_branch_delegation_hash_invalid : StoreError
  policy_decision_id_required policy_decision_request_required : StoreError
  policy_decision_organization_required policy_decision_mandate_required : StoreError
  policy_decision_agent_required policy_decision_time_invalid : StoreError
  policy_decision_not_found request_fingerprint_invalid idempotency_conflict : StoreError
  actual_cost_invalid inference_execution_not_found inference_execution_not_executing : StoreError
  inference_execution_response_missing hold_reason_invalid execution_not_active : StoreError
  reconciliation_organization_required reconciliation_request_required : StoreError
  reconciliation_note_invalid reconciliation_reference_invalid : StoreError
  reconciliation_actual_cost_required reconciliation_actual_cost_forbidden : StoreError
  reconciliation_resolution_conflict reconciliation_case_not_open : StoreError
  reconciliation_mandate_state_missing : StoreError
  reconciliation_mandate_state_conflict : MandateState → StoreError
  of_policy : PolicyError → StoreError
  unique_violation foreign_key_violation : StoreError
