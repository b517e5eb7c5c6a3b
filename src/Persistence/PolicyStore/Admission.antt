-- ===== src/Persistence/PolicyStore/Admission.antt =====
-- A request without a row in `admitInference` of src/persistence/policyStore.ts. The decision's
-- random id is an argument.
use fuse_agent_control_plane.Persistence.PolicyStore.{
  denied, executing, StoreError, unique_violation, foreign_key_violation, ControlMandate,
  MandateBranchRow, ExposureSnapshot, PolicyDecisionInput, StoredPolicyDecision,
  InferenceExecutionRow, Store, Platform,
}
use fuse_agent_control_plane.Persistence.PolicyStore.Tables.{
  state_text, is_branch, iso_of, is_assigned, is_agent, in_policy, verify_branch_integrity,
}
use fuse_agent_control_plane.Persistence.PolicyStore.Counters.{
  mandate_spent, spent_since, requests_since, branch_authorized, workload_input, exposure_snapshot,
}
use fuse_agent_control_plane.Base.{
  ◌-ℤ◌, String, Bool, true, false, ◌&&◌, ◌||◌, not, Option, none, some, List, ◌∷◌, ◌==◌,
  if◌then◌else◌, ℤ, pos, Number, int, any, find, Result, ok, throw_if, ◌>>=◌, ◌>>◌,
}
use fuse_agent_control_plane.Domain.Policy.{
  PolicyOutcome, allow, deny, review, PolicyVersion, WorkloadEvaluationInput, PolicyEvaluationInput,
  PolicyDecisionResult,
}
use fuse_agent_control_plane.Domain.Policy.Evaluate.{evaluate_policy}
use fuse_agent_control_plane.Core.Service.{ProviderResult}

pub record AdmissionInput : Type 0 where
  pub request_id : String
  pub organization_id : String
  pub mandate_id : String
  pub agent_id : String
  pub agent_capabilities : List String
  pub provider : String
  pub model : String
  pub branch_id : Option String
  pub workload_class : Option String
  pub estimated_cost_atomic : ℤ
  pub input_tokens : Number
  pub max_output_tokens : Number
  pub request_fingerprint : String
  pub decided_at : String

-- The code's `execute`, `denied`, `in_progress`, `failed` and `completed`.
pub data AdmissionResult : Type 0 where
  to_execute : StoredPolicyDecision → ℤ → AdmissionResult
  refused : StoredPolicyDecision → AdmissionResult
  in_progress already_failed : AdmissionResult
  already_completed : StoredPolicyDecision → ℤ → ℤ → ProviderResult → AdmissionResult

-- `if (branchId && workloadClass)`: both are there and neither is the empty text.
abbrev pub named : Option String → Option String
named none = none
named (some t) = if t == "" then none else some t

abbrev pub scope : Option String → Option String → Option (String × String)
scope none class_id = none
scope (some branch) none = none
scope (some branch) (some class_id) = some (branch, class_id)

abbrev verify_found :
    Platform → Option MandateBranchRow → Result StoreError (Option MandateBranchRow)
verify_found js none = ok none
verify_found js (some b) = verify_branch_integrity js b >> ok (some b)

-- The branch's row, if there is one, and the part of the input that it gives rise to.
unfoldable pub workload_of :
    Platform
    → Store
    → ControlMandate
    → String
    → Option (String × String)
    → Result StoreError (Option MandateBranchRow × Option WorkloadEvaluationInput)
unfolding workload_input verify_branch_integrity
workload_of js s m agent none = ok (none, none)
workload_of js s m agent (some (branch, class_id)) =
    verify_found js (find (is_branch m.organization_id m.id branch) s.branches) >>= λ b.
    ok (b, some (workload_input js s m agent branch class_id b))

-- `Date.parse` of a text that has passed its test.
abbrev pub instant : Platform → String → ℤ
instant js date = elim (js.date_parse date) [ none ↦ pos 0 | some t ↦ t ]

unfoldable pub decision_input :
    Platform
    → Store
    → ControlMandate
    → AdmissionInput
    → String
    → Option WorkloadEvaluationInput
    → PolicyDecisionInput
unfolding spent_since requests_since mandate_spent
decision_input js s m input id workload =
    let now = instant js input.decided_at in
    record {
      id = id;
      request_id = input.request_id;
      organization_id = input.organization_id;
      mandate_id = input.mandate_id;
      agent_id = input.agent_id;
      agent_capabilities = input.agent_capabilities;
      provider = input.provider;
      model = input.model;
      branch_id = input.branch_id;
      workload_class = input.workload_class;
      estimated_cost_atomic = input.estimated_cost_atomic;
      input_tokens = input.input_tokens;
      max_output_tokens = input.max_output_tokens;
      spent_hour_atomic =
          spent_since js (now -ℤ pos 3600000) s.executions input.organization_id input.mandate_id;
      spent_day_atomic =
          spent_since js (now -ℤ pos 86400000) s.executions input.organization_id input.mandate_id;
      mandate_spent_atomic = mandate_spent s.executions input.organization_id input.mandate_id;
      mandate_maximum_atomic = m.maximum_spend_atomic;
      request_count_last_minute = int (
          requests_since js (now -ℤ pos 60000) s.executions input.organization_id input.mandate_id);
      workload = workload;
      exposure = none;
      decided_at = input.decided_at;
    }

-- The evaluation's input: the decision's, with what the mandate's row and the assignments say.
unfoldable pub evaluation_input :
    Platform → ControlMandate → Bool → PolicyDecisionInput → PolicyEvaluationInput
unfolding state_text
evaluation_input js m assigned d = record {
  now = d.decided_at;
  mandate_state = state_text m.state;
  mandate_expires_at = iso_of js m.expires_at;
  agent_authorized = assigned;
  agent_capabilities = d.agent_capabilities;
  provider = d.provider;
  model = d.model;
  estimated_cost_atomic = d.estimated_cost_atomic;
  input_tokens = d.input_tokens;
  max_output_tokens = d.max_output_tokens;
  spent_hour_atomic = d.spent_hour_atomic;
  spent_day_atomic = d.spent_day_atomic;
  mandate_spent_atomic = d.mandate_spent_atomic;
  mandate_maximum_atomic = d.mandate_maximum_atomic;
  request_count_last_minute = d.request_count_last_minute;
  workload = d.workload;
}

abbrev pub policy_of : Platform → PolicyVersion → PolicyVersion
policy_of js p = record p { created_at = js.to_iso p.created_at }

abbrev pub allows : PolicyOutcome → Bool
allows allow = true
allows deny = false
allows review = false

abbrev pub reservation_of : PolicyDecisionResult → ℤ → ℤ
reservation_of r estimated = if allows r.outcome then estimated else pos 0

-- Only an authorised branch has an exposure.
unfoldable pub exposure_of :
    Store
    → ControlMandate
    → PolicyVersion
    → AdmissionInput
    → Option MandateBranchRow
    → ℤ
    → Option ExposureSnapshot
unfolding branch_authorized exposure_snapshot
exposure_of s m p input none reservation = none
exposure_of s m p input (some b) reservation =
    if branch_authorized (some b) input.agent_id m
    then some (exposure_snapshot s m p b reservation)
    else none

unfoldable pub stored_decision :
    ControlMandate → PolicyDecisionResult → PolicyDecisionInput → StoredPolicyDecision
stored_decision m r d = record {
  id = d.id;
  request_id = d.request_id;
  organization_id = d.organization_id;
  mandate_id = d.mandate_id;
  agent_id = d.agent_id;
  policy_id = m.policy_id;
  policy_version = m.policy_version;
  result = r;
  input = d;
}

-- The keys of `policy_decisions` are its id and its request, in the organization.
abbrev pub clashes : StoredPolicyDecision → StoredPolicyDecision → Bool
clashes d other =
    other.organization_id == d.organization_id
    && (other.id == d.id || other.request_id == d.request_id)

unfoldable pub insert_decision : Store → StoredPolicyDecision → Result StoreError Store
insert_decision s d =
    throw_if (any (clashes d) s.decisions) unique_violation
    >> throw_if (not (is_agent s d.organization_id d.agent_id)) foreign_key_violation
    >> ok (record s { decisions = d ∷ s.decisions })

unfoldable pub execution_row :
    AdmissionInput → PolicyDecisionResult → String → InferenceExecutionRow
execution_row input r decision_id = record {
  organization_id = input.organization_id;
  request_id = input.request_id;
  mandate_id = input.mandate_id;
  agent_id = input.agent_id;
  decision_id = decision_id;
  provider = input.provider;
  model = input.model;
  branch_id = input.branch_id;
  workload_class = input.workload_class;
  request_fingerprint = input.request_fingerprint;
  status = if allows r.outcome then executing else denied;
  reserved_cost_atomic = reservation_of r input.estimated_cost_atomic;
  actual_cost_atomic = none;
  input_tokens = input.input_tokens;
  max_output_tokens = input.max_output_tokens;
  response_json = none;
  failure_code = none;
  created_at = input.decided_at;
  updated_at = input.decided_at;
}

abbrev admission_answer : PolicyDecisionResult → StoredPolicyDecision → ℤ → AdmissionResult
admission_answer r d estimated = if allows r.outcome then to_execute d estimated else refused d

-- The two rows are written, unless this is a preview.
unfoldable pub record_admission :
    Bool
    → Store
    → AdmissionInput
    → PolicyDecisionResult
    → StoredPolicyDecision
    → Result StoreError (Store × AdmissionResult)
unfolding insert_decision execution_row
record_admission true s input r d = ok (s, admission_answer r d input.estimated_cost_atomic)
record_admission false s input r d = insert_decision s d >>= λ written. ok (
  record written { executions = execution_row input r d.id ∷ written.executions },
  admission_answer r d input.estimated_cost_atomic,
)

-- The request is not known yet.
unfoldable pub admit_new :
    Platform
    → Bool
    → Store
    → ControlMandate
    → PolicyVersion
    → AdmissionInput
    → String
    → Result StoreError (Store × AdmissionResult)
unfolding workload_of decision_input evaluation_input exposure_of stored_decision record_admission
admit_new js preview_only s m p input id =
    workload_of js s m input.agent_id (scope (named input.branch_id) (named input.workload_class))
    >>= λ found.
        let d = decision_input js s m input id found.1 in
        let assigned = is_assigned s input.organization_id input.mandate_id input.agent_id in
        in_policy
          (evaluate_policy js.date_parse (policy_of js p) (evaluation_input js m assigned d))
        >>= λ r.
            let reservation = reservation_of r input.estimated_cost_atomic in
            let exposed = record d { exposure = exposure_of s m p input found.0 reservation } in
            record_admission preview_only s input r (stored_decision m r exposed)
