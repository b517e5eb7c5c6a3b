-- ===== src/Persistence/PolicyStore/Replay.antt =====
-- `admissionFromExecution`, and with it `admitInference` and `previewInference`, of
-- src/persistence/policyStore.ts.
use fuse_agent_control_plane.Persistence.PolicyStore.{
  ExecutionStatus, denied, executing, completed, failed, held, StoreError,
  policy_decision_request_required, policy_decision_organization_required,
  policy_decision_mandate_required, policy_decision_agent_required, policy_decision_time_invalid,
  policy_decision_not_found, request_fingerprint_invalid, idempotency_conflict,
  inference_execution_response_missing, ControlMandate, StoredPolicyDecision, InferenceExecutionRow,
  Store, Platform,
}
use fuse_agent_control_plane.Persistence.PolicyStore.Tables.{
  is_execution, mandate_policy, hold_mandate_for_reconciliation, update_execution,
}
use fuse_agent_control_plane.Persistence.PolicyStore.Admission.{
  AdmissionResult, refused, in_progress, already_failed, already_completed, AdmissionInput,
  admit_new,
}
use fuse_agent_control_plane.Base.{
  ◌-ℤ◌, is_blank, String, Bool, true, false, ◌&&◌, not, Option, none, some, ◌==◌, is_some, ℤ, pos,
  leb_ℤ, find, Result, ok, err, throw_if, or_throw, ◌>>=◌, ◌>>◌,
}
use fuse_agent_control_plane.Domain.Policy.{PolicyVersion}
use fuse_agent_control_plane.Core.Service.{ProviderResult}
use fuse_agent_control_plane.Signer.AuthorizationStore.{is_fingerprint}

abbrev pub lease_expired : Option ℤ → Option ℤ → Bool
lease_expired none updated = false
lease_expired (some retried) none = false
lease_expired (some retried) (some updated) = leb_ℤ (pos 300000) (retried -ℤ updated)

unfoldable pub expire_row : String → InferenceExecutionRow → InferenceExecutionRow
expire_row retried_at e = record e {
  status = held;
  failure_code = some "EXECUTION_LEASE_EXPIRED";
  updated_at = retried_at;
}

unfoldable pub expire_if :
    Bool → Store → InferenceExecutionRow → String → Result StoreError (Store × AdmissionResult)
unfolding expire_row hold_mandate_for_reconciliation
expire_if false s e retried_at = ok (s, in_progress)
expire_if true s e retried_at =
    hold_mandate_for_reconciliation
      (update_execution s e.organization_id e.request_id (expire_row retried_at)) e.organization_id
      e.mandate_id
    >>= λ after. ok (after, already_failed)

-- A row that has been executing for five minutes is held, with its mandate.
unfoldable pub expire_lease :
    Platform → Store → InferenceExecutionRow → String → Result StoreError (Store × AdmissionResult)
unfolding expire_if
expire_lease js s e retried_at =
    expire_if (lease_expired (js.date_parse retried_at) (js.date_parse e.updated_at)) s e retried_at

abbrev pub completed_answer :
    StoredPolicyDecision
    → InferenceExecutionRow
    → Option ProviderResult
    → Option ℤ
    → Result StoreError AdmissionResult
completed_answer d e none actual = err inference_execution_response_missing
completed_answer d e (some response) none = err inference_execution_response_missing
completed_answer d e (some response) (some actual) =
    ok (already_completed d e.reserved_cost_atomic actual response)

unfoldable pub admission_by_status :
    ExecutionStatus
    → Platform
    → Store
    → InferenceExecutionRow
    → StoredPolicyDecision
    → String
    → Result StoreError (Store × AdmissionResult)
unfolding expire_lease
admission_by_status denied js s e d retried_at = ok (s, refused d)
admission_by_status executing js s e d retried_at = expire_lease js s e retried_at
admission_by_status failed js s e d retried_at = ok (s, already_failed)
admission_by_status held js s e d retried_at = ok (s, already_failed)
admission_by_status completed js s e d retried_at =
    completed_answer d e e.response_json e.actual_cost_atomic >>= λ answer. ok (s, answer)

unfoldable pub admission_from_execution :
    Platform → Store → InferenceExecutionRow → String → Result StoreError (Store × AdmissionResult)
unfolding admission_by_status
admission_from_execution js s e retried_at =
    or_throw
      (find (λ d. d.organization_id == e.organization_id && d.id == e.decision_id) s.decisions)
      policy_decision_not_found
    >>= λ d. admission_by_status e.status js s e d retried_at

unfoldable pub validate_admission : Platform → AdmissionInput → Result StoreError (Unit {0})
validate_admission js input =
    throw_if (is_blank input.request_id) policy_decision_request_required
    >> throw_if (is_blank input.organization_id) policy_decision_organization_required
    >> throw_if (is_blank input.mandate_id) policy_decision_mandate_required
    >> throw_if (is_blank input.agent_id) policy_decision_agent_required
    >> throw_if (not (is_fingerprint input.request_fingerprint)) request_fingerprint_invalid
    >> throw_if (not (is_some (js.date_parse input.decided_at))) policy_decision_time_invalid

unfoldable pub admit_found :
    Platform
    → Bool
    → Store
    → ControlMandate
    → PolicyVersion
    → AdmissionInput
    → String
    → Option InferenceExecutionRow
    → Result StoreError (Store × AdmissionResult)
unfolding admission_from_execution admit_new
admit_found js preview_only s m p input id none = admit_new js preview_only s m p input id
admit_found js preview_only s m p input id (some e) =
    throw_if (not (e.request_fingerprint == input.request_fingerprint)) idempotency_conflict
    >> admission_from_execution js s e input.decided_at

unfoldable pub admit :
    Platform → Bool → Store → AdmissionInput → String → Result StoreError (Store × AdmissionResult)
unfolding validate_admission admit_found
admit js preview_only s input id =
    validate_admission js input
    >> (mandate_policy s input.organization_id input.mandate_id >>= λ joined.
        admit_found js preview_only s joined.0 joined.1 input id
          (find (is_execution input.organization_id input.request_id) s.executions))

unfoldable pub admit_inference :
    Platform → Store → AdmissionInput → String → Result StoreError (Store × AdmissionResult)
unfolding admit
admit_inference js s input id = admit js false s input id

unfoldable pub preview_inference :
    Platform → Store → AdmissionInput → String → Result StoreError (Store × AdmissionResult)
unfolding admit
preview_inference js s input id = admit js true s input id
