-- ===== src/Persistence/PolicyStore/Decisions.antt =====
-- `evaluateAndRecord` of src/persistence/policyStore.ts. The evaluation gets no
-- workload, and the spending counters are the caller's.
use fuse_agent_control_plane.Persistence.PolicyStore.{
  StoreError, policy_decision_id_required, policy_decision_request_required,
  policy_decision_organization_required, policy_decision_mandate_required,
  policy_decision_agent_required, policy_decision_time_invalid, ControlMandate, PolicyDecisionInput,
  StoredPolicyDecision, Store, Platform,
}
use fuse_agent_control_plane.Persistence.PolicyStore.Tables.{is_assigned, mandate_policy, in_policy}
use fuse_agent_control_plane.Persistence.PolicyStore.Admission.{
  evaluation_input, policy_of, stored_decision, insert_decision,
}
use fuse_agent_control_plane.Base.{is_blank, not, none, is_some, Result, ok, throw_if, ◌>>=◌, ◌>>◌}
use fuse_agent_control_plane.Domain.Policy.{PolicyVersion}
use fuse_agent_control_plane.Domain.Policy.Evaluate.{evaluate_policy}

unfoldable pub validate_decision_input :
    Platform → PolicyDecisionInput → Result StoreError (Unit {0})
validate_decision_input js input =
    throw_if (is_blank input.id) policy_decision_id_required
    >> throw_if (is_blank input.request_id) policy_decision_request_required
    >> throw_if (is_blank input.organization_id) policy_decision_organization_required
    >> throw_if (is_blank input.mandate_id) policy_decision_mandate_required
    >> throw_if (is_blank input.agent_id) policy_decision_agent_required
    >> throw_if (not (is_some (js.date_parse input.decided_at))) policy_decision_time_invalid

unfoldable pub record_evaluation :
    Platform
    → Store
    → ControlMandate
    → PolicyVersion
    → PolicyDecisionInput
    → Result StoreError (Store × StoredPolicyDecision)
unfolding evaluation_input stored_decision insert_decision
record_evaluation js s m p input =
    let assigned = is_assigned s input.organization_id input.mandate_id input.agent_id in
    let evaluation = record (evaluation_input js m assigned input) { workload = none } in
    in_policy (evaluate_policy js.date_parse (policy_of js p) evaluation) >>= λ r.
    insert_decision s (stored_decision m r input) >>= λ after. ok (after, stored_decision m r input)

unfoldable pub evaluate_and_record :
    Platform → Store → PolicyDecisionInput → Result StoreError (Store × StoredPolicyDecision)
unfolding validate_decision_input record_evaluation
evaluate_and_record js s input =
    validate_decision_input js input
    >> (mandate_policy s input.organization_id input.mandate_id >>= λ joined.
        record_evaluation js s joined.0 joined.1 input)
