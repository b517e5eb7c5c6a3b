-- ===== src/Persistence/PolicyStore/Passed.antt =====
-- What the administrative calls of src/persistence/policyStore.ts have passed when they return.
use fuse_agent_control_plane.Persistence.PolicyStore.{
  control_mandate_id_required, control_mandate_organization_required, control_mandate_not_found,
  control_mandate_transition_invalid, PolicyMutationContext, ControlMandate, MandateBranchRow,
  MandateBranch, PolicyDecisionInput, StoredPolicyDecision, Store, Platform,
}
use fuse_agent_control_plane.Persistence.PolicyStore.Tables.{
  update, is_mandate, is_assigned, mandate_policy, in_policy, validate_context, set_state,
}
use fuse_agent_control_plane.Persistence.PolicyStore.Admission.{
  evaluation_input, policy_of, stored_decision, insert_decision,
}
use fuse_agent_control_plane.Persistence.PolicyStore.Mandates.{
  publish_policy, assign_agent, transition_mandate_state, is_changeable, set_policy,
  set_mandate_policy,
}
use fuse_agent_control_plane.Persistence.PolicyStore.MandateBranches.{
  CreateMandateBranchInput, sort, validate_branch, check_mandate, check_parent, branch_row,
  created_branch, insert_branch, create_branch,
}
use fuse_agent_control_plane.Persistence.PolicyStore.Decisions.{
  validate_decision_input, record_evaluation, evaluate_and_record,
}
use fuse_agent_control_plane.Base.{
  is_blank, String, ◌≡◌, ap, ◌∙◌, inl, inr, true, not, none, some, ◌∷◌, arith, Option-cases, Number,
  find, ok, throw_if, or_throw, ◌>>◌, >>-eq-ok, >>=-eq-ok, ok-injective,
}
use fuse_agent_control_plane.Domain.Policy.{PolicyVersion}
use fuse_agent_control_plane.Domain.Policy.Evaluate.{evaluate_policy}
use fuse_agent_control_plane.Domain.Lifecycles.{
  MandateState, listed, MandateState-discrete, mandate_transitions,
}

pub publish_policy-passed :
    (js : Platform) (s : Store) (p : PolicyVersion) (context : PolicyMutationContext)
    {after : Store}
    → publish_policy js s p context ≡ ok after
    → record s { policies = p ∷ s.policies } ≡ after
unfolding publish_policy validate_context
publish_policy-passed js s p context done = ground (arith)

pub assign_agent-passed :
    (js : Platform) (s : Store) (org mandate agent : String) (context : PolicyMutationContext)
    {after : Store}
    → assign_agent js s org mandate agent context ≡ ok after
    → record s {
      assignments =
          record { organization_id = org; mandate_id = mandate; agent_id = agent } ∷ s.assignments;
    }
      ≡ after
unfolding assign_agent validate_context
assign_agent-passed js s org mandate agent context done = ground (arith)

pub create_branch-passed :
    (js : Platform) (s : Store) (input : CreateMandateBranchInput) {after : Store × MandateBranch}
    → create_branch js s input ≡ ok after
    → (m : ControlMandate) × (p : PolicyVersion) × (check_parent js s input
          (sort input.allowed_workload_classes)
          m
          input.parent_branch_id
        ≡ ok tt)
      × (insert_branch s (branch_row js input (sort input.allowed_workload_classes) m) ≡ ok after.0)
      × (created_branch js input (sort input.allowed_workload_classes) m ≡ after.1)
unfolding create_branch
create_branch-passed js s input {after} done =
    let classes = sort input.allowed_workload_classes in
    let (_, rest) = >>-eq-ok (validate_branch js input classes) _ done in
    let (joined, _, more) =
      >>=-eq-ok (mandate_policy s input.organization_id input.mandate_id) _ rest in
    let (guards, last) =
      >>-eq-ok
        (check_mandate js s input classes joined.0 joined.1
          >> check_parent js s input classes joined.0 input.parent_branch_id)
        _ more in
    let (_, checked) = >>-eq-ok (check_mandate js s input classes joined.0 joined.1) _ guards in
    let (written, inserted, end) =
      >>=-eq-ok (insert_branch s (branch_row js input classes joined.0)) _ last in
    let both = ok-injective end in
    (
      joined.0,
      joined.1,
      checked,
      inserted ∙ ap ok (ap (λ (x : Store × MandateBranch). x.0) both),
      ap (λ (x : Store × MandateBranch). x.1) both,
    )

pub insert_branch-passed :
    (s : Store) (b : MandateBranchRow) {after : Store}
    → insert_branch s b ≡ ok after
    → record s { branches = b ∷ s.branches } ≡ after
unfolding insert_branch
insert_branch-passed s b done = ground (arith)

record_evaluation-passed :
    (js : Platform) (s : Store) (m : ControlMandate) (p : PolicyVersion)
    (input : PolicyDecisionInput) {after : Store × StoredPolicyDecision}
    → record_evaluation js s m p input ≡ ok after
    → (d : StoredPolicyDecision) × (insert_decision s d ≡ ok after.0)
unfolding record_evaluation
record_evaluation-passed js s m p input {after} done =
    let assigned = is_assigned s input.organization_id input.mandate_id input.agent_id in
    let evaluation = record (evaluation_input js m assigned input) { workload = none } in
    let (r, _, last) =
      >>=-eq-ok (in_policy (evaluate_policy js.date_parse (policy_of js p) evaluation)) _ done in
    let (written, inserted, end) =
      >>=-eq-ok (insert_decision s (stored_decision m r input)) _ last in
    let same : written ≡ after.0 =
      ap (λ (x : Store × StoredPolicyDecision). x.0) (ok-injective end) in
    (stored_decision m r input, inserted ∙ ap ok same)

pub evaluate_and_record-passed :
    (js : Platform) (s : Store) (input : PolicyDecisionInput) {after : Store × StoredPolicyDecision}
    → evaluate_and_record js s input ≡ ok after
    → (d : StoredPolicyDecision) × (insert_decision s d ≡ ok after.0)
unfolding evaluate_and_record
evaluate_and_record-passed js s input {after} done =
    let (_, rest) = >>-eq-ok (validate_decision_input js input) _ done in
    let (joined, _, more) =
      >>=-eq-ok (mandate_policy s input.organization_id input.mandate_id) _ rest in
    record_evaluation-passed js s joined.0 joined.1 input more

pub insert_decision-passed :
    (s : Store) (d : StoredPolicyDecision) {after : Store}
    → insert_decision s d ≡ ok after
    → record s { decisions = d ∷ s.decisions } ≡ after
unfolding insert_decision
insert_decision-passed s d done = ground (arith)

pub transition-passed :
    (js : Platform) (s : Store) (org mandate : String) (target : MandateState)
    (context : PolicyMutationContext) {after : Store}
    → transition_mandate_state js s org mandate target context ≡ ok after
    → (m : ControlMandate) × (find (is_mandate org mandate) s.mandates ≡ some m)
      × (listed MandateState-discrete target (mandate_transitions m.state) ≡ true)
      × (record s { mandates = update (is_mandate org mandate) (set_state target) s.mandates }
          ≡ after)
unfolding transition_mandate_state
transition-passed js s org mandate target context done =
    let (_, c) =
      >>-eq-ok
        (validate_context js context
          >> throw_if (is_blank org) control_mandate_organization_required
          >> throw_if (is_blank mandate) control_mandate_id_required)
        _ done in
    let (m, found, d) =
      >>=-eq-ok (or_throw (find (is_mandate org mandate) s.mandates) control_mandate_not_found) _
        c in
    let (listed_now, e) =
      >>-eq-ok
        (throw_if (not (listed MandateState-discrete target (mandate_transitions m.state)))
          (control_mandate_transition_invalid m.state target))
        _ d in
    (m, ground arith, ground arith, ok-injective e)

pub set_mandate_policy-passed :
    (js : Platform) (s : Store) (org mandate policy : String) (version : Number)
    (context : PolicyMutationContext) {after : Store}
    → set_mandate_policy js s org mandate policy version context ≡ ok after
    → (m : ControlMandate) × (find (is_mandate org mandate) s.mandates ≡ some m)
      × (is_changeable m.state ≡ true)
      × (record s {
        mandates = update (is_mandate org mandate) (set_policy policy version) s.mandates;
      }
          ≡ after)
unfolding set_mandate_policy validate_context
set_mandate_policy-passed js s org mandate policy version context done =
    elim (Option-cases (find (is_mandate org mandate) s.mandates)) [
      | inl missing ↦ absurd (ground (arith, missing))
      | inr (m, found) ↦ (m, found, ground (arith, found), ground (arith, found))
    ]
