-- ===== src/Persistence/PolicyStore/Lifetime.antt =====
-- The budget of every mandate over any sequence of calls, in src/persistence/policyStore.ts.
use fuse_agent_control_plane.Persistence.PolicyStore.{ControlMandate, Store, Platform}
use fuse_agent_control_plane.Persistence.PolicyStore.Tables.{update, is_mandate, set_state}
use fuse_agent_control_plane.Persistence.PolicyStore.Replay.{admit_inference}
use fuse_agent_control_plane.Persistence.PolicyStore.Executions.{complete_inference, hold_inference}
use fuse_agent_control_plane.Persistence.PolicyStore.Reconciliation.{resolve_reconciliation}
use fuse_agent_control_plane.Persistence.PolicyStore.Mandates.{
  publish_policy, create_mandate, assign_agent, transition_mandate_state, set_policy,
  set_mandate_policy,
}
use fuse_agent_control_plane.Persistence.PolicyStore.MandateBranches.{create_branch}
use fuse_agent_control_plane.Persistence.PolicyStore.Decisions.{evaluate_and_record}
use fuse_agent_control_plane.Persistence.PolicyStore.Budget.{
  IsWithinBudget, mandate_covered, maximum_of, KeepsMaximum, maximum_of-update,
  same_rows-IsWithinBudget,
}
use fuse_agent_control_plane.Persistence.PolicyStore.Settling.{
  complete_inference-IsWithinBudget, hold_inference-IsWithinBudget,
}
use fuse_agent_control_plane.Persistence.PolicyStore.Steps.{
  admit_inference-IsWithinBudget, fail_inference-IsWithinBudget,
}
use fuse_agent_control_plane.Persistence.PolicyStore.Resolving.{
  resolve_reconciliation-IsWithinBudget,
}
use fuse_agent_control_plane.Persistence.PolicyStore.Runs.{
  Call, publishes, creates_mandate, assigns, creates_branch, transitions, sets_policy, evaluates,
  admits, completes, holds_execution, fails, resolves, step, run, IsPlainCall, kept, first_kept,
  same_tables, create_mandate-IsWithinBudget,
}
use fuse_agent_control_plane.Persistence.PolicyStore.Passed.{
  publish_policy-passed, assign_agent-passed, create_branch-passed, insert_branch-passed,
  evaluate_and_record-passed, insert_decision-passed, transition-passed, set_mandate_policy-passed,
}
use fuse_agent_control_plane.Base.{
  String, ◌≡◌, refl, subst, Bool, List, [], ◌∷◌, arith, ◌≤ℤ◌, find, All,
}

updated_mandates-IsWithinBudget :
    (s : Store) (p : ControlMandate → Bool) (f : ControlMandate → ControlMandate) {after : Store}
    → KeepsMaximum f
    → record s { mandates = update p f s.mandates } ≡ after
    → IsWithinBudget s
    → IsWithinBudget after
updated_mandates-IsWithinBudget s p f keeps same sound = subst IsWithinBudget same (
    same_rows-IsWithinBudget s (record s { mandates = update p f s.mandates }) refl
      (λ o i. maximum_of-update p f s.mandates o i keeps) sound)

step-IsWithinBudget :
    (js : Platform) (s : Store) (call : Call)
    → IsPlainCall call
    → IsWithinBudget s
    → IsWithinBudget (step js s call)
unfolding step set_state set_policy
step-IsWithinBudget js s (publishes p context) plain sound =
    kept IsWithinBudget s (publish_policy js s p context) sound (λ after done.
      subst IsWithinBudget (publish_policy-passed js s p context done)
        (same_tables s _ refl refl sound))
step-IsWithinBudget js s (creates_mandate input) plain sound =
    kept IsWithinBudget s (create_mandate js s input) sound
      (λ after done. create_mandate-IsWithinBudget js s input done sound)
step-IsWithinBudget js s (assigns org mandate agent context) plain sound =
    kept IsWithinBudget s (assign_agent js s org mandate agent context) sound (λ after done.
      subst IsWithinBudget (assign_agent-passed js s org mandate agent context done)
        (same_tables s _ refl refl sound))
step-IsWithinBudget js s (creates_branch input) plain sound =
    first_kept IsWithinBudget s (create_branch js s input) sound (λ after done.
      let (_, _, _, inserted, _) = create_branch-passed js s input done in
      subst IsWithinBudget (insert_branch-passed s _ inserted) (same_tables s _ refl refl sound))
step-IsWithinBudget js s (transitions org mandate target context) plain sound =
    kept IsWithinBudget s (transition_mandate_state js s org mandate target context) sound
      (λ after done.
        let (_, _, _, same) = transition-passed js s org mandate target context done in
        updated_mandates-IsWithinBudget s (is_mandate org mandate) (set_state target)
          (λ m. (refl, refl, refl)) same sound)
step-IsWithinBudget js s (sets_policy org mandate policy version context) plain sound =
    kept IsWithinBudget s (set_mandate_policy js s org mandate policy version context) sound
      (λ after done.
        updated_mandates-IsWithinBudget s (is_mandate org mandate) (set_policy policy version)
          (λ m. (refl, refl, refl))
          (set_mandate_policy-passed js s org mandate policy version context done).3 sound)
step-IsWithinBudget js s (evaluates input) plain sound =
    first_kept IsWithinBudget s (evaluate_and_record js s input) sound (λ after done.
      let (d, inserted) = evaluate_and_record-passed js s input done in
      subst IsWithinBudget (insert_decision-passed s d inserted) (same_tables s _ refl refl sound))
step-IsWithinBudget js s (admits input id) plain sound =
    first_kept IsWithinBudget s (admit_inference js s input id) sound
      (λ after done. admit_inference-IsWithinBudget js s input id done sound)
step-IsWithinBudget js s (completes input) plain sound =
    first_kept IsWithinBudget s (complete_inference s input) sound
      (λ after done. complete_inference-IsWithinBudget s input done sound)
step-IsWithinBudget js s (holds_execution input) plain sound =
    kept IsWithinBudget s (hold_inference s input) sound
      (λ after done. hold_inference-IsWithinBudget s input plain done sound)
step-IsWithinBudget js s (fails org request code at) plain sound =
    fail_inference-IsWithinBudget s org request code at sound
step-IsWithinBudget js s (resolves input) plain sound =
    kept IsWithinBudget s (resolve_reconciliation js s input) sound
      (λ after done. resolve_reconciliation-IsWithinBudget js s input done sound)

run-IsWithinBudget :
    (js : Platform) (s : Store) (calls : List Call)
    → All IsPlainCall calls
    → IsWithinBudget s
    → IsWithinBudget (run js s calls)
unfolding run
run-IsWithinBudget js s [] plain sound = sound
run-IsWithinBudget js s (call ∷ calls) (first, others) sound =
    run-IsWithinBudget js (step js s call) calls others (step-IsWithinBudget js s call first sound)

-- Tables that hold organizations and agents only.
abbrev pub new_store : List String → List (String × String) → Store
new_store organizations agents = record {
  organizations = organizations;
  agents = agents;
  policies = [];
  mandates = [];
  assignments = [];
  branches = [];
  decisions = [];
  executions = [];
  resolutions = [];
  holds = [];
}

-- Whatever is called on new tables, provided that `hold_inference` is never given the reason code
-- RECONCILED_BILLED_NO_RESPONSE (which it accepts), what each mandate's executions count against it,
-- each up to its own reservation, adds up to no more than the mandate's maximum.
pub run-mandate_covered :
    (js : Platform) (organizations : List String) (agents : List (String × String))
    (calls : List Call) (org mandate : String)
    → All IsPlainCall calls
    → mandate_covered (run js (new_store organizations agents) calls).executions org mandate
      ≤ℤ maximum_of
          (find (is_mandate org mandate) (run js (new_store organizations agents) calls).mandates)
unfolding mandate_covered
run-mandate_covered js organizations agents calls org mandate plain =
    (run-IsWithinBudget js (new_store organizations agents) calls plain
        (record { rows = tt; budget = λ o m. omega arith })).budget
      org mandate
