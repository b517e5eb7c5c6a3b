-- ===== src/Persistence/PolicyStore/Settled.antt =====
-- Settled executions over any sequence of calls of src/persistence/policyStore.ts.
use fuse_agent_control_plane.Persistence.PolicyStore.{
  hold_reason_invalid, ControlMandate, InferenceExecutionRow, ReconciliationHold, Store, Platform,
}
use fuse_agent_control_plane.Persistence.PolicyStore.Tables.{is_execution}
use fuse_agent_control_plane.Persistence.PolicyStore.Replay.{admit_inference}
use fuse_agent_control_plane.Persistence.PolicyStore.Executions.{
  HoldInput, complete_inference, is_reason_code, hold_row, hold_inference,
}
use fuse_agent_control_plane.Persistence.PolicyStore.Reconciliation.{
  ResolveReconciliationInput, resolved_row, settled_store, without_hold, release_mandate,
  release_last, release_if_clear, resolve_reconciliation,
}
use fuse_agent_control_plane.Persistence.PolicyStore.Mandates.{
  publish_policy, create_mandate, assign_agent, transition_mandate_state, set_mandate_policy,
}
use fuse_agent_control_plane.Persistence.PolicyStore.MandateBranches.{create_branch}
use fuse_agent_control_plane.Persistence.PolicyStore.Decisions.{evaluate_and_record}
use fuse_agent_control_plane.Persistence.PolicyStore.Budget.{is_unsettled}
use fuse_agent_control_plane.Persistence.PolicyStore.Settling.{complete-passed, hold_found-passed}
use fuse_agent_control_plane.Persistence.PolicyStore.Resolving.{
  resolved_row-keyed, release_without_hold-same, release_if_clear-cases, resolve_found-cases,
  resolve-passed,
}
use fuse_agent_control_plane.Persistence.PolicyStore.Runs.{
  Call, publishes, creates_mandate, assigns, creates_branch, transitions, sets_policy, evaluates,
  admits, completes, holds_execution, fails, resolves, step, run, kept, first_kept,
  create_mandate-passed,
}
use fuse_agent_control_plane.Persistence.PolicyStore.Passed.{
  publish_policy-passed, assign_agent-passed, create_branch-passed, insert_branch-passed,
  evaluate_and_record-passed, insert_decision-passed, transition-passed, set_mandate_policy-passed,
}
use fuse_agent_control_plane.Persistence.PolicyStore.Finals.{
  KeepsSettled, same_rows-KeepsSettled, update-KeepsSettled, held-KeepsSettled,
  admit_inference-KeepsSettled, complete_by_cost-KeepsSettled, fail_inference-KeepsSettled,
}
use fuse_agent_control_plane.Base.{
  String, ◌≡◌, refl, sym, ap, subst, inl, inr, true, false, not, Option, none, some, List, [], ◌∷◌,
  arith, find, ok, throw_if, >>-eq-ok,
}
use fuse_agent_control_plane.Domain.Lifecycles.{MandateState}

release_mandate-executions :
    (state : MandateState) (s : Store) (org mandate : String) (prior : MandateState) {after : Store}
    → release_mandate state s org mandate prior ≡ ok after
    → after.executions ≡ s.executions
unfolding release_mandate without_hold
release_mandate-executions state s org mandate prior done = ground (arith)

release_last-executions :
    (s : Store) (org : String) (m : ControlMandate) (o : Option ReconciliationHold) {after : Store}
    → release_last s org m o ≡ ok after
    → after.executions ≡ s.executions
unfolding release_last
release_last-executions s org m none done =
    sym (ap (λ (x : Store). x.executions) (release_without_hold-same m.state s done))
release_last-executions s org m (some h) done =
    release_mandate-executions m.state s org m.id h.prior_state done

pub release_if_clear-executions :
    (s : Store) (org mandate : String) {after : Store}
    → release_if_clear s org mandate ≡ ok after
    → after.executions ≡ s.executions
release_if_clear-executions s org mandate done =
    let (m, _, either) = release_if_clear-cases s org mandate done in
    elim either [
      | inl (_, same) ↦ sym (ap (λ (x : Store). x.executions) same)
      | inr (_, freed) ↦ release_last-executions s org m _ freed
    ]

resolve-KeepsSettled :
    (js : Platform) (s : Store) (input : ResolveReconciliationInput) {after : Store}
    → resolve_reconciliation js s input ≡ ok after
    → KeepsSettled s.executions after.executions
unfolding settled_store
resolve-KeepsSettled js s input done =
    let (cost, e, found, rest) = resolve-passed js s input done in
    elim (resolve_found-cases s input cost e _ rest) [
      | inl same ↦ same_rows-KeepsSettled (sym (ap (λ (x : Store). x.executions) same))
      | inr (_, on_hold, last) ↦
          let change = resolved_row input.resolution cost input.context.occurred_at in
          let keeps = resolved_row-keyed input.resolution cost input.context.occurred_at in
          let open_now : is_unsettled e.status ≡ true = ground arith in
          let rows =
            release_if_clear-executions (settled_store s input cost) input.organization_id
              e.mandate_id last in
          subst (λ after_rows. KeepsSettled s.executions after_rows) (sym rows)
            (update-KeepsSettled input.organization_id input.request_id change s.executions found
              open_now keeps)
    ]

hold_inference-KeepsSettled :
    (s : Store) (input : HoldInput) {after : Store}
    → hold_inference s input ≡ ok after
    → KeepsSettled s.executions after.executions
unfolding hold_inference hold_row
hold_inference-KeepsSettled s input done =
    let (_, rest) =
      >>-eq-ok (throw_if (not (is_reason_code input.reason_code)) hold_reason_invalid) _ done in
    let (e, found, running, last) =
      hold_found-passed s input
        (find (is_execution input.organization_id input.request_id) s.executions) rest in
    held-KeepsSettled s input.organization_id input.request_id e.mandate_id (hold_row input) found
      running (λ x. (refl, refl, refl)) last

step-KeepsSettled :
    (js : Platform) (s : Store) (call : Call)
    → KeepsSettled s.executions (step js s call).executions
unfolding step
step-KeepsSettled js s (publishes p context) =
    kept (λ x. KeepsSettled s.executions x.executions) s (publish_policy js s p context)
      (same_rows-KeepsSettled refl)
      (λ after done.
        same_rows-KeepsSettled
          (sym (ap (λ (x : Store). x.executions) (publish_policy-passed js s p context done))))
step-KeepsSettled js s (creates_mandate input) =
    kept (λ x. KeepsSettled s.executions x.executions) s (create_mandate js s input)
      (same_rows-KeepsSettled refl)
      (λ after done.
        let (_, _, same) = create_mandate-passed js s input done in
        same_rows-KeepsSettled (sym (ap (λ (x : Store). x.executions) same)))
step-KeepsSettled js s (assigns org mandate agent context) =
    kept (λ x. KeepsSettled s.executions x.executions) s
      (assign_agent js s org mandate agent context) (same_rows-KeepsSettled refl)
      (λ after done. same_rows-KeepsSettled (
        sym (
          ap (λ (x : Store). x.executions)
            (assign_agent-passed js s org mandate agent context done))))
step-KeepsSettled js s (creates_branch input) =
    first_kept (λ x. KeepsSettled s.executions x.executions) s (create_branch js s input)
      (same_rows-KeepsSettled refl)
      (λ after done.
        let (_, _, _, inserted, _) = create_branch-passed js s input done in
        same_rows-KeepsSettled
          (sym (ap (λ (x : Store). x.executions) (insert_branch-passed s _ inserted))))
step-KeepsSettled js s (transitions org mandate target context) =
    kept (λ x. KeepsSettled s.executions x.executions) s
      (transition_mandate_state js s org mandate target context) (same_rows-KeepsSettled refl)
      (λ after done.
        let (_, _, _, same) = transition-passed js s org mandate target context done in
        same_rows-KeepsSettled (sym (ap (λ (x : Store). x.executions) same)))
step-KeepsSettled js s (sets_policy org mandate policy version context) =
    kept (λ x. KeepsSettled s.executions x.executions) s
      (set_mandate_policy js s org mandate policy version context) (same_rows-KeepsSettled refl)
      (λ after done.
        let (_, _, _, same) =
          set_mandate_policy-passed js s org mandate policy version context done in
        same_rows-KeepsSettled (sym (ap (λ (x : Store). x.executions) same)))
step-KeepsSettled js s (evaluates input) =
    first_kept (λ x. KeepsSettled s.executions x.executions) s (evaluate_and_record js s input)
      (same_rows-KeepsSettled refl)
      (λ after done.
        let (d, inserted) = evaluate_and_record-passed js s input done in
        same_rows-KeepsSettled
          (sym (ap (λ (x : Store). x.executions) (insert_decision-passed s d inserted))))
step-KeepsSettled js s (admits input id) =
    first_kept (λ x. KeepsSettled s.executions x.executions) s (admit_inference js s input id)
      (same_rows-KeepsSettled refl) (λ after done. admit_inference-KeepsSettled js s input id done)
step-KeepsSettled js s (completes input) =
    first_kept (λ x. KeepsSettled s.executions x.executions) s (complete_inference s input)
      (same_rows-KeepsSettled refl)
      (λ after done.
        let (e, found, running, last) = complete-passed s input done in
        complete_by_cost-KeepsSettled _ s e input found running last)
step-KeepsSettled js s (holds_execution input) =
    kept (λ x. KeepsSettled s.executions x.executions) s (hold_inference s input)
      (same_rows-KeepsSettled refl) (λ after done. hold_inference-KeepsSettled s input done)
step-KeepsSettled js s (fails org request code at) =
    fail_inference-KeepsSettled s org request code at
step-KeepsSettled js s (resolves input) =
    kept (λ x. KeepsSettled s.executions x.executions) s (resolve_reconciliation js s input)
      (same_rows-KeepsSettled refl) (λ after done. resolve-KeepsSettled js s input done)

-- Whatever is called afterwards, an execution that has been denied, completed or failed keeps its
-- row as it is, with its status, its costs, its response and its failure code.
pub run-KeepsSettled :
    (js : Platform) (s : Store) (calls : List Call) (org request : String)
    {e : InferenceExecutionRow}
    → find (is_execution org request) s.executions ≡ some e
    → is_unsettled e.status ≡ false
    → find (is_execution org request) (run js s calls).executions ≡ some e
unfolding run
run-KeepsSettled js s [] org request found settled_now = found
run-KeepsSettled js s (call ∷ calls) org request {e} found settled_now =
    run-KeepsSettled js (step js s call) calls org request
      (step-KeepsSettled js s call org request e found settled_now) settled_now
