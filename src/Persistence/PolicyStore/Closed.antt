-- ===== src/Persistence/PolicyStore/Closed.antt =====
-- A mandate that is closed in src/persistence/policyStore.ts stays as it is.
use fuse_agent_control_plane.Persistence.PolicyStore.{
  PolicyMutationContext, ControlMandate, ReconciliationHold, Store, Platform,
}
use fuse_agent_control_plane.Persistence.PolicyStore.Tables.{is_mandate, set_state}
use fuse_agent_control_plane.Persistence.PolicyStore.Replay.{admit_inference}
use fuse_agent_control_plane.Persistence.PolicyStore.Executions.{
  complete_inference, hold_inference, fail_inference,
}
use fuse_agent_control_plane.Persistence.PolicyStore.Reconciliation.{
  ResolveReconciliationInput, settled_store, restored_state, without_hold, release_mandate,
  release_last, resolve_reconciliation,
}
use fuse_agent_control_plane.Persistence.PolicyStore.Mandates.{
  CreateControlMandateInput, publish_policy, mandate_row, create_mandate, assign_agent,
  transition_mandate_state, is_changeable, set_policy, set_mandate_policy,
}
use fuse_agent_control_plane.Persistence.PolicyStore.MandateBranches.{create_branch}
use fuse_agent_control_plane.Persistence.PolicyStore.Decisions.{evaluate_and_record}
use fuse_agent_control_plane.Persistence.PolicyStore.Rows.{find-holds}
use fuse_agent_control_plane.Persistence.PolicyStore.Settling.{complete-passed}
use fuse_agent_control_plane.Persistence.PolicyStore.Resolving.{
  release_without_hold-same, release_if_clear-cases, resolve_found-cases, resolve-passed,
}
use fuse_agent_control_plane.Persistence.PolicyStore.Runs.{
  Call, publishes, creates_mandate, assigns, creates_branch, transitions, sets_policy, evaluates,
  admits, completes, holds_execution, fails, resolves, step, run, kept, first_kept,
  create_mandate-passed,
}
use fuse_agent_control_plane.Persistence.PolicyStore.Passed.{
  publish_policy-passed, assign_agent-passed, create_branch-passed, insert_branch-passed,
  evaluate_and_record-passed, insert_decision-passed, transition-passed, set_mandate_policy-passed,
}
use fuse_agent_control_plane.Base.{
  String, ◌≡◌, refl, sym, ap, subst, ◌∙◌, inl, inr, true, false, Option, none, some, List, [], ◌∷◌,
  arith, eq_iff, Bool-cases, Number, find, ok, ok-injective,
}
use fuse_agent_control_plane.Domain.Lifecycles.{
  MandateState, draft, active, paused, closing, closed, exhausted, tripped, lapsed,
  reconciliation_hold, listed, MandateState-discrete, mandate_transitions,
}
use fuse_agent_control_plane.Persistence.PolicyStore.Shutting.{
  KeepsClosed, same-KeepsClosed, update-KeepsClosed, admit_inference-KeepsClosed,
  complete_by_cost-KeepsClosed, hold_inference-KeepsClosed,
}

release_mandate-KeepsClosed :
    (state : MandateState) (s : Store) (org mandate : String) (prior : MandateState)
    {m : ControlMandate} {after : Store}
    → find (is_mandate org mandate) s.mandates ≡ some m
    → m.state ≡ state
    → release_mandate state s org mandate prior ≡ ok after
    → KeepsClosed s.mandates after.mandates
unfolding release_mandate without_hold set_state
release_mandate-KeepsClosed reconciliation_hold s org mandate prior found on_hold done =
    subst (λ (x : Store). KeepsClosed s.mandates x.mandates) (ok-injective done)
      (update-KeepsClosed org mandate (set_state (restored_state prior)) s.mandates found
        (λ shut. let clash = sym on_hold ∙ shut in absurd (ground arith)) (λ x. (refl, refl)))
release_mandate-KeepsClosed closing s org mandate prior found now done =
    same-KeepsClosed (ap (λ (x : Store). x.mandates) (ok-injective done))
release_mandate-KeepsClosed draft s org mandate prior found now done = cc
release_mandate-KeepsClosed active s org mandate prior found now done = cc
release_mandate-KeepsClosed paused s org mandate prior found now done = cc
release_mandate-KeepsClosed closed s org mandate prior found now done = cc
release_mandate-KeepsClosed exhausted s org mandate prior found now done = cc
release_mandate-KeepsClosed tripped s org mandate prior found now done = cc
release_mandate-KeepsClosed lapsed s org mandate prior found now done = cc

release_last-KeepsClosed :
    (s : Store) (org mandate : String) {m : ControlMandate} (o : Option ReconciliationHold)
    {after : Store}
    → find (is_mandate org mandate) s.mandates ≡ some m
    → release_last s org m o ≡ ok after
    → KeepsClosed s.mandates after.mandates
unfolding release_last
release_last-KeepsClosed s org mandate {m} none found done =
    same-KeepsClosed (ap (λ (x : Store). x.mandates) (release_without_hold-same m.state s done))
release_last-KeepsClosed s org mandate {m} (some h) found done =
    let own = find-holds (is_mandate org mandate) s.mandates found in
    let named_id : m.id ≡ mandate = ground (arith, eq_iff m.id mandate) in
    release_mandate-KeepsClosed m.state s org m.id h.prior_state
      (subst (λ z. find (is_mandate org z) s.mandates ≡ some m) (sym named_id) found) refl done

resolve-KeepsClosed :
    (js : Platform) (s : Store) (input : ResolveReconciliationInput) {after : Store}
    → resolve_reconciliation js s input ≡ ok after
    → KeepsClosed s.mandates after.mandates
unfolding settled_store
resolve-KeepsClosed js s input done =
    let (cost, e, found, rest) = resolve-passed js s input done in
    elim (resolve_found-cases s input cost e _ rest) [
      | inl same ↦ same-KeepsClosed (ap (λ (x : Store). x.mandates) same)
      | inr (_, _, last) ↦
          let left = settled_store s input cost in
          let (m, owner, either) =
            release_if_clear-cases left input.organization_id e.mandate_id last in
          elim either [
            | inl (_, same) ↦ same-KeepsClosed (ap (λ (x : Store). x.mandates) same)
            | inr (_, freed) ↦
                release_last-KeepsClosed left input.organization_id e.mandate_id _ owner freed
          ]
    ]

create_mandate-KeepsClosed :
    (js : Platform) (s : Store) (input : CreateControlMandateInput) {after : Store}
    → create_mandate js s input ≡ ok after
    → KeepsClosed s.mandates after.mandates
unfolding mandate_row
create_mandate-KeepsClosed js s input done =
    let (fresh, _, same) = create_mandate-passed js s input done in
    subst (λ (x : Store). KeepsClosed s.mandates x.mandates) same
      (λ o i m there shut. elim (Bool-cases (is_mandate o i (mandate_row input))) [
        | inr other ↦ rw other there
        | inl own ↦
            let same_org : input.organization_id ≡ o =
              ground (arith, own, eq_iff input.organization_id o) in
            let same_id : input.id ≡ i = ground (arith, own, eq_iff input.id i) in
            let gone : find (is_mandate o i) s.mandates ≡ none =
              subst (λ z. find (is_mandate z i) s.mandates ≡ none) same_org
                (subst (λ z. find (is_mandate input.organization_id z) s.mandates ≡ none) same_id
                  fresh) in
            let clash : some m ≡ none = sym there ∙ gone in cc
      ])

transition-KeepsClosed :
    (js : Platform) (s : Store) (org mandate : String) (target : MandateState)
    (context : PolicyMutationContext) {after : Store}
    → transition_mandate_state js s org mandate target context ≡ ok after
    → KeepsClosed s.mandates after.mandates
unfolding set_state mandate_transitions
transition-KeepsClosed js s org mandate target context done =
    let (m, found, listed_now, same) = transition-passed js s org mandate target context done in
    subst (λ (x : Store). KeepsClosed s.mandates x.mandates) same
      (update-KeepsClosed org mandate (set_state target) s.mandates found
        (λ shut.
          let clash : true ≡ false =
            sym listed_now
            ∙ ap (λ z. listed MandateState-discrete target (mandate_transitions z)) shut in
          cc)
        (λ x. (refl, refl)))

set_mandate_policy-KeepsClosed :
    (js : Platform) (s : Store) (org mandate policy : String) (version : Number)
    (context : PolicyMutationContext) {after : Store}
    → set_mandate_policy js s org mandate policy version context ≡ ok after
    → KeepsClosed s.mandates after.mandates
unfolding set_policy
set_mandate_policy-KeepsClosed js s org mandate policy version context done =
    let (m, found, changeable, same) =
      set_mandate_policy-passed js s org mandate policy version context done in
    subst (λ (x : Store). KeepsClosed s.mandates x.mandates) same
      (update-KeepsClosed org mandate (set_policy policy version) s.mandates found
        (λ shut. let clash : true ≡ false = sym changeable ∙ ap is_changeable shut in cc)
        (λ x. (refl, refl)))

step-KeepsClosed :
    (js : Platform) (s : Store) (call : Call) → KeepsClosed s.mandates (step js s call).mandates
unfolding step fail_inference
step-KeepsClosed js s (publishes p context) =
    kept (λ x. KeepsClosed s.mandates x.mandates) s (publish_policy js s p context)
      (same-KeepsClosed refl)
      (λ after done.
        same-KeepsClosed
          (ap (λ (x : Store). x.mandates) (publish_policy-passed js s p context done)))
step-KeepsClosed js s (creates_mandate input) =
    kept (λ x. KeepsClosed s.mandates x.mandates) s (create_mandate js s input)
      (same-KeepsClosed refl) (λ after done. create_mandate-KeepsClosed js s input done)
step-KeepsClosed js s (assigns org mandate agent context) =
    kept (λ x. KeepsClosed s.mandates x.mandates) s (assign_agent js s org mandate agent context)
      (same-KeepsClosed refl)
      (λ after done.
        same-KeepsClosed (
          ap (λ (x : Store). x.mandates) (assign_agent-passed js s org mandate agent context done)))
step-KeepsClosed js s (creates_branch input) =
    first_kept (λ x. KeepsClosed s.mandates x.mandates) s (create_branch js s input)
      (same-KeepsClosed refl)
      (λ after done.
        let (_, _, _, inserted, _) = create_branch-passed js s input done in
        same-KeepsClosed (ap (λ (x : Store). x.mandates) (insert_branch-passed s _ inserted)))
step-KeepsClosed js s (transitions org mandate target context) =
    kept (λ x. KeepsClosed s.mandates x.mandates) s
      (transition_mandate_state js s org mandate target context) (same-KeepsClosed refl)
      (λ after done. transition-KeepsClosed js s org mandate target context done)
step-KeepsClosed js s (sets_policy org mandate policy version context) =
    kept (λ x. KeepsClosed s.mandates x.mandates) s
      (set_mandate_policy js s org mandate policy version context) (same-KeepsClosed refl)
      (λ after done. set_mandate_policy-KeepsClosed js s org mandate policy version context done)
step-KeepsClosed js s (evaluates input) =
    first_kept (λ x. KeepsClosed s.mandates x.mandates) s (evaluate_and_record js s input)
      (same-KeepsClosed refl)
      (λ after done.
        let (d, inserted) = evaluate_and_record-passed js s input done in
        same-KeepsClosed (ap (λ (x : Store). x.mandates) (insert_decision-passed s d inserted)))
step-KeepsClosed js s (admits input id) =
    first_kept (λ x. KeepsClosed s.mandates x.mandates) s (admit_inference js s input id)
      (same-KeepsClosed refl) (λ after done. admit_inference-KeepsClosed js s input id done)
step-KeepsClosed js s (completes input) =
    first_kept (λ x. KeepsClosed s.mandates x.mandates) s (complete_inference s input)
      (same-KeepsClosed refl)
      (λ after done.
        let (e, _, _, last) = complete-passed s input done in
        complete_by_cost-KeepsClosed _ s e input last)
step-KeepsClosed js s (holds_execution input) =
    kept (λ x. KeepsClosed s.mandates x.mandates) s (hold_inference s input) (same-KeepsClosed refl)
      (λ after done. hold_inference-KeepsClosed s input done)
step-KeepsClosed js s (fails org request code at) = same-KeepsClosed refl
step-KeepsClosed js s (resolves input) =
    kept (λ x. KeepsClosed s.mandates x.mandates) s (resolve_reconciliation js s input)
      (same-KeepsClosed refl) (λ after done. resolve-KeepsClosed js s input done)

-- Whatever is called on the store afterwards, a mandate that is closed keeps its row as it is: it is
-- never active again, nor put on hold, and its budget and its policy do not change.
pub run-KeepsClosed :
    (js : Platform) (s : Store) (calls : List Call) (org mandate : String) {m : ControlMandate}
    → find (is_mandate org mandate) s.mandates ≡ some m
    → m.state ≡ closed
    → find (is_mandate org mandate) (run js s calls).mandates ≡ some m
unfolding run
run-KeepsClosed js s [] org mandate found shut = found
run-KeepsClosed js s (call ∷ calls) org mandate {m} found shut =
    run-KeepsClosed js (step js s call) calls org mandate
      (step-KeepsClosed js s call org mandate m found shut) shut
