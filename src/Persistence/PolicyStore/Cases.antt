-- ===== src/Persistence/PolicyStore/Cases.antt =====
-- While a reconciliation case of a mandate is open, the mandate admits no request: the invariant of
-- Gate over any sequence of calls of src/persistence/policyStore.ts.
use fuse_agent_control_plane.Persistence.PolicyStore.{
  ExecutionStatus, denied, executing, completed, failed, held, ControlMandate, StoredPolicyDecision,
  InferenceExecutionRow, Store, Platform,
}
use fuse_agent_control_plane.Persistence.PolicyStore.Tables.{is_held, is_mandate, is_execution_of}
use fuse_agent_control_plane.Persistence.PolicyStore.Admission.{to_execute, AdmissionInput}
use fuse_agent_control_plane.Persistence.PolicyStore.Replay.{admit_inference}
use fuse_agent_control_plane.Persistence.PolicyStore.Executions.{complete_inference, hold_inference}
use fuse_agent_control_plane.Persistence.PolicyStore.Reconciliation.{
  is_open_case, has_open_cases, resolve_reconciliation,
}
use fuse_agent_control_plane.Persistence.PolicyStore.Mandates.{
  publish_policy, create_mandate, assign_agent, transition_mandate_state, set_policy,
  set_mandate_policy,
}
use fuse_agent_control_plane.Persistence.PolicyStore.MandateBranches.{create_branch}
use fuse_agent_control_plane.Persistence.PolicyStore.Decisions.{evaluate_and_record}
use fuse_agent_control_plane.Persistence.PolicyStore.Runs.{
  Call, publishes, creates_mandate, assigns, creates_branch, transitions, sets_policy, evaluates,
  admits, completes, holds_execution, fails, resolves, step, run, kept, first_kept,
}
use fuse_agent_control_plane.Persistence.PolicyStore.Lifetime.{new_store}
use fuse_agent_control_plane.Persistence.PolicyStore.Passed.{
  publish_policy-passed, assign_agent-passed, create_branch-passed, insert_branch-passed,
  evaluate_and_record-passed, insert_decision-passed, set_mandate_policy-passed,
}
use fuse_agent_control_plane.Persistence.PolicyStore.Admissions.{admit_inference-mandate_spent}
use fuse_agent_control_plane.Persistence.PolicyStore.Gate.{IsGated, is_shut, placed, IsPlaced}
use fuse_agent_control_plane.Persistence.PolicyStore.Placing.{All-always}
use fuse_agent_control_plane.Persistence.PolicyStore.Gating.{
  admit_inference-IsGated, complete_inference-IsGated, hold_inference-IsGated,
  fail_inference-IsGated,
}
use fuse_agent_control_plane.Persistence.PolicyStore.Administering.{
  regated, create_mandate-IsGated, set_mandate-IsGated, transition-IsGated,
}
use fuse_agent_control_plane.Persistence.PolicyStore.Restoring.{resolve_reconciliation-IsGated}
use fuse_agent_control_plane.Base.{
  String, ◌≡◌, refl, sym, ap, subst, ◌∙◌, ◌≢◌, inl, inr, true, false, ◌&&◌, some, List, [], ◌∷◌,
  arith, eq_iff, Bool-cases, ℤ, any, find, All, ok,
}

step-IsGated : (js : Platform) (s : Store) (call : Call) → IsGated s → IsGated (step js s call)
unfolding step set_policy
step-IsGated js s (publishes p context) gated =
    kept IsGated s (publish_policy js s p context) gated (λ after done.
      subst IsGated (publish_policy-passed js s p context done)
        (regated s _ refl refl refl refl gated))
step-IsGated js s (creates_mandate input) gated =
    kept IsGated s (create_mandate js s input) gated
      (λ after done. create_mandate-IsGated js s input done gated)
step-IsGated js s (assigns org mandate agent context) gated =
    kept IsGated s (assign_agent js s org mandate agent context) gated (λ after done.
      subst IsGated (assign_agent-passed js s org mandate agent context done)
        (regated s _ refl refl refl refl gated))
step-IsGated js s (creates_branch input) gated =
    first_kept IsGated s (create_branch js s input) gated (λ after done.
      let (_, _, _, inserted, _) = create_branch-passed js s input done in
      subst IsGated (insert_branch-passed s _ inserted) (regated s _ refl refl refl refl gated))
step-IsGated js s (transitions org mandate target context) gated =
    kept IsGated s (transition_mandate_state js s org mandate target context) gated
      (λ after done. transition-IsGated js s org mandate target context done gated)
step-IsGated js s (sets_policy org mandate policy version context) gated =
    kept IsGated s (set_mandate_policy js s org mandate policy version context) gated (λ after done.
      let (m, found, _, same) =
        set_mandate_policy-passed js s org mandate policy version context done in
      subst IsGated same (
        set_mandate-IsGated s org mandate (set_policy policy version) found (λ x. (refl, refl))
          (All-always _ s.executions (λ e _ before. before)) gated))
step-IsGated js s (evaluates input) gated =
    first_kept IsGated s (evaluate_and_record js s input) gated (λ after done.
      let (d, inserted) = evaluate_and_record-passed js s input done in
      subst IsGated (insert_decision-passed s d inserted) (regated s _ refl refl refl refl gated))
step-IsGated js s (admits input id) gated =
    first_kept IsGated s (admit_inference js s input id) gated
      (λ after done. admit_inference-IsGated js s input id done gated)
step-IsGated js s (completes input) gated =
    first_kept IsGated s (complete_inference s input) gated
      (λ after done. complete_inference-IsGated s input done gated)
step-IsGated js s (holds_execution input) gated =
    kept IsGated s (hold_inference s input) gated
      (λ after done. hold_inference-IsGated s input done gated)
step-IsGated js s (fails org request code at) gated =
    fail_inference-IsGated s org request code at gated
step-IsGated js s (resolves input) gated =
    kept IsGated s (resolve_reconciliation js s input) gated
      (λ after done. resolve_reconciliation-IsGated js s input done gated)

pub run-IsGated :
    (js : Platform) (s : Store) (calls : List Call) → IsGated s → IsGated (run js s calls)
unfolding run
run-IsGated js s [] gated = gated
run-IsGated js s (call ∷ calls) gated =
    run-IsGated js (step js s call) calls (step-IsGated js s call gated)

pub new_store-IsGated :
    (organizations : List String) (agents : List (String × String))
    → IsGated (new_store organizations agents)
new_store-IsGated organizations agents = record {
  unique = tt;
  places = tt;
  unresolved = tt;
  known = λ o r _. refl;
  priors = tt;
}

open-is_shut :
    (org mandate : String) (s : Store) (rows : List InferenceExecutionRow) {m : ControlMandate}
    → find (is_mandate org mandate) s.mandates ≡ some m
    → any (λ e. is_execution_of org mandate e && is_open_case s.resolutions e) rows ≡ true
    → All (IsPlaced s.mandates) rows
    → is_shut m.state ≡ true
open-is_shut org mandate s [] found some_open every = cc
open-is_shut org mandate s (e ∷ rows) {m} found some_open (first, others) =
    elim (Bool-cases (is_execution_of org mandate e && is_open_case s.resolutions e)) [
      | inr other ↦ open-is_shut org mandate s rows found (rw other at some_open) others
      | inl own ↦
          let same_org : e.organization_id ≡ org =
            ground (arith, own, eq_iff e.organization_id org) in
          let same_mandate : e.mandate_id ≡ mandate =
            ground (arith, own, eq_iff e.mandate_id mandate) in
          let held_now : is_held e.status ≡ true = ground (arith, own) in
          let at_own : find (is_mandate e.organization_id e.mandate_id) s.mandates ≡ some m =
            subst (λ o. find (is_mandate o e.mandate_id) s.mandates ≡ some m) (sym same_org)
              (subst (λ i. find (is_mandate org i) s.mandates ≡ some m) (sym same_mandate) found) in
          held_is_shut e.status m held_now (ap (λ o. placed o e.status) (sym at_own) ∙ first)
    ]
  where
    held_is_shut :
        (status : ExecutionStatus) (m : ControlMandate)
        → is_held status ≡ true
        → placed (some m) status ≡ true
        → is_shut m.state ≡ true
    held_is_shut held m now fits = fits
    held_is_shut denied m now fits = cc
    held_is_shut executing m now fits = cc
    held_is_shut completed m now fits = cc
    held_is_shut failed m now fits = cc

-- Whatever has been called on new tables, while a reconciliation case of a mandate is open the
-- mandate is on hold, closing, closed or expired, and no request is admitted on it.
pub run-has_open_cases :
    (js : Platform) (organizations : List String) (agents : List (String × String))
    (calls : List Call) (input : AdmissionInput) (id : String) {m : ControlMandate}
    → find
        (is_mandate input.organization_id input.mandate_id)
        (run js (new_store organizations agents) calls).mandates
      ≡ some m
    → has_open_cases
        (run js (new_store organizations agents) calls)
        input.organization_id
        input.mandate_id
      ≡ true
    → (is_shut m.state ≡ true)
      × ((after : Store) (d : StoredPolicyDecision) (reservation : ℤ)
          → admit_inference js (run js (new_store organizations agents) calls) input id
            ≢ ok (after, to_execute d reservation))
unfolding has_open_cases
run-has_open_cases js organizations agents calls input id {m} found some_open =
    let s = run js (new_store organizations agents) calls in
    let gated =
      run-IsGated js (new_store organizations agents) calls
        (new_store-IsGated organizations agents) in
    let shut : (x : ControlMandate)
        → find (is_mandate input.organization_id input.mandate_id) s.mandates ≡ some x
        → is_shut x.state ≡ true =
      λ x there.
        open-is_shut input.organization_id input.mandate_id s s.executions there some_open
          gated.places in
    (
      shut m found,
      λ after d reservation done.
          let (x, there, active_now, _, _, _) = admit_inference-mandate_spent js s input id done in
          let clash : true ≡ false = sym (shut x there) ∙ ap is_shut active_now in cc,
    )
