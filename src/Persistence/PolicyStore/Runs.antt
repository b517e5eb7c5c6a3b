-- ===== src/Persistence/PolicyStore/Runs.antt =====
-- Any sequence of calls of the class PolicyStore of src/persistence/policyStore.ts on a
-- store with no mandates and executions yet.
use fuse_agent_control_plane.Persistence.PolicyStore.{
  StoreError, PolicyMutationContext, PolicyDecisionInput, Store, Platform,
}
use fuse_agent_control_plane.Persistence.PolicyStore.Tables.{is_mandate}
use fuse_agent_control_plane.Persistence.PolicyStore.Admission.{AdmissionInput}
use fuse_agent_control_plane.Persistence.PolicyStore.Replay.{admit_inference}
use fuse_agent_control_plane.Persistence.PolicyStore.Executions.{
  CompletionInput, HoldInput, complete_inference, hold_inference, fail_inference,
}
use fuse_agent_control_plane.Persistence.PolicyStore.Reconciliation.{
  ResolveReconciliationInput, resolve_reconciliation,
}
use fuse_agent_control_plane.Persistence.PolicyStore.Mandates.{
  CreateControlMandateInput, publish_policy, validate_mandate, mandate_row, create_mandate,
  assign_agent, transition_mandate_state, set_mandate_policy,
}
use fuse_agent_control_plane.Persistence.PolicyStore.MandateBranches.{
  CreateMandateBranchInput, create_branch,
}
use fuse_agent_control_plane.Persistence.PolicyStore.Decisions.{evaluate_and_record}
use fuse_agent_control_plane.Persistence.PolicyStore.Budget.{
  IsWithinBudget, mandate_covered, maximum_of, same_rows-IsWithinBudget,
}
use fuse_agent_control_plane.Persistence.PolicyStore.Settling.{IsPlainReason}
use fuse_agent_control_plane.Base.{
  String, ◌≡◌, refl, ap, subst, inl, inr, none, List, [], ◌∷◌, arith, eq_iff, Bool-cases, pos,
  Number, ◌≤ℤ◌, find, Result, ok, err, or_keep,
}
use fuse_agent_control_plane.Domain.Policy.{PolicyVersion}
use fuse_agent_control_plane.Domain.Lifecycles.{MandateState}

pub data Call : Type 0 where
  publishes : PolicyVersion → PolicyMutationContext → Call
  creates_mandate : CreateControlMandateInput → Call
  assigns : String → String → String → PolicyMutationContext → Call
  creates_branch : CreateMandateBranchInput → Call
  transitions : String → String → MandateState → PolicyMutationContext → Call
  sets_policy : String → String → String → Number → PolicyMutationContext → Call
  evaluates : PolicyDecisionInput → Call
  admits : AdmissionInput → String → Call
  completes : CompletionInput → Call
  holds_execution : HoldInput → Call
  fails : String → String → String → String → Call
  resolves : ResolveReconciliationInput → Call

abbrev pub first_or : {A : Type 0} → Store → Result StoreError (Store × A) → Store
first_or s (ok (after, a)) = after
first_or s (err e) = s

-- A call that throws leaves the tables as they were.
unfoldable pub step : Platform → Store → Call → Store
unfolding publish_policy create_mandate assign_agent create_branch transition_mandate_state
    set_mandate_policy evaluate_and_record admit_inference complete_inference hold_inference
    fail_inference resolve_reconciliation
step js s (publishes p context) = or_keep s (publish_policy js s p context)
step js s (creates_mandate input) = or_keep s (create_mandate js s input)
step js s (assigns org mandate agent context) =
    or_keep s (assign_agent js s org mandate agent context)
step js s (creates_branch input) = first_or s (create_branch js s input)
step js s (transitions org mandate target context) =
    or_keep s (transition_mandate_state js s org mandate target context)
step js s (sets_policy org mandate policy version context) =
    or_keep s (set_mandate_policy js s org mandate policy version context)
step js s (evaluates input) = first_or s (evaluate_and_record js s input)
step js s (admits input id) = first_or s (admit_inference js s input id)
step js s (completes input) = first_or s (complete_inference s input)
step js s (holds_execution input) = or_keep s (hold_inference s input)
step js s (fails org request code at) = fail_inference s org request code at
step js s (resolves input) = or_keep s (resolve_reconciliation js s input)

unfoldable pub run : Platform → Store → List Call → Store
unfolding step
run js s [] = s
run js s (call ∷ calls) = run js (step js s call) calls

-- No execution is held under the code that a settlement without a response writes.
abbrev pub IsPlainCall : Call → Type 0
IsPlainCall (holds_execution input) = IsPlainReason input.reason_code
IsPlainCall (publishes p context) = Unit {0}
IsPlainCall (creates_mandate input) = Unit {0}
IsPlainCall (assigns org mandate agent context) = Unit {0}
IsPlainCall (creates_branch input) = Unit {0}
IsPlainCall (transitions org mandate target context) = Unit {0}
IsPlainCall (sets_policy org mandate policy version context) = Unit {0}
IsPlainCall (evaluates input) = Unit {0}
IsPlainCall (admits input id) = Unit {0}
IsPlainCall (completes input) = Unit {0}
IsPlainCall (fails org request code at) = Unit {0}
IsPlainCall (resolves input) = Unit {0}

pub kept :
    (P : Store → Type 0) (s : Store) (m : Result StoreError Store)
    → P s
    → ((after : Store) → m ≡ ok after → P after)
    → P (or_keep s m)
kept P s (ok after) before next = next after refl
kept P s (err e) before next = before

pub first_kept :
    {A : Type 0} (P : Store → Type 0) (s : Store) (m : Result StoreError (Store × A))
    → P s
    → ((after : Store × A) → m ≡ ok after → P after.0)
    → P (first_or s m)
first_kept P s (ok (after, a)) before next = next (after, a) refl
first_kept P s (err e) before next = before

-- A change of other tables.
pub same_tables :
    (s after : Store)
    → after.executions ≡ s.executions
    → after.mandates ≡ s.mandates
    → IsWithinBudget s
    → IsWithinBudget after
same_tables s after rows mandates sound =
    same_rows-IsWithinBudget s after rows
      (λ org mandate. ap (λ ms. maximum_of (find (is_mandate org mandate) ms)) mandates) sound

pub create_mandate-passed :
    (js : Platform) (s : Store) (input : CreateControlMandateInput) {after : Store}
    → create_mandate js s input ≡ ok after
    → (find (is_mandate input.organization_id input.id) s.mandates ≡ none)
      × (pos 0 ≤ℤ input.maximum_spend_atomic)
      × (record s { mandates = mandate_row input ∷ s.mandates } ≡ after)
unfolding create_mandate validate_mandate
create_mandate-passed js s input {after} done = (ground (arith), ground (arith), ground (arith))

pub create_mandate-IsWithinBudget :
    (js : Platform) (s : Store) (input : CreateControlMandateInput) {after : Store}
    → create_mandate js s input ≡ ok after
    → IsWithinBudget s
    → IsWithinBudget after
unfolding mandate_row
create_mandate-IsWithinBudget js s input {after} done sound =
    let (fresh, positive, same) = create_mandate-passed js s input done in
    subst IsWithinBudget same (record {
      rows = sound.rows;
      budget = λ org mandate. elim (Bool-cases (is_mandate org mandate (mandate_row input))) [
        | inr other ↦ rw other (sound.budget org mandate)
        | inl own ↦
            let same_org : input.organization_id ≡ org =
              ground (arith, eq_iff input.organization_id org) in
            let same_mandate : input.id ≡ mandate = ground (arith, eq_iff input.id mandate) in
            let unused : find (is_mandate org mandate) s.mandates ≡ none =
              rw (← same_org, ← same_mandate) fresh in
            let empty : mandate_covered s.executions org mandate ≤ℤ pos 0 =
              rw unused at (sound.budget org mandate) in
            rw own (omega (arith, empty, positive))
      ];
    })
