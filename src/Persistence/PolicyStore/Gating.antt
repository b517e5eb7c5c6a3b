-- ===== src/Persistence/PolicyStore/Gating.antt =====
-- Admitting, settling and administering keep the invariant of Gate, in
-- src/persistence/policyStore.ts.
use fuse_agent_control_plane.Persistence.PolicyStore.{
  ExecutionStatus, denied, executing, completed, failed, held, hold_reason_invalid, ControlMandate,
  StoredPolicyDecision, InferenceExecutionRow, Store, Platform,
}
use fuse_agent_control_plane.Persistence.PolicyStore.Tables.{
  is_executing, is_mandate, is_execution, hold_mandate_for_reconciliation, update_execution,
}
use fuse_agent_control_plane.Persistence.PolicyStore.Admission.{
  AdmissionResult, AdmissionInput, allows, execution_row,
}
use fuse_agent_control_plane.Persistence.PolicyStore.Replay.{
  lease_expired, expire_row, expire_if, expire_lease, completed_answer, admission_by_status,
  admit_inference,
}
use fuse_agent_control_plane.Persistence.PolicyStore.Executions.{
  CompletionPersistenceResult, CompletionInput, HoldInput, complete_row, complete_by_cost,
  complete_inference, is_reason_code, hold_row, hold_inference, fail_row, fail_inference,
}
use fuse_agent_control_plane.Persistence.PolicyStore.Rows.{All-find, update_missing}
use fuse_agent_control_plane.Persistence.PolicyStore.Budget.{is_unsettled}
use fuse_agent_control_plane.Persistence.PolicyStore.Admitted.{
  Admitted, admit_new-passed, admit-passed, Admitted-within, admit_found-cases,
}
use fuse_agent_control_plane.Persistence.PolicyStore.Spending.{admitted_store, recorded}
use fuse_agent_control_plane.Persistence.PolicyStore.Settling.{complete-passed, hold_found-passed}
use fuse_agent_control_plane.Persistence.PolicyStore.Steps.{find_own, replay-passed, fail_row-cases}
use fuse_agent_control_plane.Persistence.PolicyStore.Gate.{
  IsGated, is_draft_state, fits_state, placed, IsPlaced, KeepsKeys,
}
use fuse_agent_control_plane.Persistence.PolicyStore.Placing.{update_rows-IsGated, held_row-IsGated}
use fuse_agent_control_plane.Base.{
  String, ◌≡◌, refl, sym, ap, subst, ◌∙◌, inl, inr, Bool, true, false, not, Option, none, some,
  arith, if◌then◌else◌, Bool-cases, Option-cases, find, ok, throw_if, >>-eq-ok, >>=-eq-ok,
  ok-injective,
}
use fuse_agent_control_plane.Domain.Policy.{PolicyVersion, PolicyDecisionResult}
use fuse_agent_control_plane.Domain.Lifecycles.{MandateState}

abbrev pub same_store : {A : Type 0} → Store × A → Store
same_store x = x.0

unsettled_new :
    (r : PolicyDecisionResult) (state : MandateState)
    → (allows r.outcome ≡ true → is_draft_state state ≡ false)
    → fits_state (if allows r.outcome then executing else denied) state ≡ true
unsettled_new r state ready = elim (Bool-cases (allows r.outcome)) [
  | inl now ↦
      let not_draft = ready now in
      ap (λ b. fits_state (if b then executing else denied) state) now ∙ ap not not_draft
  | inr refused_now ↦ ap (λ b. fits_state (if b then executing else denied) state) refused_now
]

admitted_store-IsGated :
    (js : Platform) (s : Store) (m : ControlMandate) (p : PolicyVersion) (input : AdmissionInput)
    (r : PolicyDecisionResult) (d : StoredPolicyDecision)
    → find (is_mandate input.organization_id input.mandate_id) s.mandates ≡ some m
    → find (is_execution input.organization_id input.request_id) s.executions ≡ none
    → Admitted js s m p input r
    → IsGated s
    → IsGated (admitted_store s input r d)
unfolding execution_row
admitted_store-IsGated js s m p input r d found fresh a gated =
    let (_, within) = Admitted-within js s m p input r a in
    let ready : allows r.outcome ≡ true → is_draft_state m.state ≡ false =
      λ now. ap is_draft_state (within now).0 in
    record {
      unique = (fresh, gated.unique);
      places = (
        ap (λ o. placed o (execution_row input r d.id).status) found
            ∙ unsettled_new r m.state ready,
        gated.places,
      );
      unresolved =
          ((λ _. gated.known input.organization_id input.request_id fresh), gated.unresolved);
      known = λ o q missing. elim (Bool-cases (is_execution o q (execution_row input r d.id))) [
        | inl own ↦ let clash : some (execution_row input r d.id) ≡ none = rw own at missing in cc
        | inr other ↦ gated.known o q (rw other at missing)
      ];
      priors = gated.priors;
    }

expire_if-IsGated :
    (late : Bool) (s : Store) (e : InferenceExecutionRow) (at : String)
    {after : Store × AdmissionResult}
    → find (is_execution e.organization_id e.request_id) s.executions ≡ some e
    → is_executing e.status ≡ true
    → expire_if late s e at ≡ ok after
    → IsGated s
    → IsGated after.0
unfolding expire_if expire_row
expire_if-IsGated false s e at found running done gated =
    subst IsGated (ap same_store (ok-injective done)) gated
expire_if-IsGated true s e at found running done gated =
    let (held_store, h, last) =
      >>=-eq-ok
        (hold_mandate_for_reconciliation
          (update_execution s e.organization_id e.request_id (expire_row at)) e.organization_id
          e.mandate_id)
        _ done in
    subst IsGated (ap same_store (ok-injective last)) (
      held_row-IsGated s e.organization_id e.request_id e.mandate_id (expire_row at) found running
        (λ x. (refl, refl, refl)) refl (refl, refl) h gated)

by_status-IsGated :
    (status : ExecutionStatus) (js : Platform) (s : Store) (e : InferenceExecutionRow)
    (d : StoredPolicyDecision) (at : String) {after : Store × AdmissionResult}
    → e.status ≡ status
    → find (is_execution e.organization_id e.request_id) s.executions ≡ some e
    → admission_by_status status js s e d at ≡ ok after
    → IsGated s
    → IsGated after.0
unfolding admission_by_status expire_lease
by_status-IsGated denied js s e d at same found done gated =
    subst IsGated (ap same_store (ok-injective done)) gated
by_status-IsGated failed js s e d at same found done gated =
    subst IsGated (ap same_store (ok-injective done)) gated
by_status-IsGated held js s e d at same found done gated =
    subst IsGated (ap same_store (ok-injective done)) gated
by_status-IsGated completed js s e d at same found done gated =
    let (answer, _, last) =
      >>=-eq-ok (completed_answer d e e.response_json e.actual_cost_atomic) _ done in
    subst IsGated (ap same_store (ok-injective last)) gated
by_status-IsGated executing js s e d at same found done gated =
    expire_if-IsGated (lease_expired (js.date_parse at) (js.date_parse e.updated_at)) s e at found
      (rw same refl) done gated

pub admit_inference-IsGated :
    (js : Platform) (s : Store) (input : AdmissionInput) (id : String)
    {after : Store × AdmissionResult}
    → admit_inference js s input id ≡ ok after
    → IsGated s
    → IsGated after.0
unfolding admit_inference
admit_inference-IsGated js s input id done gated =
    let (m, p, found, rest) = admit-passed js false s input id done in
    elim (admit_found-cases js false s m p input id _ rest) [
      | inl (e, known, _, replayed) ↦
          let (_, _, own) = find_own input.organization_id input.request_id s.executions known in
          let (d, answered) = replay-passed js s e input.decided_at replayed in
          by_status-IsGated e.status js s e d input.decided_at refl own answered gated
      | inr (fresh, decided) ↦
          let (r, d, a, written) = admit_new-passed js false s m p input id decided in
          let (same, _) = recorded s input r d written in
          subst IsGated same (admitted_store-IsGated js s m p input r d found fresh a gated)
    ]

-- A row that ends up settled asks nothing of its mandate.
settled_fits :
    (o : Option ControlMandate) (status : ExecutionStatus)
    → is_unsettled status ≡ false
    → placed o status ≡ true
settled_fits none status settled_now = ap not settled_now
settled_fits (some m) status settled_now = ground arith

pub settled_row-IsGated :
    (s : Store) (org request : String) (f : InferenceExecutionRow → InferenceExecutionRow)
    {e : InferenceExecutionRow}
    → find (is_execution org request) s.executions ≡ some e
    → ((x : InferenceExecutionRow) → KeepsKeys (f x) x)
    → is_unsettled (f e).status ≡ false
    → IsGated s
    → IsGated (update_execution s org request f)
settled_row-IsGated s org request f {e} found keeps settled_now gated =
    update_rows-IsGated s org request f found keeps
      (settled_fits (find (is_mandate e.organization_id e.mandate_id) s.mandates) (f e).status
        settled_now)
      (λ open_now. let clash : true ≡ false = sym open_now ∙ settled_now in cc) gated

complete_by_cost-IsGated :
    (over : Bool) (s : Store) (e : InferenceExecutionRow) (input : CompletionInput)
    {after : Store × CompletionPersistenceResult}
    → find (is_execution input.organization_id input.request_id) s.executions ≡ some e
    → is_executing e.status ≡ true
    → complete_by_cost over s e input ≡ ok after
    → IsGated s
    → IsGated after.0
unfolding complete_by_cost complete_row
complete_by_cost-IsGated true s e input found running done gated =
    let (held_store, h, last) =
      >>=-eq-ok
        (hold_mandate_for_reconciliation
          (update_execution s input.organization_id input.request_id (complete_row held input))
          input.organization_id e.mandate_id)
        _ done in
    let (same_org, _, _) = find_own input.organization_id input.request_id s.executions found in
    subst IsGated (ap same_store (ok-injective last)) (
      held_row-IsGated s input.organization_id input.request_id e.mandate_id
        (complete_row held input) found running (λ x. (refl, refl, refl)) refl (same_org, refl) h
        gated)
complete_by_cost-IsGated false s e input found running done gated =
    subst IsGated (ap same_store (ok-injective done)) (
      settled_row-IsGated s input.organization_id input.request_id (complete_row completed input)
        found (λ x. (refl, refl, refl)) refl gated)

pub complete_inference-IsGated :
    (s : Store) (input : CompletionInput) {after : Store × CompletionPersistenceResult}
    → complete_inference s input ≡ ok after
    → IsGated s
    → IsGated after.0
complete_inference-IsGated s input done gated =
    let (e, found, running, last) = complete-passed s input done in
    complete_by_cost-IsGated _ s e input found running last gated

pub hold_inference-IsGated :
    (s : Store) (input : HoldInput) {after : Store}
    → hold_inference s input ≡ ok after
    → IsGated s
    → IsGated after
unfolding hold_inference hold_row
hold_inference-IsGated s input done gated =
    let (_, rest) =
      >>-eq-ok (throw_if (not (is_reason_code input.reason_code)) hold_reason_invalid) _ done in
    let (e, found, running, last) =
      hold_found-passed s input
        (find (is_execution input.organization_id input.request_id) s.executions) rest in
    let (same_org, _, _) = find_own input.organization_id input.request_id s.executions found in
    held_row-IsGated s input.organization_id input.request_id e.mandate_id (hold_row input) found
      running (λ x. (refl, refl, refl)) refl (same_org, refl) last gated

pub fail_row-KeepsKeys :
    (code at : String) (e : InferenceExecutionRow) → KeepsKeys (fail_row code at e) e
fail_row-KeepsKeys code at e = elim (fail_row-cases code at e) [
  | inl same ↦ subst (λ x. KeepsKeys x e) (sym same) (refl, refl, refl)
  | inr (_, same) ↦ subst (λ x. KeepsKeys x e) (sym same) (refl, refl, refl)
]

pub fail_inference-IsGated :
    (s : Store) (org request code at : String)
    → IsGated s
    → IsGated (fail_inference s org request code at)
unfolding fail_inference
fail_inference-IsGated s org request code at gated =
    elim (Option-cases (find (is_execution org request) s.executions)) [
      | inl missing ↦
          let same =
            update_missing (is_execution org request) (fail_row code at) s.executions missing in
          subst (λ rows. IsGated (record s { executions = rows })) (sym same)
            (record {
              unique = gated.unique;
              places = gated.places;
              unresolved = gated.unresolved;
              known = gated.known;
              priors = gated.priors;
            })
      | inr (e, found) ↦ elim (fail_row-cases code at e) [
        | inr (running, same) ↦
            settled_row-IsGated s org request (fail_row code at) found (fail_row-KeepsKeys code at)
              (ap (λ (x : InferenceExecutionRow). is_unsettled x.status) same) gated
        | inl same ↦
            let (_, _, own) = find_own org request s.executions found in
            update_rows-IsGated s org request (fail_row code at) found (fail_row-KeepsKeys code at)
              (ap
                  (λ (x : InferenceExecutionRow).
                    placed (find (is_mandate e.organization_id e.mandate_id) s.mandates) x.status)
                  same
                ∙ All-find (IsPlaced s.mandates) (is_execution org request) s.executions found
                    gated.places)
              (λ open_now.
                ap (λ (x : InferenceExecutionRow). is_unsettled x.status) (sym same) ∙ open_now)
              gated
      ]
    ]
