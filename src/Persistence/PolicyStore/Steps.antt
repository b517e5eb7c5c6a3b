-- ===== src/Persistence/PolicyStore/Steps.antt =====
-- Each operation of src/persistence/policyStore.ts keeps the budgets of the mandates.
use fuse_agent_control_plane.Persistence.PolicyStore.{
  ExecutionStatus, denied, executing, completed, failed, held, policy_decision_not_found,
  StoredPolicyDecision, InferenceExecutionRow, Store, Platform,
}
use fuse_agent_control_plane.Persistence.PolicyStore.Tables.{
  is_executing, is_execution, hold_mandate_for_reconciliation, update_execution,
}
use fuse_agent_control_plane.Persistence.PolicyStore.Admission.{AdmissionResult, AdmissionInput}
use fuse_agent_control_plane.Persistence.PolicyStore.Replay.{
  lease_expired, expire_row, expire_if, expire_lease, completed_answer, admission_by_status,
  admission_from_execution, admit_inference,
}
use fuse_agent_control_plane.Persistence.PolicyStore.Executions.{
  failed_row, fail_row, fail_inference,
}
use fuse_agent_control_plane.Persistence.PolicyStore.Rows.{find-holds, update_missing}
use fuse_agent_control_plane.Persistence.PolicyStore.Budget.{
  IsWithinBudget, covered_charge, IsPlain, same_rows-IsWithinBudget,
  update_execution-IsWithinBudget,
}
use fuse_agent_control_plane.Persistence.PolicyStore.Admitted.{
  admit_new-passed, admit-passed, admit_found-cases,
}
use fuse_agent_control_plane.Persistence.PolicyStore.Spending.{
  recorded, admitted_store-IsWithinBudget,
}
use fuse_agent_control_plane.Persistence.PolicyStore.Settling.{
  rewritten, executing-is_unsettled, hold_rows-IsWithinBudget,
}
use fuse_agent_control_plane.Base.{
  String, ◌≡◌, refl, sym, ap, subst, ◌⊎◌, inl, inr, Bool, true, false, ◌&&◌, some, List, arith,
  ◌==◌, eq_iff, if◌then◌else◌, Bool-cases, Option-cases, ◌≤ℤ◌, find, ok, or_throw, >>=-eq-ok,
  ok-injective,
}

expire_if-IsWithinBudget :
    (late : Bool) (s : Store) (e : InferenceExecutionRow) (at : String)
    {after : Store × AdmissionResult}
    → find (is_execution e.organization_id e.request_id) s.executions ≡ some e
    → is_executing e.status ≡ true
    → expire_if late s e at ≡ ok after
    → IsWithinBudget s
    → IsWithinBudget after.0
unfolding expire_if expire_row
expire_if-IsWithinBudget false s e at {after} found running done sound =
    subst IsWithinBudget (ap (λ (x : Store × AdmissionResult). x.0) (ok-injective done)) sound
expire_if-IsWithinBudget true s e at {after} found running done sound =
    let (held_store, h, last) =
      >>=-eq-ok
        (hold_mandate_for_reconciliation
          (update_execution s e.organization_id e.request_id (expire_row at)) e.organization_id
          e.mandate_id)
        _ done in
    subst IsWithinBudget (ap (λ (x : Store × AdmissionResult). x.0) (ok-injective last)) (
      hold_rows-IsWithinBudget s e.organization_id e.request_id e.mandate_id (expire_row at) found
        (executing-is_unsettled e running) (refl, refl, refl) (λ q. refl) h sound)

by_status-IsWithinBudget :
    (status : ExecutionStatus) (js : Platform) (s : Store) (e : InferenceExecutionRow)
    (d : StoredPolicyDecision) (at : String) {after : Store × AdmissionResult}
    → e.status ≡ status
    → find (is_execution e.organization_id e.request_id) s.executions ≡ some e
    → admission_by_status status js s e d at ≡ ok after
    → IsWithinBudget s
    → IsWithinBudget after.0
unfolding admission_by_status expire_lease
by_status-IsWithinBudget denied js s e d at same found done sound =
    subst IsWithinBudget (ap (λ (x : Store × AdmissionResult). x.0) (ok-injective done)) sound
by_status-IsWithinBudget failed js s e d at same found done sound =
    subst IsWithinBudget (ap (λ (x : Store × AdmissionResult). x.0) (ok-injective done)) sound
by_status-IsWithinBudget held js s e d at same found done sound =
    subst IsWithinBudget (ap (λ (x : Store × AdmissionResult). x.0) (ok-injective done)) sound
by_status-IsWithinBudget completed js s e d at same found done sound =
    let (answer, _, last) =
      >>=-eq-ok (completed_answer d e e.response_json e.actual_cost_atomic) _ done in
    subst IsWithinBudget (ap (λ (x : Store × AdmissionResult). x.0) (ok-injective last)) sound
by_status-IsWithinBudget executing js s e d at same found done sound =
    expire_if-IsWithinBudget (lease_expired (js.date_parse at) (js.date_parse e.updated_at)) s e at
      found (rw same refl) done sound

-- A row found under a key is found under its own.
pub find_own :
    (org request : String) (rows : List InferenceExecutionRow) {e : InferenceExecutionRow}
    → find (is_execution org request) rows ≡ some e
    → (e.organization_id ≡ org)
      × (e.request_id ≡ request)
      × (find (is_execution e.organization_id e.request_id) rows ≡ some e)
find_own org request rows {e} found =
    let keyed = find-holds (is_execution org request) rows found in
    let same_org : e.organization_id ≡ org = ground (arith, eq_iff e.organization_id org) in
    let same_request : e.request_id ≡ request = ground (arith, eq_iff e.request_id request) in
    (
      same_org,
      same_request,
      subst (λ o. find (is_execution o e.request_id) rows ≡ some e) (sym same_org)
          (subst (λ r. find (is_execution org r) rows ≡ some e) (sym same_request) found),
    )

-- An admission from a row that is there is decided by the row's status.
pub replay-passed :
    (js : Platform) (s : Store) (e : InferenceExecutionRow) (at : String)
    {after : Store × AdmissionResult}
    → admission_from_execution js s e at ≡ ok after
    → (d : StoredPolicyDecision) × (admission_by_status e.status js s e d at ≡ ok after)
unfolding admission_from_execution
replay-passed js s e at done =
    let (d, _, last) =
      >>=-eq-ok
        (or_throw
          (find (λ d. d.organization_id == e.organization_id && d.id == e.decision_id) s.decisions)
          policy_decision_not_found)
        _ done in
    (d, last)

pub admit_inference-IsWithinBudget :
    (js : Platform) (s : Store) (input : AdmissionInput) (id : String)
    {after : Store × AdmissionResult}
    → admit_inference js s input id ≡ ok after
    → IsWithinBudget s
    → IsWithinBudget after.0
unfolding admit_inference
admit_inference-IsWithinBudget js s input id {after} done sound =
    let (m, p, found, rest) = admit-passed js false s input id done in
    elim (admit_found-cases js false s m p input id _ rest) [
      | inl (e, known, _, replayed) ↦
          let (_, _, own) = find_own input.organization_id input.request_id s.executions known in
          let (d, answered) = replay-passed js s e input.decided_at replayed in
          by_status-IsWithinBudget e.status js s e d input.decided_at refl own answered sound
      | inr (fresh, decided) ↦
          let (r, d, a, written) = admit_new-passed js false s m p input id decided in
          let (same, _) = recorded s input r d written in
          subst IsWithinBudget same (admitted_store-IsWithinBudget js s m p input r d found a sound)
    ]

-- What failing does to a row: nothing, unless it is executing.
pub fail_row-cases :
    (code at : String) (e : InferenceExecutionRow)
    → (fail_row code at e ≡ e)
      ⊎ (is_executing e.status ≡ true) × (fail_row code at e ≡ failed_row code at e)
unfolding fail_row
fail_row-cases code at e = elim (Bool-cases (is_executing e.status)) [
  | inl running ↦ inr (running, ap (λ b. if b then failed_row code at e else e) running)
  | inr settled ↦ inl (ap (λ b. if b then failed_row code at e else e) settled)
]

pub fail_inference-IsWithinBudget :
    (s : Store) (org request code at : String)
    → IsWithinBudget s
    → IsWithinBudget (fail_inference s org request code at)
unfolding fail_inference
fail_inference-IsWithinBudget s org request code at sound =
    elim (Option-cases (find (is_execution org request) s.executions)) [
      | inl missing ↦
          same_rows-IsWithinBudget s (update_execution s org request (fail_row code at))
            (update_missing (is_execution org request) (fail_row code at) s.executions missing)
            (λ o m. refl) sound
      | inr (e, found) ↦ elim (fail_row-cases code at e) [
        | inr (running, same) ↦
            update_execution-IsWithinBudget s org request (fail_row code at) found
              (
                ap (λ (r : InferenceExecutionRow). r.organization_id) same,
                ap (λ (r : InferenceExecutionRow). r.mandate_id) same,
              )
              (subst (λ r. IsPlain e → IsPlain r × (covered_charge r ≤ℤ covered_charge e))
                (sym same)
                (rewritten e (failed_row code at e) (executing-is_unsettled e running) refl
                  (λ h. cc)))
              sound
        | inl same ↦
            update_execution-IsWithinBudget s org request (fail_row code at) found
              (
                ap (λ (r : InferenceExecutionRow). r.organization_id) same,
                ap (λ (r : InferenceExecutionRow). r.mandate_id) same,
              )
              (subst (λ r. IsPlain e → IsPlain r × (covered_charge r ≤ℤ covered_charge e))
                (sym same) (λ q. (q, omega arith)))
              sound
      ]
    ]
