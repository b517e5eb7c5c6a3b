-- ===== src/Persistence/PolicyStore/Finals.antt =====
-- An execution that has been denied, completed or failed is never changed again, in
-- src/persistence/policyStore.ts.
use fuse_agent_control_plane.Persistence.PolicyStore.{
  ExecutionStatus, denied, executing, completed, failed, held, StoredPolicyDecision,
  InferenceExecutionRow, Store, Platform,
}
use fuse_agent_control_plane.Persistence.PolicyStore.Tables.{
  update, is_executing, is_execution, put_on_hold, hold_mandate_for_reconciliation,
  update_execution,
}
use fuse_agent_control_plane.Persistence.PolicyStore.Admission.{
  AdmissionResult, AdmissionInput, execution_row,
}
use fuse_agent_control_plane.Persistence.PolicyStore.Replay.{
  lease_expired, expire_row, expire_if, expire_lease, completed_answer, admission_by_status,
  admit_inference,
}
use fuse_agent_control_plane.Persistence.PolicyStore.Executions.{
  CompletionPersistenceResult, CompletionInput, complete_row, complete_by_cost, fail_row,
  fail_inference,
}
use fuse_agent_control_plane.Persistence.PolicyStore.Rows.{
  find-update, find-holds, update_missing, update_unchanged,
}
use fuse_agent_control_plane.Persistence.PolicyStore.Budget.{is_unsettled, hold_mandate-cases}
use fuse_agent_control_plane.Persistence.PolicyStore.Admitted.{
  admit_new-passed, admit-passed, admit_found-cases,
}
use fuse_agent_control_plane.Persistence.PolicyStore.Spending.{recorded}
use fuse_agent_control_plane.Persistence.PolicyStore.Settling.{executing-is_unsettled}
use fuse_agent_control_plane.Persistence.PolicyStore.Steps.{find_own, replay-passed, fail_row-cases}
use fuse_agent_control_plane.Persistence.PolicyStore.Gate.{KeepsKeys}
use fuse_agent_control_plane.Persistence.PolicyStore.Gating.{fail_row-KeepsKeys}
use fuse_agent_control_plane.Base.{
  String, ◌≡◌, refl, sym, ap, subst, ◌∙◌, inl, inr, Bool, true, false, none, some, List, arith,
  eq_iff, Bool-cases, Option-cases, find, ok, >>=-eq-ok, ok-injective,
}

-- Every row that is settled before is there, the same, after.
abbrev pub KeepsSettled : List InferenceExecutionRow → List InferenceExecutionRow → Type 0
KeepsSettled before after =
    (org request : String) (e : InferenceExecutionRow)
    → find (is_execution org request) before ≡ some e
    → is_unsettled e.status ≡ false
    → find (is_execution org request) after ≡ some e

pub same_rows-KeepsSettled :
    {before after : List InferenceExecutionRow} → after ≡ before → KeepsSettled before after
same_rows-KeepsSettled same org request e found settled_now =
    ap (λ rows. find (is_execution org request) rows) same ∙ found

pub update-KeepsSettled :
    (org request : String) (f : InferenceExecutionRow → InferenceExecutionRow)
    (rows : List InferenceExecutionRow) {row : InferenceExecutionRow}
    → find (is_execution org request) rows ≡ some row
    → is_unsettled row.status ≡ true
    → ((e : InferenceExecutionRow) → KeepsKeys (f e) e)
    → KeepsSettled rows (update (is_execution org request) f rows)
update-KeepsSettled org request f rows {row} there open_now keeps o r e found settled_now =
    elim (find-update (is_execution org request) (is_execution o r) f rows
      (λ x. let (a, b, _) = keeps x in rw (a, b) refl)) [
        | inl same ↦ same ∙ found
        | inr (x, hit, asked, _) ↦
            let own = find-holds (is_execution o r) rows asked in
            let same_org : o ≡ org =
              ground (arith, eq_iff x.organization_id org, eq_iff x.organization_id o) in
            let same_request : r ≡ request =
              ground (arith, eq_iff x.request_id request, eq_iff x.request_id r) in
            let found_too : find (is_execution org request) rows ≡ some e =
              subst (λ z. find (is_execution z request) rows ≡ some e) same_org
                (subst (λ z. find (is_execution o z) rows ≡ some e) same_request found) in
            let both : some row ≡ some e = sym there ∙ found_too in
            let same : row ≡ e = cc in
            let clash : true ≡ false =
              sym open_now
              ∙ ap (λ (z : InferenceExecutionRow). is_unsettled z.status) same
              ∙ settled_now in
            cc
      ]

hold_mandate-executions :
    (s : Store) (org mandate : String) {after : Store}
    → hold_mandate_for_reconciliation s org mandate ≡ ok after
    → after.executions ≡ s.executions
unfolding put_on_hold
hold_mandate-executions s org mandate done =
    let (m, _, either) = hold_mandate-cases s org mandate done in
    elim either [
      | inl (_, same) ↦ sym (ap (λ (x : Store). x.executions) same)
      | inr (_, same) ↦ sym (ap (λ (x : Store). x.executions) same)
    ]

pub held-KeepsSettled :
    (s : Store) (org request mandate : String) (f : InferenceExecutionRow → InferenceExecutionRow)
    {e : InferenceExecutionRow} {after : Store}
    → find (is_execution org request) s.executions ≡ some e
    → is_executing e.status ≡ true
    → ((x : InferenceExecutionRow) → KeepsKeys (f x) x)
    → hold_mandate_for_reconciliation (update_execution s org request f) org mandate ≡ ok after
    → KeepsSettled s.executions after.executions
held-KeepsSettled s org request mandate f {e} found running keeps done o r x there settled_now =
    same_rows-KeepsSettled
      (hold_mandate-executions (update_execution s org request f) org mandate done) o r x
      (update-KeepsSettled org request f s.executions found (executing-is_unsettled e running) keeps
        o r x there settled_now)
      settled_now

expire_if-KeepsSettled :
    (late : Bool) (s : Store) (e : InferenceExecutionRow) (at : String)
    {after : Store × AdmissionResult}
    → find (is_execution e.organization_id e.request_id) s.executions ≡ some e
    → is_executing e.status ≡ true
    → expire_if late s e at ≡ ok after
    → KeepsSettled s.executions after.0.executions
unfolding expire_if expire_row
expire_if-KeepsSettled false s e at found running done =
    same_rows-KeepsSettled
      (sym (ap (λ (x : Store × AdmissionResult). x.0.executions) (ok-injective done)))
expire_if-KeepsSettled true s e at found running done =
    let (held_store, h, last) =
      >>=-eq-ok
        (hold_mandate_for_reconciliation
          (update_execution s e.organization_id e.request_id (expire_row at)) e.organization_id
          e.mandate_id)
        _ done in
    subst (λ (x : Store × AdmissionResult). KeepsSettled s.executions x.0.executions)
      (ok-injective last)
      (held-KeepsSettled s e.organization_id e.request_id e.mandate_id (expire_row at) found running
        (λ x. (refl, refl, refl)) h)

by_status-KeepsSettled :
    (status : ExecutionStatus) (js : Platform) (s : Store) (e : InferenceExecutionRow)
    (d : StoredPolicyDecision) (at : String) {after : Store × AdmissionResult}
    → e.status ≡ status
    → find (is_execution e.organization_id e.request_id) s.executions ≡ some e
    → admission_by_status status js s e d at ≡ ok after
    → KeepsSettled s.executions after.0.executions
unfolding admission_by_status expire_lease
by_status-KeepsSettled denied js s e d at same found done =
    same_rows-KeepsSettled
      (sym (ap (λ (x : Store × AdmissionResult). x.0.executions) (ok-injective done)))
by_status-KeepsSettled failed js s e d at same found done =
    same_rows-KeepsSettled
      (sym (ap (λ (x : Store × AdmissionResult). x.0.executions) (ok-injective done)))
by_status-KeepsSettled held js s e d at same found done =
    same_rows-KeepsSettled
      (sym (ap (λ (x : Store × AdmissionResult). x.0.executions) (ok-injective done)))
by_status-KeepsSettled completed js s e d at same found done =
    let (answer, _, last) =
      >>=-eq-ok (completed_answer d e e.response_json e.actual_cost_atomic) _ done in
    same_rows-KeepsSettled
      (sym (ap (λ (x : Store × AdmissionResult). x.0.executions) (ok-injective last)))
by_status-KeepsSettled executing js s e d at same found done =
    expire_if-KeepsSettled (lease_expired (js.date_parse at) (js.date_parse e.updated_at)) s e at
      found (rw same refl) done

pub admit_inference-KeepsSettled :
    (js : Platform) (s : Store) (input : AdmissionInput) (id : String)
    {after : Store × AdmissionResult}
    → admit_inference js s input id ≡ ok after
    → KeepsSettled s.executions after.0.executions
unfolding admit_inference execution_row
admit_inference-KeepsSettled js s input id done =
    let (m, p, found, rest) = admit-passed js false s input id done in
    elim (admit_found-cases js false s m p input id _ rest) [
      | inl (e, known, _, replayed) ↦
          let (_, _, own) = find_own input.organization_id input.request_id s.executions known in
          let (d, answered) = replay-passed js s e input.decided_at replayed in
          by_status-KeepsSettled e.status js s e d input.decided_at refl own answered
      | inr (fresh, decided) ↦
          let (r, d, _, written) = admit_new-passed js false s m p input id decided in
          let (same, _) = recorded s input r d written in
          subst (λ (x : Store). KeepsSettled s.executions x.executions) same
            (λ o q e there settled_now.
              elim (Bool-cases (is_execution o q (execution_row input r d.id))) [
                | inr other ↦ rw other there
                | inl own ↦
                    let same_org : input.organization_id ≡ o =
                      ground (arith, own, eq_iff input.organization_id o) in
                    let same_request : input.request_id ≡ q =
                      ground (arith, own, eq_iff input.request_id q) in
                    let gone : find (is_execution o q) s.executions ≡ none =
                      subst (λ z. find (is_execution z q) s.executions ≡ none) same_org
                        (subst
                          (λ z. find (is_execution input.organization_id z) s.executions ≡ none)
                          same_request fresh) in
                    let clash : some e ≡ none = sym there ∙ gone in cc
              ])
    ]

pub complete_by_cost-KeepsSettled :
    (over : Bool) (s : Store) (e : InferenceExecutionRow) (input : CompletionInput)
    {after : Store × CompletionPersistenceResult}
    → find (is_execution input.organization_id input.request_id) s.executions ≡ some e
    → is_executing e.status ≡ true
    → complete_by_cost over s e input ≡ ok after
    → KeepsSettled s.executions after.0.executions
unfolding complete_by_cost complete_row
complete_by_cost-KeepsSettled true s e input found running done =
    let (held_store, h, last) =
      >>=-eq-ok
        (hold_mandate_for_reconciliation
          (update_execution s input.organization_id input.request_id (complete_row held input))
          input.organization_id e.mandate_id)
        _ done in
    subst (λ (x : Store × CompletionPersistenceResult). KeepsSettled s.executions x.0.executions)
      (ok-injective last)
      (held-KeepsSettled s input.organization_id input.request_id e.mandate_id
        (complete_row held input) found running (λ x. (refl, refl, refl)) h)
complete_by_cost-KeepsSettled false s e input found running done =
    subst (λ (x : Store × CompletionPersistenceResult). KeepsSettled s.executions x.0.executions)
      (ok-injective done)
      (update-KeepsSettled input.organization_id input.request_id (complete_row completed input)
        s.executions found (executing-is_unsettled e running) (λ x. (refl, refl, refl)))

pub fail_inference-KeepsSettled :
    (s : Store) (org request code at : String)
    → KeepsSettled s.executions (fail_inference s org request code at).executions
unfolding fail_inference
fail_inference-KeepsSettled s org request code at =
    elim (Option-cases (find (is_execution org request) s.executions)) [
      | inl missing ↦
          same_rows-KeepsSettled
            (update_missing (is_execution org request) (fail_row code at) s.executions missing)
      | inr (row, found) ↦ elim (fail_row-cases code at row) [
        | inr (running, _) ↦
            update-KeepsSettled org request (fail_row code at) s.executions found
              (executing-is_unsettled row running) (fail_row-KeepsKeys code at)
        | inl same ↦
            same_rows-KeepsSettled (
              update_unchanged (is_execution org request) (fail_row code at) s.executions found
                same)
      ]
    ]
