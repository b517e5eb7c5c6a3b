-- ===== src/Persistence/PolicyStore/Shutting.antt =====
-- The calls on an execution, in src/persistence/policyStore.ts, leave a closed mandate as it is.
use fuse_agent_control_plane.Persistence.PolicyStore.{
  ExecutionStatus, denied, executing, completed, failed, held, hold_reason_invalid, ControlMandate,
  StoredPolicyDecision, InferenceExecutionRow, Store, Platform,
}
use fuse_agent_control_plane.Persistence.PolicyStore.Tables.{
  update, is_mandate, is_execution, set_state, can_hold, put_on_hold,
  hold_mandate_for_reconciliation, update_execution,
}
use fuse_agent_control_plane.Persistence.PolicyStore.Admission.{AdmissionResult, AdmissionInput}
use fuse_agent_control_plane.Persistence.PolicyStore.Replay.{
  lease_expired, expire_row, expire_if, expire_lease, completed_answer, admission_by_status,
  admit_inference,
}
use fuse_agent_control_plane.Persistence.PolicyStore.Executions.{
  CompletionPersistenceResult, CompletionInput, HoldInput, complete_row, complete_by_cost,
  is_reason_code, hold_row, hold_inference,
}
use fuse_agent_control_plane.Persistence.PolicyStore.Rows.{find-update, find-holds}
use fuse_agent_control_plane.Persistence.PolicyStore.Budget.{hold_mandate-cases}
use fuse_agent_control_plane.Persistence.PolicyStore.Admitted.{
  admit_new-passed, admit-passed, admit_found-cases,
}
use fuse_agent_control_plane.Persistence.PolicyStore.Spending.{recorded}
use fuse_agent_control_plane.Persistence.PolicyStore.Settling.{hold_found-passed}
use fuse_agent_control_plane.Persistence.PolicyStore.Steps.{replay-passed}
use fuse_agent_control_plane.Base.{
  String, ◌≡◌, refl, sym, ap, subst, ◌∙◌, inl, inr, Bool, true, false, not, some, List, arith,
  eq_iff, find, ok, throw_if, >>-eq-ok, >>=-eq-ok, ok-injective,
}
use fuse_agent_control_plane.Domain.Lifecycles.{closed, reconciliation_hold}

-- Every closed mandate of before is there, the same, after.
abbrev pub KeepsClosed : List ControlMandate → List ControlMandate → Type 0
KeepsClosed before after =
    (org mandate : String) (m : ControlMandate)
    → find (is_mandate org mandate) before ≡ some m
    → m.state ≡ closed
    → find (is_mandate org mandate) after ≡ some m

pub same-KeepsClosed :
    {before after : List ControlMandate} → before ≡ after → KeepsClosed before after
same-KeepsClosed same org mandate m found shut =
    ap (λ ms. find (is_mandate org mandate) ms) (sym same) ∙ found

pub update-KeepsClosed :
    (org mandate : String) (f : ControlMandate → ControlMandate) (ms : List ControlMandate)
    {row : ControlMandate}
    → find (is_mandate org mandate) ms ≡ some row
    → ¬ (row.state ≡ closed)
    → ((x : ControlMandate) → ((f x).organization_id ≡ x.organization_id) × ((f x).id ≡ x.id))
    → KeepsClosed ms (update (is_mandate org mandate) f ms)
update-KeepsClosed org mandate f ms {row} there open_now keeps o i m found shut =
    elim (find-update (is_mandate org mandate) (is_mandate o i) f ms
      (λ x. let (a, b) = keeps x in rw (a, b) refl)) [
        | inl same ↦ same ∙ found
        | inr (x, hit, asked, _) ↦
            let own = find-holds (is_mandate o i) ms asked in
            let same_org : o ≡ org =
              ground (arith, eq_iff x.organization_id org, eq_iff x.organization_id o) in
            let same_id : i ≡ mandate = ground (arith, eq_iff x.id mandate, eq_iff x.id i) in
            let found_too : find (is_mandate org mandate) ms ≡ some m =
              subst (λ z. find (is_mandate z mandate) ms ≡ some m) same_org
                (subst (λ z. find (is_mandate o z) ms ≡ some m) same_id found) in
            let both : some row ≡ some m = sym there ∙ found_too in
            let same : row ≡ m = cc in
            absurd (open_now (ap (λ (z : ControlMandate). z.state) same ∙ shut))
      ]

hold_mandate-KeepsClosed :
    (s : Store) (org mandate : String) {after : Store}
    → hold_mandate_for_reconciliation s org mandate ≡ ok after
    → KeepsClosed s.mandates after.mandates
unfolding put_on_hold set_state
hold_mandate-KeepsClosed s org mandate done =
    let (m, found, either) = hold_mandate-cases s org mandate done in
    elim either [
      | inr (_, same) ↦ same-KeepsClosed (ap (λ (x : Store). x.mandates) same)
      | inl (can, same) ↦
          subst (λ (x : Store). KeepsClosed s.mandates x.mandates) same
            (update-KeepsClosed org mandate (set_state reconciliation_hold) s.mandates found
              (λ shut. let clash = sym can ∙ ap can_hold shut in cc) (λ x. (refl, refl)))
    ]

expire_if-KeepsClosed :
    (late : Bool) (s : Store) (e : InferenceExecutionRow) (at : String)
    {after : Store × AdmissionResult}
    → expire_if late s e at ≡ ok after
    → KeepsClosed s.mandates after.0.mandates
unfolding expire_if
expire_if-KeepsClosed false s e at done =
    same-KeepsClosed (ap (λ (x : Store × AdmissionResult). x.0.mandates) (ok-injective done))
expire_if-KeepsClosed true s e at done =
    let changed = update_execution s e.organization_id e.request_id (expire_row at) in
    let (held_store, h, last) =
      >>=-eq-ok (hold_mandate_for_reconciliation changed e.organization_id e.mandate_id) _ done in
    subst (λ (x : Store × AdmissionResult). KeepsClosed s.mandates x.0.mandates) (ok-injective last)
      (hold_mandate-KeepsClosed changed e.organization_id e.mandate_id h)

by_status-KeepsClosed :
    (status : ExecutionStatus) (js : Platform) (s : Store) (e : InferenceExecutionRow)
    (d : StoredPolicyDecision) (at : String) {after : Store × AdmissionResult}
    → admission_by_status status js s e d at ≡ ok after
    → KeepsClosed s.mandates after.0.mandates
unfolding admission_by_status expire_lease
by_status-KeepsClosed denied js s e d at done =
    same-KeepsClosed (ap (λ (x : Store × AdmissionResult). x.0.mandates) (ok-injective done))
by_status-KeepsClosed failed js s e d at done =
    same-KeepsClosed (ap (λ (x : Store × AdmissionResult). x.0.mandates) (ok-injective done))
by_status-KeepsClosed held js s e d at done =
    same-KeepsClosed (ap (λ (x : Store × AdmissionResult). x.0.mandates) (ok-injective done))
by_status-KeepsClosed completed js s e d at done =
    let (answer, _, last) =
      >>=-eq-ok (completed_answer d e e.response_json e.actual_cost_atomic) _ done in
    same-KeepsClosed (ap (λ (x : Store × AdmissionResult). x.0.mandates) (ok-injective last))
by_status-KeepsClosed executing js s e d at done =
    expire_if-KeepsClosed (lease_expired (js.date_parse at) (js.date_parse e.updated_at)) s e at
      done

pub admit_inference-KeepsClosed :
    (js : Platform) (s : Store) (input : AdmissionInput) (id : String)
    {after : Store × AdmissionResult}
    → admit_inference js s input id ≡ ok after
    → KeepsClosed s.mandates after.0.mandates
unfolding admit_inference
admit_inference-KeepsClosed js s input id done =
    let (m, p, found, rest) = admit-passed js false s input id done in
    elim (admit_found-cases js false s m p input id _ rest) [
      | inl (e, known, _, replayed) ↦
          let (d, answered) = replay-passed js s e input.decided_at replayed in
          by_status-KeepsClosed e.status js s e d input.decided_at answered
      | inr (fresh, decided) ↦
          let (r, d, _, written) = admit_new-passed js false s m p input id decided in
          let (same, _) = recorded s input r d written in
          same-KeepsClosed (ap (λ (x : Store). x.mandates) same)
    ]

pub complete_by_cost-KeepsClosed :
    (over : Bool) (s : Store) (e : InferenceExecutionRow) (input : CompletionInput)
    {after : Store × CompletionPersistenceResult}
    → complete_by_cost over s e input ≡ ok after
    → KeepsClosed s.mandates after.0.mandates
unfolding complete_by_cost
complete_by_cost-KeepsClosed true s e input done =
    let changed =
      update_execution s input.organization_id input.request_id (complete_row held input) in
    let (held_store, h, last) =
      >>=-eq-ok (hold_mandate_for_reconciliation changed input.organization_id e.mandate_id) _
        done in
    subst (λ (x : Store × CompletionPersistenceResult). KeepsClosed s.mandates x.0.mandates)
      (ok-injective last) (hold_mandate-KeepsClosed changed input.organization_id e.mandate_id h)
complete_by_cost-KeepsClosed false s e input done =
    same-KeepsClosed
      (ap (λ (x : Store × CompletionPersistenceResult). x.0.mandates) (ok-injective done))

pub hold_inference-KeepsClosed :
    (s : Store) (input : HoldInput) {after : Store}
    → hold_inference s input ≡ ok after
    → KeepsClosed s.mandates after.mandates
unfolding hold_inference
hold_inference-KeepsClosed s input done =
    let (_, rest) =
      >>-eq-ok (throw_if (not (is_reason_code input.reason_code)) hold_reason_invalid) _ done in
    let (e, _, _, last) =
      hold_found-passed s input
        (find (is_execution input.organization_id input.request_id) s.executions) rest in
    hold_mandate-KeepsClosed
      (update_execution s input.organization_id input.request_id (hold_row input))
      input.organization_id e.mandate_id last
