-- ===== src/Persistence/PolicyStore/Admissions.antt =====
-- What an admission takes out of its mandate's maximum, in src/persistence/policyStore.ts.
use fuse_agent_control_plane.Persistence.PolicyStore.{
  ExecutionStatus, denied, executing, ControlMandate, StoredPolicyDecision, InferenceExecutionRow,
  Store, Platform,
}
use fuse_agent_control_plane.Persistence.PolicyStore.Tables.{
  is_executing, is_mandate, is_execution, is_execution_of,
}
use fuse_agent_control_plane.Persistence.PolicyStore.Counters.{charge, mandate_spent}
use fuse_agent_control_plane.Persistence.PolicyStore.Admission.{
  to_execute, refused, AdmissionInput, allows, execution_row,
}
use fuse_agent_control_plane.Persistence.PolicyStore.Replay.{
  expire_if, expire_lease, admission_by_status, admit_inference,
}
use fuse_agent_control_plane.Persistence.PolicyStore.Admitted.{
  admit_new-passed, admit-passed, Admitted-within, admit_found-cases,
}
use fuse_agent_control_plane.Persistence.PolicyStore.Spending.{recorded, new_row-covered}
use fuse_agent_control_plane.Persistence.PolicyStore.Steps.{replay-passed}
use fuse_agent_control_plane.Base.{
  ◌+ℤ◌, String, ◌≡◌, refl, sym, ap, subst, ◌∙◌, inl, inr, true, false, none, some, ◌∷◌, arith,
  eq_refl, if◌then◌else◌, ℤ, pos, ◌≤ℤ◌, eq_of_parts, int_laws, find, ok,
}
use fuse_agent_control_plane.Domain.Policy.{PolicyDecisionResult}
use fuse_agent_control_plane.Domain.Lifecycles.{active}

pub replay-not_to_execute :
    (status : ExecutionStatus) (js : Platform) (s : Store) (e : InferenceExecutionRow)
    (d : StoredPolicyDecision) (at : String) {after : Store} {stored : StoredPolicyDecision}
    {reservation : ℤ}
    → admission_by_status status js s e d at ≡ ok (after, to_execute stored reservation)
    → ⊥
unfolding admission_by_status expire_lease expire_if
replay-not_to_execute status js s e d at done = ground (arith)

pub answered_to_execute :
    (r : PolicyDecisionResult) (d : StoredPolicyDecision) {estimated reservation : ℤ}
    {stored : StoredPolicyDecision}
    → (if allows r.outcome then to_execute d estimated else refused d)
      ≡ to_execute stored reservation
    → (allows r.outcome ≡ true) × (reservation ≡ estimated)
answered_to_execute r d answer = ground (arith)

pub new_row-mandate_spent :
    (s : Store) (input : AdmissionInput) (r : PolicyDecisionResult) (id : String)
    → mandate_spent (execution_row input r id ∷ s.executions) input.organization_id input.mandate_id
      ≡ mandate_spent s.executions input.organization_id input.mandate_id
        +ℤ charge (execution_row input r id)
unfolding mandate_spent execution_row
new_row-mandate_spent s input r id =
    let own : is_execution_of input.organization_id input.mandate_id (execution_row input r id)
        ≡ true =
      rw (eq_refl input.organization_id, eq_refl input.mandate_id) refl in
    rw own (eq_of_parts _ _ (omega int_laws))

-- A request that is admitted is for an active mandate, which can pay the estimate out of what its
-- maximum leaves over the money counted so far; the estimate is reserved in full, and what the
-- mandate's executions then count is still within the maximum.
pub admit_inference-mandate_spent :
    (js : Platform) (s : Store) (input : AdmissionInput) (id : String) {after : Store}
    {d : StoredPolicyDecision} {reservation : ℤ}
    → admit_inference js s input id ≡ ok (after, to_execute d reservation)
    → (m : ControlMandate) × (find (is_mandate input.organization_id input.mandate_id) s.mandates
        ≡ some m)
      × (m.state ≡ active)
      × (reservation ≡ input.estimated_cost_atomic)
      × (mandate_spent after.executions input.organization_id input.mandate_id
          ≡ mandate_spent s.executions input.organization_id input.mandate_id +ℤ reservation)
      × (mandate_spent after.executions input.organization_id input.mandate_id
          ≤ℤ m.maximum_spend_atomic)
unfolding admit_inference
admit_inference-mandate_spent js s input id {after} {d} {reservation} done =
    let (m, p, found, rest) = admit-passed js false s input id done in
    elim (admit_found-cases js false s m p input id _ rest) [
      | inl (e, known, _, replayed) ↦
          let (stored, answered) = replay-passed js s e input.decided_at replayed in
          absurd (replay-not_to_execute e.status js s e stored input.decided_at answered)
      | inr (fresh, decided) ↦
          let (r, stored, a, written) = admit_new-passed js false s m p input id decided in
          let (same, answer) = recorded s input r stored written in
          let (positive, within) = Admitted-within js s m p input r a in
          let (allowed_now, in_full) = answered_to_execute r stored answer in
          let (active_now, fits) = within allowed_now in
          let (_, charged, _) = new_row-covered input r stored.id positive in
          let amount : charge (execution_row input r stored.id) ≡ input.estimated_cost_atomic =
            charged ∙ rw allowed_now refl in
          let total : mandate_spent after.executions input.organization_id input.mandate_id
              ≡ mandate_spent s.executions input.organization_id input.mandate_id
                +ℤ input.estimated_cost_atomic =
            ap (λ (x : Store). mandate_spent x.executions input.organization_id input.mandate_id)
              (sym same)
            ∙ (new_row-mandate_spent s input r stored.id
                ∙ ap (λ c. mandate_spent s.executions input.organization_id input.mandate_id +ℤ c)
                    amount) in
          (
            m,
            found,
            active_now,
            in_full,
            total
                ∙ ap (λ c. mandate_spent s.executions input.organization_id input.mandate_id +ℤ c)
                    (sym in_full),
            rw total fits,
          )
    ]

-- The row of a request that is admitted.
pub admit_inference-row :
    (js : Platform) (s : Store) (input : AdmissionInput) (id : String) {after : Store}
    {d : StoredPolicyDecision} {reservation : ℤ}
    → admit_inference js s input id ≡ ok (after, to_execute d reservation)
    → (e : InferenceExecutionRow) × (m : ControlMandate) × (find
          (is_execution input.organization_id input.request_id)
          after.executions
        ≡ some e)
      × (is_executing e.status ≡ true)
      × (find (is_mandate input.organization_id e.mandate_id) after.mandates ≡ some m)
      × (e.reserved_cost_atomic ≡ reservation)
      × (e.actual_cost_atomic ≡ none)
unfolding admit_inference execution_row
admit_inference-row js s input id {after} done =
    let (m, p, found, rest) = admit-passed js false s input id done in
    elim (admit_found-cases js false s m p input id _ rest) [
      | inl (e, known, _, replayed) ↦
          let (stored, answered) = replay-passed js s e input.decided_at replayed in
          absurd (replay-not_to_execute e.status js s e stored input.decided_at answered)
      | inr (fresh, decided) ↦
          let (r, stored, _, written) = admit_new-passed js false s m p input id decided in
          let (same, answer) = recorded s input r stored written in
          let (allowed_now, held_back) = answered_to_execute r stored answer in
          let row = execution_row input r stored.id in
          (
            row,
            m,
            subst
                (λ (x : Store).
                  find (is_execution input.organization_id input.request_id) x.executions
                  ≡ some row)
                same (rw (eq_refl input.organization_id, eq_refl input.request_id) refl),
            ap (λ b. is_executing (if b then executing else denied)) allowed_now,
            subst
                (λ (x : Store).
                  find (is_mandate input.organization_id input.mandate_id) x.mandates ≡ some m)
                same found,
            ap (λ b. if b then input.estimated_cost_atomic else pos 0) allowed_now ∙ sym held_back,
            refl,
          )
    ]
