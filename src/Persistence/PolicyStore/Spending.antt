-- ===== src/Persistence/PolicyStore/Spending.antt =====
-- The budget of a mandate over the admissions and settlements of src/persistence/policyStore.ts.
use fuse_agent_control_plane.Persistence.PolicyStore.{
  ControlMandate, StoredPolicyDecision, Store, Platform,
}
use fuse_agent_control_plane.Persistence.PolicyStore.Tables.{is_mandate, is_execution_of}
use fuse_agent_control_plane.Persistence.PolicyStore.Counters.{charge, mandate_spent, lesser}
use fuse_agent_control_plane.Persistence.PolicyStore.Admission.{
  AdmissionResult, to_execute, refused, AdmissionInput, allows, reservation_of, insert_decision,
  execution_row, record_admission,
}
use fuse_agent_control_plane.Persistence.PolicyStore.Budget.{
  IsWithinBudget, covered_charge, mandate_covered, maximum_of, IsPlain, covered-le-spent,
}
use fuse_agent_control_plane.Persistence.PolicyStore.Admitted.{Admitted, Admitted-within}
use fuse_agent_control_plane.Base.{
  ◌+ℤ◌, String, ◌≡◌, refl, ◌∙◌, inl, inr, false, some, ◌∷◌, arith, eq_iff, if◌then◌else◌,
  Bool-cases, pos, ◌≤ℤ◌, eq_of_parts, int_laws, find, ok,
}
use fuse_agent_control_plane.Domain.Policy.{PolicyVersion, PolicyDecisionResult}

abbrev pub admitted_store :
    Store → AdmissionInput → PolicyDecisionResult → StoredPolicyDecision → Store
admitted_store s input r d = record s {
  decisions = d ∷ s.decisions;
  executions = execution_row input r d.id ∷ s.executions;
}

pub recorded :
    (s : Store) (input : AdmissionInput) (r : PolicyDecisionResult) (d : StoredPolicyDecision)
    {after : Store × AdmissionResult}
    → record_admission false s input r d ≡ ok after
    → (admitted_store s input r d ≡ after.0)
      × ((if allows r.outcome then to_execute d input.estimated_cost_atomic else refused d)
          ≡ after.1)
unfolding record_admission insert_decision
recorded s input r d e = ground arith

pub new_row-covered :
    (input : AdmissionInput) (r : PolicyDecisionResult) (id : String)
    → pos 0 ≤ℤ input.estimated_cost_atomic
    → (IsPlain (execution_row input r id))
      × (charge (execution_row input r id) ≡ reservation_of r input.estimated_cost_atomic)
      × (covered_charge (execution_row input r id) ≡ reservation_of r input.estimated_cost_atomic)
unfolding execution_row covered_charge charge lesser
new_row-covered input r id positive = elim (Bool-cases (allows r.outcome)) [
  | inl yes_now ↦ rw yes_now ((positive, λ h. refl), refl, eq_of_parts _ _ (ground arith))
  | inr no_now ↦ rw no_now ((omega arith, λ h. refl), refl, refl)
]

-- A new row is paid for out of what its mandate has left, and counts for no other mandate.
pub admitted_store-IsWithinBudget :
    (js : Platform) (s : Store) (m : ControlMandate) (p : PolicyVersion) (input : AdmissionInput)
    (r : PolicyDecisionResult) (d : StoredPolicyDecision)
    → find (is_mandate input.organization_id input.mandate_id) s.mandates ≡ some m
    → Admitted js s m p input r
    → IsWithinBudget s
    → IsWithinBudget (admitted_store s input r d)
unfolding mandate_covered execution_row
admitted_store-IsWithinBudget js s m p input r d found a sound =
    let (positive, within) = Admitted-within js s m p input r a in
    let (plain, charged, covered) = new_row-covered input r d.id positive in
    record {
      rows = (plain, sound.rows);
      budget = λ org mandate.
          elim (Bool-cases (is_execution_of org mandate (execution_row input r d.id))) [
            | inr other ↦ rw other (omega (int_laws, sound.budget org mandate))
            | inl own ↦ elim (Bool-cases (allows r.outcome)) [
              | inr refused_now ↦
                  rw (own, covered, refused_now) (omega (int_laws, sound.budget org mandate))
              | inl allowed_now ↦
                  let (_, fits) = within allowed_now in
                  let same_org : input.organization_id ≡ org =
                    ground (arith, eq_iff input.organization_id org) in
                  let same_mandate : input.mandate_id ≡ mandate =
                    ground (arith, eq_iff input.mandate_id mandate) in
                  let paid : mandate_spent s.executions org mandate +ℤ input.estimated_cost_atomic
                      ≤ℤ maximum_of (find (is_mandate org mandate) s.mandates) =
                    rw (← same_org, ← same_mandate, found) fits in
                  let amount : covered_charge (execution_row input r d.id)
                      ≡ input.estimated_cost_atomic =
                    covered ∙ rw allowed_now refl in
                  rw (own, amount)
                    (omega (int_laws, paid, covered-le-spent s.executions org mandate))
            ]
          ];
    }
