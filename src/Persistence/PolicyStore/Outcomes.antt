-- ===== src/Persistence/PolicyStore/Outcomes.antt =====
-- What becomes of an executing row of src/persistence/policyStore.ts when it is completed, held or
-- failed.
use fuse_agent_control_plane.Persistence.PolicyStore.{
  completed, held, ControlMandate, InferenceExecutionRow, Store,
}
use fuse_agent_control_plane.Persistence.PolicyStore.Tables.{
  is_executing, is_mandate, is_execution, can_hold, put_on_hold, hold_mandate_for_reconciliation,
  update_execution,
}
use fuse_agent_control_plane.Persistence.PolicyStore.Executions.{
  CompletionPersistenceResult, has_completed, is_on_hold, CompletionInput, HoldInput, complete_row,
  complete_by_cost, complete_inference, is_reason_code, hold_row, hold_found, hold_inference,
}
use fuse_agent_control_plane.Persistence.PolicyStore.Rows.{find-update_self, find-holds}
use fuse_agent_control_plane.Base.{
  String, ◌≡◌, refl, ap, ◌∙◌, inl, inr, true, false, some, arith, if◌then◌else◌, Bool-cases, pos,
  ◌≤ℤ◌, ltb_ℤ, find, ok,
}

hold_mandate-returns :
    (s : Store) (org mandate : String) {m : ControlMandate}
    → find (is_mandate org mandate) s.mandates ≡ some m
    → (after : Store) × (hold_mandate_for_reconciliation s org mandate ≡ ok after)
      × (after.executions ≡ s.executions)
unfolding hold_mandate_for_reconciliation put_on_hold
hold_mandate-returns s org mandate {m} found = elim (Bool-cases (can_hold m.state)) [
  | inl can ↦ (put_on_hold s org mandate m.state, ground (arith, found, can), refl)
  | inr final ↦ (s, ground (arith, found, final), refl)
]

-- An executing row, whose mandate is there, can be held for any reason that has the form of one.
pub hold_inference-returns :
    (s : Store) (input : HoldInput) {e : InferenceExecutionRow} {m : ControlMandate}
    → is_reason_code input.reason_code ≡ true
    → find (is_execution input.organization_id input.request_id) s.executions ≡ some e
    → is_executing e.status ≡ true
    → find (is_mandate input.organization_id e.mandate_id) s.mandates ≡ some m
    → (after : Store) × (hold_inference s input ≡ ok after)
      × (find (is_execution input.organization_id input.request_id) after.executions
          ≡ some (hold_row input e))
unfolding hold_inference hold_found hold_row
hold_inference-returns s input {e} good found running owner =
    let changed = update_execution s input.organization_id input.request_id (hold_row input) in
    let (after, done, same) =
      hold_mandate-returns changed input.organization_id e.mandate_id owner in
    let row =
      find-update_self (is_execution input.organization_id input.request_id) (hold_row input)
        s.executions
        (find-holds (is_execution input.organization_id input.request_id) s.executions found)
        found in
    (
      after,
      rw (good, found, running) done,
      ap (λ rows. find (is_execution input.organization_id input.request_id) rows) same ∙ row,
    )

-- An executing row, whose mandate is there, can be completed at any cost that is not negative: it
-- is completed within its reservation, and held above it.
pub complete_inference-returns :
    (s : Store) (input : CompletionInput) {e : InferenceExecutionRow} {m : ControlMandate}
    → pos 0 ≤ℤ input.actual_cost_atomic
    → find (is_execution input.organization_id input.request_id) s.executions ≡ some e
    → is_executing e.status ≡ true
    → find (is_mandate input.organization_id e.mandate_id) s.mandates ≡ some m
    → (after : Store) × (answer : CompletionPersistenceResult) × (complete_inference s input
        ≡ ok (after, answer))
      × (find (is_execution input.organization_id input.request_id) after.executions
          ≡ some (
              complete_row
                (if ltb_ℤ e.reserved_cost_atomic input.actual_cost_atomic then held else completed)
                input
                e))
unfolding complete_inference complete_by_cost complete_row
complete_inference-returns s input {e} positive found running owner =
    let key = is_execution input.organization_id input.request_id in
    let keyed = find-holds key s.executions found in
    let cost_ok : ltb_ℤ input.actual_cost_atomic (pos 0) ≡ false = ground (arith) in
    elim (Bool-cases (ltb_ℤ e.reserved_cost_atomic input.actual_cost_atomic)) [
      | inr within ↦ (
        update_execution s input.organization_id input.request_id (complete_row completed input),
        has_completed e.reserved_cost_atomic input.actual_cost_atomic input.response,
        rw (cost_ok, found, running, within) refl,
        rw within (find-update_self key (complete_row completed input) s.executions keyed found),
      )
      | inl over ↦
          let changed =
            update_execution s input.organization_id input.request_id (complete_row held input) in
          let (after, done, same) =
            hold_mandate-returns changed input.organization_id e.mandate_id owner in
          (
            after,
            is_on_hold e.reserved_cost_atomic input.actual_cost_atomic input.response,
            rw (cost_ok, found, running, over, done) refl,
            rw over (
                ap (λ rows. find key rows) same
                ∙ find-update_self key (complete_row held input) s.executions keyed found),
          )
    ]
