-- ===== src/Persistence/PolicyStore/Resolving.antt =====
-- Resolving a reconciliation case, and administering mandates, keep the budgets of the mandates, in
-- src/persistence/policyStore.ts.
use fuse_agent_control_plane.Persistence.PolicyStore.{
  ReconciliationResolution, settle, confirm_not_billed, control_mandate_not_found,
  inference_execution_not_found, reconciliation_resolution_conflict, reconciliation_case_not_open,
  ControlMandate, InferenceExecutionRow, Resolution, ReconciliationHold, Store, Platform,
}
use fuse_agent_control_plane.Persistence.PolicyStore.Tables.{
  is_held, is_mandate, is_execution, is_resolution, is_hold, set_state, update_execution,
}
use fuse_agent_control_plane.Persistence.PolicyStore.Reconciliation.{
  ResolveReconciliationInput, validate_resolution, is_exact_replay, billed_row, unanswered_row,
  resolved_row, settled_store, has_open_cases, restored_state, without_hold, release_mandate,
  release_without_hold, release_last, release_if_clear, resolve_found, resolve_reconciliation,
}
use fuse_agent_control_plane.Persistence.PolicyStore.Budget.{
  IsWithinBudget, covered_charge, is_unsettled, IsPlain, maximum_of-update,
  same_rows-IsWithinBudget, update_execution-IsWithinBudget,
}
use fuse_agent_control_plane.Persistence.PolicyStore.Settling.{rewritten}
use fuse_agent_control_plane.Base.{
  String, ◌≡◌, refl, sym, ap, subst, ◌⊎◌, inl, inr, true, false, not, Option, none, some, arith,
  if◌then◌else◌, Bool-cases, is_some, ℤ, ◌≤ℤ◌, find, ok, throw_if, or_throw, >>-eq-ok, >>=-eq-ok,
  ok-injective,
}
use fuse_agent_control_plane.Domain.Lifecycles.{
  MandateState, draft, active, paused, closing, closed, exhausted, tripped, lapsed,
  reconciliation_hold,
}

resolved-rewritten :
    (resolution : ReconciliationResolution) (cost : ℤ) (at : String) (e : InferenceExecutionRow)
    → is_held e.status ≡ true
    → IsPlain e
    → IsPlain (resolved_row resolution cost at e)
      × (covered_charge (resolved_row resolution cost at e) ≤ℤ covered_charge e)
unfolding resolved_row
resolved-rewritten settle cost at e on_hold q =
    let unsettled : is_unsettled e.status ≡ true = ground arith in
    elim (Bool-cases (is_some e.response_json)) [
      | inl answered ↦
          let same : (if is_some e.response_json
                then billed_row cost at e
                else unanswered_row cost at e)
              ≡ billed_row cost at e =
            ap (λ b. if b then billed_row cost at e else unanswered_row cost at e) answered in
          subst (λ r. IsPlain r × (covered_charge r ≤ℤ covered_charge e)) (sym same)
            (rewritten e (billed_row cost at e) unsettled refl (λ h. cc) q)
      | inr unanswered ↦
          let same : (if is_some e.response_json
                then billed_row cost at e
                else unanswered_row cost at e)
              ≡ unanswered_row cost at e =
            ap (λ b. if b then billed_row cost at e else unanswered_row cost at e) unanswered in
          subst (λ r. IsPlain r × (covered_charge r ≤ℤ covered_charge e)) (sym same)
            (rewritten e (unanswered_row cost at e) unsettled refl (λ h. cc) q)
    ]
resolved-rewritten confirm_not_billed cost at e on_hold q =
    rewritten e (resolved_row confirm_not_billed cost at e) (ground arith) refl (λ h. cc) q

pub resolved_row-keyed :
    (resolution : ReconciliationResolution) (cost : ℤ) (at : String) (e : InferenceExecutionRow)
    → ((resolved_row resolution cost at e).organization_id ≡ e.organization_id)
      × ((resolved_row resolution cost at e).request_id ≡ e.request_id)
      × ((resolved_row resolution cost at e).mandate_id ≡ e.mandate_id)
unfolding resolved_row
resolved_row-keyed settle cost at e = elim (Bool-cases (is_some e.response_json)) [
  | inl answered ↦ rw answered (refl, refl, refl)
  | inr unanswered ↦ rw unanswered (refl, refl, refl)
]
resolved_row-keyed confirm_not_billed cost at e = (refl, refl, refl)

settled_store-IsWithinBudget :
    (s : Store) (input : ResolveReconciliationInput) (cost : ℤ) {e : InferenceExecutionRow}
    → find (is_execution input.organization_id input.request_id) s.executions ≡ some e
    → is_held e.status ≡ true
    → IsWithinBudget s
    → IsWithinBudget (settled_store s input cost)
unfolding settled_store
settled_store-IsWithinBudget s input cost {e} found on_hold sound =
    let change = resolved_row input.resolution cost input.context.occurred_at in
    let (a, _, b) = resolved_row-keyed input.resolution cost input.context.occurred_at e in
    same_rows-IsWithinBudget (update_execution s input.organization_id input.request_id change)
      (settled_store s input cost) refl (λ o m. refl)
      (update_execution-IsWithinBudget s input.organization_id input.request_id change found (a, b)
        (resolved-rewritten input.resolution cost input.context.occurred_at e on_hold) sound)

release_mandate-IsWithinBudget :
    (state : MandateState) (s : Store) (org mandate : String) (prior : MandateState) {after : Store}
    → release_mandate state s org mandate prior ≡ ok after
    → IsWithinBudget s
    → IsWithinBudget after
unfolding release_mandate without_hold set_state
release_mandate-IsWithinBudget reconciliation_hold s org mandate prior {after} done sound =
    subst IsWithinBudget (ok-injective done) (
      same_rows-IsWithinBudget s _ refl
        (λ o i.
          maximum_of-update (is_mandate org mandate) (set_state (restored_state prior)) s.mandates o
            i (λ m. (refl, refl, refl)))
        sound)
release_mandate-IsWithinBudget closing s org mandate prior done sound =
    subst IsWithinBudget (ok-injective done) (same_rows-IsWithinBudget s _ refl (λ o i. refl) sound)
release_mandate-IsWithinBudget draft s org mandate prior done sound = cc
release_mandate-IsWithinBudget active s org mandate prior done sound = cc
release_mandate-IsWithinBudget paused s org mandate prior done sound = cc
release_mandate-IsWithinBudget closed s org mandate prior done sound = cc
release_mandate-IsWithinBudget exhausted s org mandate prior done sound = cc
release_mandate-IsWithinBudget tripped s org mandate prior done sound = cc
release_mandate-IsWithinBudget lapsed s org mandate prior done sound = cc

-- Without a hold, a release changes nothing.
pub release_without_hold-same :
    (state : MandateState) (s : Store) {after : Store}
    → release_without_hold state s ≡ ok after
    → s ≡ after
release_without_hold-same closed s done = ok-injective done
release_without_hold-same lapsed s done = ok-injective done
release_without_hold-same draft s done = cc
release_without_hold-same active s done = cc
release_without_hold-same paused s done = cc
release_without_hold-same closing s done = cc
release_without_hold-same exhausted s done = cc
release_without_hold-same tripped s done = cc
release_without_hold-same reconciliation_hold s done = cc

release_last-IsWithinBudget :
    (s : Store) (org : String) (m : ControlMandate) (o : Option ReconciliationHold) {after : Store}
    → release_last s org m o ≡ ok after
    → IsWithinBudget s
    → IsWithinBudget after
unfolding release_last
release_last-IsWithinBudget s org m none done sound =
    subst IsWithinBudget (release_without_hold-same m.state s done) sound
release_last-IsWithinBudget s org m (some h) done sound =
    release_mandate-IsWithinBudget m.state s org m.id h.prior_state done sound

-- The release of a mandate finds open cases left, and changes nothing, or is the last.
pub release_if_clear-cases :
    (s : Store) (org mandate : String) {after : Store}
    → release_if_clear s org mandate ≡ ok after
    → (m : ControlMandate) × (find (is_mandate org mandate) s.mandates ≡ some m)
      × (((has_open_cases s org mandate ≡ true) × (s ≡ after))
          ⊎ (has_open_cases s org mandate ≡ false)
            × (release_last s org m (find (is_hold org mandate) s.holds) ≡ ok after))
unfolding release_if_clear
release_if_clear-cases s org mandate {after} done =
    let (m, found, rest) =
      >>=-eq-ok (or_throw (find (is_mandate org mandate) s.mandates) control_mandate_not_found) _
        done in
    (
      m,
      ground arith,
      elim (Bool-cases (has_open_cases s org mandate)) [
        | inl more ↦ inl (more, ok-injective (rw more at rest))
        | inr none_left ↦ inr (none_left, rw none_left at rest)
      ],
    )

pub resolve_found-cases :
    (s : Store) (input : ResolveReconciliationInput) (cost : ℤ) (e : InferenceExecutionRow)
    (o : Option Resolution) {after : Store}
    → resolve_found s input cost e o ≡ ok after
    → (s ≡ after)
      ⊎ (o ≡ none)
        × (is_held e.status ≡ true)
        × (release_if_clear (settled_store s input cost) input.organization_id e.mandate_id
            ≡ ok after)
unfolding resolve_found
resolve_found-cases s input cost e (some r) done =
    let (_, last) =
      >>-eq-ok (throw_if (not (is_exact_replay r input cost)) reconciliation_resolution_conflict) _
        done in
    inl (ok-injective last)
resolve_found-cases s input cost e none done =
    let (on_hold, last) =
      >>-eq-ok (throw_if (not (is_held e.status)) reconciliation_case_not_open) _ done in
    inr (refl, ground arith, last)

-- What a resolution has passed.
pub resolve-passed :
    (js : Platform) (s : Store) (input : ResolveReconciliationInput) {after : Store}
    → resolve_reconciliation js s input ≡ ok after
    → (cost : ℤ) × (e : InferenceExecutionRow) × (find
          (is_execution input.organization_id input.request_id)
          s.executions
        ≡ some e)
      × (resolve_found s input cost e
            (find (is_resolution input.organization_id input.request_id) s.resolutions)
          ≡ ok after)
unfolding resolve_reconciliation
resolve-passed js s input done =
    let (cost, _, rest) = >>=-eq-ok (validate_resolution js input) _ done in
    let (e, found, last) =
      >>=-eq-ok
        (or_throw (find (is_execution input.organization_id input.request_id) s.executions)
          inference_execution_not_found)
        _ rest in
    (cost, e, ground arith, last)

pub resolve_reconciliation-IsWithinBudget :
    (js : Platform) (s : Store) (input : ResolveReconciliationInput) {after : Store}
    → resolve_reconciliation js s input ≡ ok after
    → IsWithinBudget s
    → IsWithinBudget after
resolve_reconciliation-IsWithinBudget js s input {after} done sound =
    let (cost, e, found, rest) = resolve-passed js s input done in
    elim (resolve_found-cases s input cost e _ rest) [
      | inl same ↦ subst IsWithinBudget same sound
      | inr (_, on_hold, last) ↦
          let settled_sound = settled_store-IsWithinBudget s input cost found on_hold sound in
          let (m, _, either) =
            release_if_clear-cases (settled_store s input cost) input.organization_id e.mandate_id
              last in
          elim either [
            | inl (_, same) ↦ subst IsWithinBudget same settled_sound
            | inr (_, freed) ↦
                release_last-IsWithinBudget (settled_store s input cost) input.organization_id m _
                  freed settled_sound
          ]
    ]
