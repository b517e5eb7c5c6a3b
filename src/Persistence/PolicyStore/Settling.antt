-- ===== src/Persistence/PolicyStore/Settling.antt =====
-- What settling an execution does to its mandate's budget, in src/persistence/policyStore.ts: no
-- change of a row's status counts more of its reservation than before.
use fuse_agent_control_plane.Persistence.PolicyStore.{
  completed, held, actual_cost_invalid, inference_execution_not_found,
  inference_execution_not_executing, hold_reason_invalid, execution_not_active,
  InferenceExecutionRow, Store,
}
use fuse_agent_control_plane.Persistence.PolicyStore.Tables.{
  is_executing, is_execution, hold_mandate_for_reconciliation, update_execution,
}
use fuse_agent_control_plane.Persistence.PolicyStore.Counters.{is_billed, charge, lesser}
use fuse_agent_control_plane.Persistence.PolicyStore.Executions.{
  CompletionPersistenceResult, CompletionInput, HoldInput, complete_row, complete_by_cost,
  complete_inference, is_reason_code, hold_row, hold_found, hold_inference,
}
use fuse_agent_control_plane.Persistence.PolicyStore.Budget.{
  IsWithinBudget, covered_charge, is_unsettled, IsPlain, hold_mandate-IsWithinBudget,
  update_execution-IsWithinBudget,
}
use fuse_agent_control_plane.Base.{
  String, ◌≡◌, refl, ap, subst, inl, inr, Bool, true, false, not, Option, none, some, arith, ◌==◌,
  Bool-cases, pos, ◌≤ℤ◌, ltb_ℤ, find, ok, throw_if, or_throw, >>-eq-ok, >>=-eq-ok, ok-injective,
}

unsettled-covered :
    (e : InferenceExecutionRow)
    → is_unsettled e.status ≡ true
    → IsPlain e
    → covered_charge e ≡ e.reserved_cost_atomic
unfolding covered_charge charge lesser
unsettled-covered e open_now (positive, plain) = let unbilled = plain open_now in ground arith

covered-le-reserved : (e : InferenceExecutionRow) → covered_charge e ≤ℤ e.reserved_cost_atomic
unfolding covered_charge lesser
covered-le-reserved e = elim (Bool-cases (ltb_ℤ (charge e) e.reserved_cost_atomic)) [
  | inl less ↦ rw less (ground arith)
  | inr more ↦ rw more (omega arith)
]

-- A change of a row that has not been settled, which keeps its reservation.
pub rewritten :
    (e changed : InferenceExecutionRow)
    → is_unsettled e.status ≡ true
    → changed.reserved_cost_atomic ≡ e.reserved_cost_atomic
    → (is_unsettled changed.status ≡ true → is_billed changed ≡ false)
    → IsPlain e
    → IsPlain changed × (covered_charge changed ≤ℤ covered_charge e)
rewritten e changed open_now same unbilled (positive, plain) =
    let before = unsettled-covered e open_now (positive, plain) in
    let least = covered-le-reserved changed in
    ((rw same positive, unbilled), rw (before, ← same) least)

pub executing-is_unsettled :
    (e : InferenceExecutionRow) → is_executing e.status ≡ true → is_unsettled e.status ≡ true
executing-is_unsettled e h = rw h refl

pub hold_rows-IsWithinBudget :
    (s : Store) (org request mandate : String) (f : InferenceExecutionRow → InferenceExecutionRow)
    {e : InferenceExecutionRow} {after : Store}
    → find (is_execution org request) s.executions ≡ some e
    → is_unsettled e.status ≡ true
    → ((f e).organization_id ≡ e.organization_id)
      × ((f e).mandate_id ≡ e.mandate_id)
      × ((f e).reserved_cost_atomic ≡ e.reserved_cost_atomic)
    → (IsPlain e → is_billed (f e) ≡ false)
    → hold_mandate_for_reconciliation (update_execution s org request f) org mandate ≡ ok after
    → IsWithinBudget s
    → IsWithinBudget after
hold_rows-IsWithinBudget s org request mandate f {e} found open_now (keyed, owned, same) unbilled h
      sound =
    hold_mandate-IsWithinBudget (update_execution s org request f) org mandate h (
      update_execution-IsWithinBudget s org request f found (keyed, owned)
        (λ q. rewritten e (f e) open_now same (λ _. unbilled q) q) sound)

complete_by_cost-IsWithinBudget :
    (over : Bool) (s : Store) (e : InferenceExecutionRow) (input : CompletionInput)
    {after : Store × CompletionPersistenceResult}
    → find (is_execution input.organization_id input.request_id) s.executions ≡ some e
    → is_executing e.status ≡ true
    → complete_by_cost over s e input ≡ ok after
    → IsWithinBudget s
    → IsWithinBudget after.0
unfolding complete_by_cost complete_row
complete_by_cost-IsWithinBudget true s e input {after} found now_executing done sound =
    let (held_store, h, last) =
      >>=-eq-ok
        (hold_mandate_for_reconciliation
          (update_execution s input.organization_id input.request_id (complete_row held input))
          input.organization_id e.mandate_id)
        _ done in
    let same : held_store ≡ after.0 =
      ap (λ (x : Store × CompletionPersistenceResult). x.0) (ok-injective last) in
    subst IsWithinBudget same (
      hold_rows-IsWithinBudget s input.organization_id input.request_id e.mandate_id
        (complete_row held input) found (executing-is_unsettled e now_executing) (refl, refl, refl)
        (λ q. q.1 (executing-is_unsettled e now_executing)) h sound)
complete_by_cost-IsWithinBudget false s e input {after} found now_executing done sound =
    let same : update_execution s input.organization_id input.request_id
          (complete_row completed input)
        ≡ after.0 =
      ap (λ (x : Store × CompletionPersistenceResult). x.0) (ok-injective done) in
    subst IsWithinBudget same (
      update_execution-IsWithinBudget s input.organization_id input.request_id
        (complete_row completed input) found (refl, refl)
        (rewritten e (complete_row completed input e) (executing-is_unsettled e now_executing) refl
          (λ h. cc))
        sound)

-- What a completion has passed.
pub complete-passed :
    (s : Store) (input : CompletionInput) {after : Store × CompletionPersistenceResult}
    → complete_inference s input ≡ ok after
    → (e : InferenceExecutionRow) × (find
          (is_execution input.organization_id input.request_id)
          s.executions
        ≡ some e)
      × (is_executing e.status ≡ true)
      × (complete_by_cost (ltb_ℤ e.reserved_cost_atomic input.actual_cost_atomic) s e input
          ≡ ok after)
unfolding complete_inference
complete-passed s input done =
    let (_, rest) =
      >>-eq-ok (throw_if (ltb_ℤ input.actual_cost_atomic (pos 0)) actual_cost_invalid) _ done in
    let (e, found, more) =
      >>=-eq-ok
        (or_throw (find (is_execution input.organization_id input.request_id) s.executions)
          inference_execution_not_found)
        _ rest in
    let (running, last) =
      >>-eq-ok (throw_if (not (is_executing e.status)) inference_execution_not_executing) _ more in
    (e, ground arith, ground arith, last)

pub complete_inference-IsWithinBudget :
    (s : Store) (input : CompletionInput) {after : Store × CompletionPersistenceResult}
    → complete_inference s input ≡ ok after
    → IsWithinBudget s
    → IsWithinBudget after.0
complete_inference-IsWithinBudget s input done sound =
    let (e, found, running, last) = complete-passed s input done in
    complete_by_cost-IsWithinBudget _ s e input found running last sound

pub hold_found-passed :
    (s : Store) (input : HoldInput) (o : Option InferenceExecutionRow) {after : Store}
    → hold_found s input o ≡ ok after
    → (e : InferenceExecutionRow) × (o ≡ some e)
      × (is_executing e.status ≡ true)
      × (hold_mandate_for_reconciliation
            (update_execution s input.organization_id input.request_id (hold_row input))
            input.organization_id
            e.mandate_id
          ≡ ok after)
unfolding hold_found
hold_found-passed s input none done = cc
hold_found-passed s input (some e) done =
    let (running, last) =
      >>-eq-ok (throw_if (not (is_executing e.status)) execution_not_active) _ done in
    (e, refl, ground arith, last)

-- A reason other than the one of a bill without a response.
abbrev pub IsPlainReason : String → Type 0
IsPlainReason reason = (reason == "RECONCILED_BILLED_NO_RESPONSE") ≡ false

pub hold_inference-IsWithinBudget :
    (s : Store) (input : HoldInput) {after : Store}
    → IsPlainReason input.reason_code
    → hold_inference s input ≡ ok after
    → IsWithinBudget s
    → IsWithinBudget after
unfolding hold_inference hold_row
hold_inference-IsWithinBudget s input plain done sound =
    let (_, rest) =
      >>-eq-ok (throw_if (not (is_reason_code input.reason_code)) hold_reason_invalid) _ done in
    let (e, found, running, last) =
      hold_found-passed s input
        (find (is_execution input.organization_id input.request_id) s.executions) rest in
    hold_rows-IsWithinBudget s input.organization_id input.request_id e.mandate_id (hold_row input)
      found (executing-is_unsettled e running) (refl, refl, refl) (λ q. plain) last sound
