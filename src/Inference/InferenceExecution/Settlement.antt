-- ===== src/Inference/InferenceExecution/Settlement.antt =====
-- Whatever the provider does, `execute` of src/inference/inferenceExecution.ts settles or holds the
-- request that was admitted.
use fuse_agent_control_plane.Inference.InferenceExecution.{
  ProviderOutcome, answers, not_dispatched, ambiguous, ExecutionError, requested_model_mismatch,
  provider_model_mismatch, provider_cost_missing, actual_cost_exceeds_reservation, provider_error,
  of_store, of_price, ControlledInferenceInput, ProviderExecutionBinding, Runtime, admission_input,
  estimate_cost, admission_outcome, begin_estimated, begin_execution, actual_cost, reason_of,
  held_outcome, hold_after_error, completion_outcome, complete_with, settle_execution,
}
use fuse_agent_control_plane.Persistence.PolicyStore.{
  ExecutionStatus, completed, failed, held, StoreError, ControlMandate, StoredPolicyDecision,
  InferenceExecutionRow, Store,
}
use fuse_agent_control_plane.Persistence.PolicyStore.Tables.{is_executing, is_mandate, is_execution}
use fuse_agent_control_plane.Persistence.PolicyStore.Admission.{AdmissionResult, to_execute}
use fuse_agent_control_plane.Persistence.PolicyStore.Replay.{admit_inference}
use fuse_agent_control_plane.Persistence.PolicyStore.Executions.{
  CompletionPersistenceResult, has_completed, is_on_hold, CompletionInput, HoldInput, complete_row,
  is_reason_code, hold_row, failed_row, fail_row, fail_inference,
}
use fuse_agent_control_plane.Persistence.PolicyStore.Rows.{find-update_self, find-holds}
use fuse_agent_control_plane.Persistence.PolicyStore.Admissions.{admit_inference-row}
use fuse_agent_control_plane.Persistence.PolicyStore.Gating.{fail_row-KeepsKeys}
use fuse_agent_control_plane.Persistence.PolicyStore.Outcomes.{
  hold_inference-returns, complete_inference-returns,
}
use fuse_agent_control_plane.Base.{
  ℕ, String, ◌≡◌, refl, sym, ap, ◌∙◌, subst, true, false, Option, none, some, arith, if◌then◌else◌,
  ℤ, pos, ltb_ℤ, find, Result, ok, err, ok-injective,
}
use fuse_agent_control_plane.Core.Service.{ProviderResult}

abbrev answered_as : ℤ → Result ExecutionError ℕ → ExecutionStatus × Option ℤ
answered_as reservation (err e) = (held, none)
answered_as reservation (ok cost) =
    (if ltb_ℤ reservation (pos cost) then held else completed, some (pos cost))

-- What becomes of a row with the reservation: its status, and its actual cost where it has one.
abbrev pub settled_as : ProviderExecutionBinding → ℤ → ProviderOutcome → ExecutionStatus × Option ℤ
settled_as binding reservation not_dispatched = (failed, none)
settled_as binding reservation ambiguous = (held, none)
settled_as binding reservation (answers response) =
    answered_as reservation (actual_cost binding response)

-- The request's row is there, with the status and the actual cost.
abbrev pub IsSettled : Store → ControlledInferenceInput → ExecutionStatus × Option ℤ → Type 0
IsSettled s input end =
    (e : InferenceExecutionRow) × (find (is_execution input.organization_id input.request_id)
        s.executions
      ≡ some e)
    × (e.status ≡ end.0)
    × (e.actual_cost_atomic ≡ end.1)

reason_of-is_reason_code : (error : ExecutionError) → is_reason_code (reason_of error) ≡ true
unfolding is_reason_code
reason_of-is_reason_code provider_model_mismatch = refl
reason_of-is_reason_code provider_cost_missing = refl
reason_of-is_reason_code requested_model_mismatch = refl
reason_of-is_reason_code actual_cost_exceeds_reservation = refl
reason_of-is_reason_code provider_error = refl
reason_of-is_reason_code (of_store e) = refl
reason_of-is_reason_code (of_price e) = refl

ambiguous-is_reason_code : is_reason_code "PROVIDER_OUTCOME_AMBIGUOUS" ≡ true
unfolding is_reason_code
ambiguous-is_reason_code = refl

completion_outcome-store :
    (s : Store) (input : ControlledInferenceInput) (d : StoredPolicyDecision)
    (response : ProviderResult) (now : String) (after : Store)
    (answer : CompletionPersistenceResult)
    → (completion_outcome s input d response now (ok (after, answer))).0 ≡ after
unfolding completion_outcome
completion_outcome-store s input d response now after (has_completed r a p) = refl
completion_outcome-store s input d response now after (is_on_hold r a p) = refl

module _ (s : Store) (input : ControlledInferenceInput) {e : InferenceExecutionRow}
    {m : ControlMandate}
    (found : find (is_execution input.organization_id input.request_id) s.executions ≡ some e)
    (running : is_executing e.status ≡ true)
    (owner : find (is_mandate input.organization_id e.mandate_id) s.mandates ≡ some m)
    (unpaid : e.actual_cost_atomic ≡ none) where
  hold_after_error-settles :
      (reason : String) (response : Option ProviderResult) (now : String) (error : ExecutionError)
      → is_reason_code reason ≡ true
      → IsSettled
          (hold_after_error {A = AdmissionResult} s input reason response now error).0
          input
          (held, none)
  unfolding hold_after_error hold_row
  hold_after_error-settles reason response now error good =
      let call : HoldInput = record {
        request_id = input.request_id;
        organization_id = input.organization_id;
        reason_code = reason;
        response = response;
        held_at = now;
      } in
      let (after, done, row) = hold_inference-returns s call good found running owner in
      subst
        (λ (x : Result StoreError Store).
          IsSettled (held_outcome {A = AdmissionResult} s error x).0 input (held, none))
        (sym done) (hold_row call e, row, refl, unpaid)

  complete_with-settles :
      (d : StoredPolicyDecision) (response : ProviderResult) (now : String)
      (cost : Result ExecutionError ℕ)
      → IsSettled
          (complete_with s input d response now cost).0
          input
          (answered_as e.reserved_cost_atomic cost)
  unfolding complete_with complete_row
  complete_with-settles d response now (err error) =
      hold_after_error-settles (reason_of error) (some response) now error
        (reason_of-is_reason_code error)
  complete_with-settles d response now (ok cost) =
      let call : CompletionInput = record {
        request_id = input.request_id;
        organization_id = input.organization_id;
        actual_cost_atomic = pos cost;
        response = response;
        completed_at = now;
      } in
      let (after, answer, done, row) =
        complete_inference-returns s call (omega arith) found running owner in
      let over = ltb_ℤ e.reserved_cost_atomic (pos cost) in
      let end = answered_as e.reserved_cost_atomic (ok cost) in
      subst
        (λ (x : Result StoreError (Store × CompletionPersistenceResult)).
          IsSettled (completion_outcome s input d response now x).0 input end)
        (sym done)
        (subst (λ (x : Store). IsSettled x input end)
          (sym (completion_outcome-store s input d response now after answer))
          (complete_row (if over then held else completed) call e, row, refl, refl))

  -- The row is executing when the provider's outcome comes, and its mandate is there.
  pub settle_execution-settles :
      (binding : ProviderExecutionBinding) (d : StoredPolicyDecision) (outcome : ProviderOutcome)
      (now : String)
      → IsSettled
          (settle_execution s binding input d outcome now).0
          input
          (settled_as binding e.reserved_cost_atomic outcome)
  unfolding settle_execution fail_inference fail_row
  settle_execution-settles binding d (answers response) now =
      complete_with-settles d response now (actual_cost binding response)
  settle_execution-settles binding d ambiguous now =
      hold_after_error-settles "PROVIDER_OUTCOME_AMBIGUOUS" none now provider_error
        ambiguous-is_reason_code
  settle_execution-settles binding d not_dispatched now =
      let key = is_execution input.organization_id input.request_id in
      let keyed = find-holds key s.executions found in
      let change = fail_row "PROVIDER_NOT_DISPATCHED" now in
      let (a, b, _) = fail_row-KeepsKeys "PROVIDER_NOT_DISPATCHED" now e in
      let row = find-update_self key change s.executions (rw (a, b) keyed) found in
      (
        change e,
        row,
        ap (λ b. (if b then failed_row "PROVIDER_NOT_DISPATCHED" now e else e).status) running,
        ap (λ b. (if b then failed_row "PROVIDER_NOT_DISPATCHED" now e else e).actual_cost_atomic)
              running
            ∙ unpaid,
      )

admission_outcome-admitted :
    (s : Store) (m : Result StoreError (Store × AdmissionResult)) {after : Store}
    {answer : AdmissionResult}
    → admission_outcome s m ≡ (after, ok answer)
    → m ≡ ok (after, answer)
admission_outcome-admitted s (ok (done, given)) {after} {answer} e =
    let same : done ≡ after = ap (λ (x : Store × Result ExecutionError AdmissionResult). x.0) e in
    let told : ok given ≡ ok answer =
      ap (λ (x : Store × Result ExecutionError AdmissionResult). x.1) e in
    let answered = ok-injective told in cc
admission_outcome-admitted s (err failure) {after} {answer} e =
    let told : err (of_store failure) ≡ ok answer =
      ap (λ (x : Store × Result ExecutionError AdmissionResult). x.1) e in
    cc

begin_estimated-admitted :
    (rt : Runtime) (s : Store) (binding : ProviderExecutionBinding)
    (input : ControlledInferenceInput) (id now : String) (cost : Result ExecutionError ℕ)
    {after : Store} {answer : AdmissionResult}
    → begin_estimated rt false s binding input id now cost ≡ (after, ok answer)
    → (estimate : ℕ) × (cost ≡ ok estimate)
      × (admit_inference rt.platform s (admission_input rt binding input estimate now) id
          ≡ ok (after, answer))
unfolding begin_estimated admit_inference
begin_estimated-admitted rt s binding input id now (ok estimate) e =
    (estimate, refl, admission_outcome-admitted s _ e)
begin_estimated-admitted rt s binding input id now (err failure) {after} {answer} e =
    let told : err failure ≡ ok answer =
      ap (λ (x : Store × Result ExecutionError AdmissionResult). x.1) e in
    cc

-- A request that `execute` admits has a row once the provider's call has ended: it has failed, with
-- no cost, if the call was not dispatched; it is held, with no cost, if nobody knows what came of
-- the call, or if the answer is refused or has no cost; else it has the answer's actual cost, and is
-- completed if that is within the amount that was reserved, and held if it is above.
pub begin_execution-settles :
    (rt : Runtime) (s : Store) (binding : ProviderExecutionBinding)
    (input : ControlledInferenceInput) (id now later : String) (outcome : ProviderOutcome)
    {after : Store} {d : StoredPolicyDecision} {reservation : ℤ}
    → begin_execution rt s binding input id now ≡ (after, ok (to_execute d reservation))
    → IsSettled
        (settle_execution after binding input d outcome later).0
        input
        (settled_as binding reservation outcome)
unfolding begin_execution admission_input
begin_execution-settles rt s binding input id now later outcome {after} {d} e =
    let (estimate, _, done) =
      begin_estimated-admitted rt s binding input id now (estimate_cost binding input) e in
    let (row, m, found, running, owner, reserved_in_full, unpaid) =
      admit_inference-row rt.platform s (admission_input rt binding input estimate now) id done in
    subst
      (λ reservation.
        IsSettled (settle_execution after binding input d outcome later).0 input
          (settled_as binding reservation outcome))
      reserved_in_full
      (settle_execution-settles after input found running owner unpaid binding d outcome later)
