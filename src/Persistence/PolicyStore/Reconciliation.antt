-- ===== src/Persistence/PolicyStore/Reconciliation.antt =====
-- `resolveReconciliation` of src/persistence/policyStore.ts.
use fuse_agent_control_plane.Persistence.PolicyStore.{
  completed, failed, ReconciliationResolution, settle, confirm_not_billed, StoreError,
  control_mandate_not_found, inference_execution_not_found, reconciliation_organization_required,
  reconciliation_request_required, reconciliation_note_invalid, reconciliation_reference_invalid,
  reconciliation_actual_cost_required, reconciliation_actual_cost_forbidden,
  reconciliation_resolution_conflict, reconciliation_case_not_open,
  reconciliation_mandate_state_missing, reconciliation_mandate_state_conflict,
  PolicyMutationContext, ControlMandate, InferenceExecutionRow, Resolution, ReconciliationHold,
  Store, Platform,
}
use fuse_agent_control_plane.Persistence.PolicyStore.Tables.{
  update, is_held, is_mandate, is_execution, is_execution_of, is_resolution, is_hold,
  validate_context, set_state,
}
use fuse_agent_control_plane.Base.{
  is_blank, String, Bool, true, false, ◌&&◌, ◌||◌, not, Option, none, some, List, ◌∷◌, ◌==◌, ltb,
  if◌then◌else◌, is_some, ℤ, pos, ltb_ℤ, eqb_ℤ, any, keep, find, Result, ok, err, throw_if,
  or_throw, ◌>>=◌, ◌>>◌,
}
use fuse_agent_control_plane.Domain.Lifecycles.{
  MandateState, active, paused, closing, closed, lapsed, reconciliation_hold,
}
use fuse_agent_control_plane.Signer.AuthorizationStore.{utf16_length}

pub record ResolveReconciliationInput : Type 0 where
  pub context : PolicyMutationContext
  pub organization_id : String
  pub request_id : String
  pub resolution : ReconciliationResolution
  pub actual_cost_atomic : Option ℤ
  pub note : String
  pub external_reference : String

abbrev is_resolved : List Resolution → InferenceExecutionRow → Bool
is_resolved resolutions e = any (is_resolution e.organization_id e.request_id) resolutions

-- A case is open while its row is held and has no resolution.
abbrev pub is_open_case : List Resolution → InferenceExecutionRow → Bool
is_open_case resolutions e = is_held e.status && not (is_resolved resolutions e)

unfoldable pub validate_resolution_cost : ReconciliationResolution → Option ℤ → Result StoreError ℤ
validate_resolution_cost settle none = err reconciliation_actual_cost_required
validate_resolution_cost settle (some cost) =
    throw_if (ltb_ℤ cost (pos 0)) reconciliation_actual_cost_required >> ok cost
validate_resolution_cost confirm_not_billed none = ok (pos 0)
validate_resolution_cost confirm_not_billed (some cost) = err reconciliation_actual_cost_forbidden

-- The checks of the input; the result is the actual cost.
unfoldable pub validate_resolution : Platform → ResolveReconciliationInput → Result StoreError ℤ
unfolding validate_context validate_resolution_cost
validate_resolution js input =
    validate_context js input.context
    >> throw_if (is_blank input.organization_id) reconciliation_organization_required
    >> throw_if (is_blank input.request_id) reconciliation_request_required
    >> throw_if (is_blank input.note || ltb 2000 (utf16_length input.note))
        reconciliation_note_invalid
    >> throw_if
        (is_blank input.external_reference || ltb 512 (utf16_length input.external_reference))
        reconciliation_reference_invalid
    >> validate_resolution_cost input.resolution input.actual_cost_atomic

abbrev same_resolution : ReconciliationResolution → ReconciliationResolution → Bool
same_resolution settle settle = true
same_resolution confirm_not_billed confirm_not_billed = true
same_resolution settle confirm_not_billed = false
same_resolution confirm_not_billed settle = false

unfoldable pub is_exact_replay : Resolution → ResolveReconciliationInput → ℤ → Bool
is_exact_replay r input cost =
    same_resolution r.resolution input.resolution
    && eqb_ℤ r.actual_cost_atomic cost
    && r.note == input.note
    && r.external_reference == input.external_reference
    && r.resolved_by == input.context.actor_id

abbrev pub billed_row : ℤ → String → InferenceExecutionRow → InferenceExecutionRow
billed_row cost at e = record e {
  status = completed;
  actual_cost_atomic = some cost;
  failure_code = none;
  updated_at = at;
}

abbrev pub unanswered_row : ℤ → String → InferenceExecutionRow → InferenceExecutionRow
unanswered_row cost at e = record e {
  status = failed;
  actual_cost_atomic = some cost;
  failure_code = some "RECONCILED_BILLED_NO_RESPONSE";
  updated_at = at;
}

unfoldable pub resolved_row :
    ReconciliationResolution → ℤ → String → InferenceExecutionRow → InferenceExecutionRow
resolved_row settle cost at e =
    if is_some e.response_json then billed_row cost at e else unanswered_row cost at e
resolved_row confirm_not_billed cost at e = record e {
  status = failed;
  actual_cost_atomic = some cost;
  failure_code = some "RECONCILED_NOT_BILLED";
  updated_at = at;
}

unfoldable pub settled_store : Store → ResolveReconciliationInput → ℤ → Store
unfolding resolved_row
settled_store s input cost = record s {
  resolutions =
      record {
        organization_id = input.organization_id;
        request_id = input.request_id;
        resolution = input.resolution;
        actual_cost_atomic = cost;
        note = input.note;
        external_reference = input.external_reference;
        resolved_by = input.context.actor_id;
      }
      ∷ s.resolutions;
  executions =
      update (is_execution input.organization_id input.request_id)
        (resolved_row input.resolution cost input.context.occurred_at) s.executions;
}

unfoldable pub has_open_cases : Store → String → String → Bool
has_open_cases s org mandate =
    any (λ e. is_execution_of org mandate e && is_open_case s.resolutions e) s.executions

-- An active mandate comes back paused.
abbrev pub restored_state : MandateState → MandateState
restored_state active = paused
restored_state state = state

unfoldable pub without_hold : Store → String → String → Store
without_hold s org mandate = record s { holds = keep (λ h. not (is_hold org mandate h)) s.holds }

unfoldable pub release_mandate :
    MandateState → Store → String → String → MandateState → Result StoreError Store
unfolding without_hold set_state
release_mandate reconciliation_hold s org mandate prior = ok (
    without_hold
      (record s {
        mandates = update (is_mandate org mandate) (set_state (restored_state prior)) s.mandates;
      })
      org mandate)
release_mandate closing s org mandate prior = ok (without_hold s org mandate)
release_mandate state s org mandate prior = err (reconciliation_mandate_state_conflict state)

abbrev pub release_without_hold : MandateState → Store → Result StoreError Store
release_without_hold closed s = ok s
release_without_hold lapsed s = ok s
release_without_hold _ s = err reconciliation_mandate_state_missing

unfoldable pub release_last :
    Store → String → ControlMandate → Option ReconciliationHold → Result StoreError Store
unfolding release_mandate
release_last s org m none = release_without_hold m.state s
release_last s org m (some h) = release_mandate m.state s org m.id h.prior_state

-- Once no case of the mandate is open, the mandate comes off its hold.
unfoldable pub release_if_clear : Store → String → String → Result StoreError Store
unfolding has_open_cases release_last
release_if_clear s org mandate =
    or_throw (find (is_mandate org mandate) s.mandates) control_mandate_not_found >>= λ m.
    if has_open_cases s org mandate
    then ok s
    else release_last s org m (find (is_hold org mandate) s.holds)

unfoldable pub resolve_found :
    Store
    → ResolveReconciliationInput
    → ℤ
    → InferenceExecutionRow
    → Option Resolution
    → Result StoreError Store
unfolding is_exact_replay settled_store release_if_clear
resolve_found s input cost e (some r) =
    throw_if (not (is_exact_replay r input cost)) reconciliation_resolution_conflict >> ok s
resolve_found s input cost e none =
    throw_if (not (is_held e.status)) reconciliation_case_not_open
    >> release_if_clear (settled_store s input cost) input.organization_id e.mandate_id

unfoldable pub resolve_reconciliation :
    Platform → Store → ResolveReconciliationInput → Result StoreError Store
unfolding validate_resolution resolve_found
resolve_reconciliation js s input = validate_resolution js input >>= λ cost.
    or_throw (find (is_execution input.organization_id input.request_id) s.executions)
      inference_execution_not_found
    >>= λ e.
        resolve_found s input cost e
          (find (is_resolution input.organization_id input.request_id) s.resolutions)
