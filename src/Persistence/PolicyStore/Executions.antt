-- ===== src/Persistence/PolicyStore/Executions.antt =====
-- `completeInference`, `holdInference` and `failInference` of src/persistence/policyStore.ts.
use Prim.Native.Char.{code}
use fuse_agent_control_plane.Persistence.PolicyStore.{
  ExecutionStatus, completed, failed, held, StoreError, actual_cost_invalid,
  inference_execution_not_found, inference_execution_not_executing, hold_reason_invalid,
  execution_not_active, InferenceExecutionRow, Store,
}
use fuse_agent_control_plane.Persistence.PolicyStore.Tables.{
  is_executing, is_execution, hold_mandate_for_reconciliation, update_execution,
}
use fuse_agent_control_plane.Base.{
  ℕ, suc, ◌-◌, String, Bool, true, false, ◌&&◌, ◌||◌, not, Option, none, some, leb, eqb,
  if◌then◌else◌, ℤ, pos, ltb_ℤ, find, Result, ok, err, throw_if, or_throw, ◌>>=◌, ◌>>◌,
}
use fuse_agent_control_plane.Core.Service.{ProviderResult}

pub record CompletionInput : Type 0 where
  pub request_id : String
  pub organization_id : String
  pub actual_cost_atomic : ℤ
  pub response : ProviderResult
  pub completed_at : String

-- The status `completed` or `reconciliation_hold`, with the reserved and the actual cost.
pub data CompletionPersistenceResult : Type 0 where
  has_completed is_on_hold : ℤ → ℤ → ProviderResult → CompletionPersistenceResult

pub record HoldInput : Type 0 where
  pub request_id : String
  pub organization_id : String
  pub reason_code : String
  pub response : Option ProviderResult
  pub held_at : String

unfoldable pub complete_row :
    ExecutionStatus → CompletionInput → InferenceExecutionRow → InferenceExecutionRow
complete_row status input e = record e {
  status = status;
  actual_cost_atomic = some input.actual_cost_atomic;
  response_json = some input.response;
  updated_at = input.completed_at;
}

-- A cost above the reservation is kept for reconciliation, and the mandate goes on hold.
unfoldable pub complete_by_cost :
    Bool
    → Store
    → InferenceExecutionRow
    → CompletionInput
    → Result StoreError (Store × CompletionPersistenceResult)
unfolding complete_row hold_mandate_for_reconciliation
complete_by_cost true s e input =
    hold_mandate_for_reconciliation
      (update_execution s input.organization_id input.request_id (complete_row held input))
      input.organization_id e.mandate_id
    >>= λ after.
        ok (after, is_on_hold e.reserved_cost_atomic input.actual_cost_atomic input.response)
complete_by_cost false s e input = ok (
  update_execution s input.organization_id input.request_id (complete_row completed input),
  has_completed e.reserved_cost_atomic input.actual_cost_atomic input.response,
)

unfoldable pub complete_inference :
    Store → CompletionInput → Result StoreError (Store × CompletionPersistenceResult)
unfolding complete_by_cost
complete_inference s input =
    throw_if (ltb_ℤ input.actual_cost_atomic (pos 0)) actual_cost_invalid
    >> (or_throw (find (is_execution input.organization_id input.request_id) s.executions)
          inference_execution_not_found
        >>= λ e.
            throw_if (not (is_executing e.status)) inference_execution_not_executing
            >> complete_by_cost (ltb_ℤ e.reserved_cost_atomic input.actual_cost_atomic) s e input)

is_reason_char : ℕ → Bool
is_reason_char c = leb b'A' c && leb c b'Z' || leb b'0' c && leb c b'9' || eqb c b'_'

reason_chars : ℕ → ℕ → String → Bool
unfolding is_reason_char
reason_chars least most String.[] = eqb least 0
reason_chars least ℕ.zero (String.◌∷◌ c s) = false
reason_chars least (suc most) (String.◌∷◌ c s) =
    is_reason_char (code c) && reason_chars (least - 1) most s

-- The regular expression `^[A-Z0-9_]{3,64}$`.
unfoldable pub is_reason_code : String → Bool
unfolding reason_chars
is_reason_code s = reason_chars 3 64 s

unfoldable pub hold_row : HoldInput → InferenceExecutionRow → InferenceExecutionRow
hold_row input e = record e {
  status = held;
  response_json = input.response;
  failure_code = some input.reason_code;
  updated_at = input.held_at;
}

unfoldable pub hold_found :
    Store → HoldInput → Option InferenceExecutionRow → Result StoreError Store
unfolding hold_row hold_mandate_for_reconciliation
hold_found s input none = err execution_not_active
hold_found s input (some e) =
    throw_if (not (is_executing e.status)) execution_not_active
    >> hold_mandate_for_reconciliation
        (update_execution s input.organization_id input.request_id (hold_row input))
        input.organization_id e.mandate_id

unfoldable pub hold_inference : Store → HoldInput → Result StoreError Store
unfolding is_reason_code hold_found
hold_inference s input =
    throw_if (not (is_reason_code input.reason_code)) hold_reason_invalid
    >> hold_found s input (find (is_execution input.organization_id input.request_id) s.executions)

abbrev pub failed_row : String → String → InferenceExecutionRow → InferenceExecutionRow
failed_row failure_code failed_at e = record e {
  status = failed;
  failure_code = some failure_code;
  updated_at = failed_at;
}

unfoldable pub fail_row : String → String → InferenceExecutionRow → InferenceExecutionRow
fail_row failure_code failed_at e =
    if is_executing e.status then failed_row failure_code failed_at e else e

-- Only a row that is executing is changed, and nothing is thrown for another.
unfoldable pub fail_inference : Store → String → String → String → String → Store
unfolding fail_row
fail_inference s org request failure_code failed_at =
    update_execution s org request (fail_row failure_code failed_at)
