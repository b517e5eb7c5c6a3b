-- ===== src/Persistence/PolicyStore/Listing.antt =====
-- `listReconciliationCases` of src/persistence/policyStore.ts. The order of texts in the database is
-- an argument.
use fuse_agent_control_plane.Persistence.PolicyStore.{
  StoreError, reconciliation_organization_required, InferenceExecutionRow, Resolution, Store,
  Platform,
}
use fuse_agent_control_plane.Persistence.PolicyStore.Tables.{is_execution_of}
use fuse_agent_control_plane.Persistence.PolicyStore.Admission.{instant}
use fuse_agent_control_plane.Persistence.PolicyStore.Reconciliation.{is_open_case, has_open_cases}
use fuse_agent_control_plane.Base.{
  is_blank, String, ◌≡◌, refl, ap, ◌∙◌, Bool, ◌&&◌, ◌||◌, Option, none, some, List, [], ◌∷◌, map,
  arith, ◌==◌, if◌then◌else◌, is_some, ℤ, ltb_ℤ, eqb_ℤ, any, keep, Result, ok, throw_if, ◌>>◌,
  >>-eq-ok, ok-injective, sym,
}

pub record ReconciliationCase : Type 0 where
  pub request_id : String
  pub mandate_id : String
  pub agent_id : String
  pub provider : String
  pub model : String
  pub reason_code : String
  pub reserved_cost_atomic : ℤ
  pub reported_cost_atomic : Option ℤ
  pub has_provider_response : Bool
  pub held_at : String

abbrev text_or : Option String → String → String
text_or none other = other
text_or (some t) other = t

unfoldable reconciliation_case : Platform → InferenceExecutionRow → ReconciliationCase
reconciliation_case js e = record {
  request_id = e.request_id;
  mandate_id = e.mandate_id;
  agent_id = e.agent_id;
  provider = e.provider;
  model = e.model;
  reason_code = text_or e.failure_code "COST_OVERRUN";
  reserved_cost_atomic = e.reserved_cost_atomic;
  reported_cost_atomic = e.actual_cost_atomic;
  has_provider_response = is_some e.response_json;
  held_at = js.to_iso e.updated_at;
}

-- The code sorts them by the time of their last change.
-- `ORDER BY updated_at ASC, request_id ASC`.
unfoldable comes_before :
    Platform → (String → String → Bool) → InferenceExecutionRow → InferenceExecutionRow → Bool
comes_before js text_before e other =
    ltb_ℤ (instant js e.updated_at) (instant js other.updated_at)
    || eqb_ℤ (instant js e.updated_at) (instant js other.updated_at)
      && text_before e.request_id other.request_id

unfoldable insert_case :
    (InferenceExecutionRow → InferenceExecutionRow → Bool)
    → InferenceExecutionRow
    → List InferenceExecutionRow
    → List InferenceExecutionRow
insert_case before e [] = e ∷ []
insert_case before e (other ∷ rows) =
    let rest = insert_case before e rows in
    if before e other then e ∷ other ∷ rows else other ∷ rest

unfoldable order_cases :
    (InferenceExecutionRow → InferenceExecutionRow → Bool)
    → List InferenceExecutionRow
    → List InferenceExecutionRow
unfolding insert_case
order_cases before [] = []
order_cases before (e ∷ rows) = insert_case before e (order_cases before rows)

unfoldable pub list_reconciliation_cases :
    Platform
    → (String → String → Bool)
    → Store
    → String
    → Result StoreError (List ReconciliationCase)
unfolding reconciliation_case comes_before order_cases
list_reconciliation_cases js text_before s org =
    throw_if (is_blank org) reconciliation_organization_required
    >> ok (
        map (reconciliation_case js) (
          order_cases (comes_before js text_before)
            (keep (λ e. e.organization_id == org && is_open_case s.resolutions e) s.executions)))

any-insert_case :
    (p : InferenceExecutionRow → Bool)
    (before : InferenceExecutionRow → InferenceExecutionRow → Bool) (e : InferenceExecutionRow)
    (rows : List InferenceExecutionRow)
    → any p (insert_case before e rows) ≡ (p e || any p rows)
unfolding insert_case
any-insert_case p before e [] = refl
any-insert_case p before e (other ∷ rows) =
    let tail = any-insert_case p before e rows in ground (arith, tail)

any-order_cases :
    (p : InferenceExecutionRow → Bool)
    (before : InferenceExecutionRow → InferenceExecutionRow → Bool)
    (rows : List InferenceExecutionRow)
    → any p (order_cases before rows) ≡ any p rows
unfolding order_cases
any-order_cases p before [] = refl
any-order_cases p before (e ∷ rows) =
    any-insert_case p before e (order_cases before rows)
    ∙ ap (λ b. p e || b) (any-order_cases p before rows)

any-listed :
    (js : Platform) (resolutions : List Resolution) (org mandate : String)
    (rows : List InferenceExecutionRow)
    → any
        (λ (e : InferenceExecutionRow). e.mandate_id == mandate)
        (keep (λ e. e.organization_id == org && is_open_case resolutions e) rows)
      ≡ any (λ e. is_execution_of org mandate e && is_open_case resolutions e) rows
any-listed js resolutions org mandate [] = refl
any-listed js resolutions org mandate (e ∷ rows) =
    let tail = any-listed js resolutions org mandate rows in ground (arith, tail)

any-reconciliation_case :
    (js : Platform) (mandate : String) (rows : List InferenceExecutionRow)
    → any (λ (c : ReconciliationCase). c.mandate_id == mandate) (map (reconciliation_case js) rows)
      ≡ any (λ (e : InferenceExecutionRow). e.mandate_id == mandate) rows
unfolding reconciliation_case
any-reconciliation_case js mandate [] = refl
any-reconciliation_case js mandate (e ∷ rows) =
    ap (λ b. e.mandate_id == mandate || b) (any-reconciliation_case js mandate rows)

-- The listing of an organization's reconciliation cases, in whatever order the database compares
-- texts, has a case of a mandate exactly when `resolve_reconciliation` finds one open on it.
pub list_reconciliation_cases-has_open_cases :
    (js : Platform) (text_before : String → String → Bool) (s : Store) (org mandate : String)
    {cases : List ReconciliationCase}
    → list_reconciliation_cases js text_before s org ≡ ok cases
    → any (λ (c : ReconciliationCase). c.mandate_id == mandate) cases ≡ has_open_cases s org mandate
unfolding list_reconciliation_cases has_open_cases
list_reconciliation_cases-has_open_cases js text_before s org mandate {cases} done =
    let found = keep (λ e. e.organization_id == org && is_open_case s.resolutions e) s.executions in
    let (_, given) =
      >>-eq-ok (throw_if (is_blank org) reconciliation_organization_required) _ done in
    ap (any (λ (c : ReconciliationCase). c.mandate_id == mandate)) (sym (ok-injective given))
    ∙ any-reconciliation_case js mandate (order_cases (comes_before js text_before) found)
    ∙ any-order_cases (λ (e : InferenceExecutionRow). e.mandate_id == mandate)
        (comes_before js text_before) found
    ∙ any-listed js s.resolutions org mandate s.executions
