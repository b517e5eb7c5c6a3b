-- ===== src/Persistence/PolicyStore/Gate.antt =====
-- An invariant of the tables of src/persistence/policyStore.ts: an execution that is held keeps its
-- mandate out of the states in which requests are admitted.
use fuse_agent_control_plane.Persistence.PolicyStore.{
  ExecutionStatus, denied, executing, completed, failed, held, ControlMandate,
  InferenceExecutionRow, Resolution, ReconciliationHold, Store,
}
use fuse_agent_control_plane.Persistence.PolicyStore.Tables.{
  update, is_mandate, is_execution, is_resolution, can_hold,
}
use fuse_agent_control_plane.Persistence.PolicyStore.Rows.{find-update}
use fuse_agent_control_plane.Persistence.PolicyStore.Budget.{is_unsettled}
use fuse_agent_control_plane.Base.{
  String, ◌≡◌, refl, sym, subst, ◌∙◌, inl, inr, Bool, true, false, not, Option, none, some, List,
  [], ◌∷◌, arith, eq_iff, Bool-cases, any, find, All,
}
use fuse_agent_control_plane.Domain.Lifecycles.{
  MandateState, draft, closing, closed, lapsed, reconciliation_hold,
}

-- The states of a mandate that may have an open reconciliation case.
abbrev pub is_shut : MandateState → Bool
is_shut reconciliation_hold = true
is_shut closing = true
is_shut closed = true
is_shut lapsed = true
is_shut _ = false

abbrev pub is_draft_state : MandateState → Bool
is_draft_state draft = true
is_draft_state _ = false

-- What a row's status asks of the state of its mandate.
abbrev pub fits_state : ExecutionStatus → MandateState → Bool
fits_state executing state = not (is_draft_state state)
fits_state held state = is_shut state
fits_state denied state = true
fits_state completed state = true
fits_state failed state = true

abbrev pub placed : Option ControlMandate → ExecutionStatus → Bool
placed none status = not (is_unsettled status)
placed (some m) status = fits_state status m.state

abbrev pub IsPlaced : List ControlMandate → InferenceExecutionRow → Type 0
IsPlaced ms e = placed (find (is_mandate e.organization_id e.mandate_id) ms) e.status ≡ true

abbrev pub IsUnresolved : List Resolution → InferenceExecutionRow → Type 0
IsUnresolved resolutions e =
    is_unsettled e.status ≡ true
    → any (is_resolution e.organization_id e.request_id) resolutions ≡ false

-- No two rows have the same key.
abbrev pub IsUnique : List InferenceExecutionRow → Type 0
IsUnique [] = Unit {0}
IsUnique (e ∷ rows) =
    (find (is_execution e.organization_id e.request_id) rows ≡ none) × IsUnique rows

pub record IsGated (s : Store) : Type 0 where
  pub unique : IsUnique s.executions
  pub places : All (IsPlaced s.mandates) s.executions
  pub unresolved : All (IsUnresolved s.resolutions) s.executions
  pub known :
      (org request : String)
      → find (is_execution org request) s.executions ≡ none
      → any (is_resolution org request) s.resolutions ≡ false
  pub priors : All (λ (h : ReconciliationHold). can_hold h.prior_state ≡ true) s.holds

-- A row that is rewritten keeps its keys.
abbrev pub KeepsKeys : InferenceExecutionRow → InferenceExecutionRow → Type 0
KeepsKeys changed e =
    (changed.organization_id ≡ e.organization_id)
    × (changed.request_id ≡ e.request_id)
    × (changed.mandate_id ≡ e.mandate_id)

missing-update :
    (org request : String) (f : InferenceExecutionRow → InferenceExecutionRow) (o r : String)
    (rows : List InferenceExecutionRow)
    → ((e : InferenceExecutionRow) → KeepsKeys (f e) e)
    → find (is_execution o r) rows ≡ none
    → find (is_execution o r) (update (is_execution org request) f rows) ≡ none
missing-update org request f o r rows keeps missing =
    elim (find-update (is_execution org request) (is_execution o r) f rows
      (λ e. let (a, b, _) = keeps e in rw (a, b) refl)) [
        | inl same ↦ same ∙ missing
        | inr (e, _, found, _) ↦ let clash : some e ≡ none = sym found ∙ missing in cc
      ]

pub update-IsUnique :
    (org request : String) (f : InferenceExecutionRow → InferenceExecutionRow)
    (rows : List InferenceExecutionRow)
    → ((e : InferenceExecutionRow) → KeepsKeys (f e) e)
    → IsUnique rows
    → IsUnique (update (is_execution org request) f rows)
update-IsUnique org request f [] keeps unique = tt
update-IsUnique org request f (e ∷ rows) keeps (first, others) =
    elim (Bool-cases (is_execution org request e)) [
      | inl here ↦
          let (a, b, _) = keeps e in
          rw here (
            subst (λ o. find (is_execution o (f e).request_id) rows ≡ none) (sym a)
                (subst (λ r. find (is_execution e.organization_id r) rows ≡ none) (sym b) first),
            others,
          )
      | inr there ↦ rw there (
        missing-update org request f e.organization_id e.request_id rows keeps first,
        update-IsUnique org request f rows keeps others,
      )
    ]

-- A row that is not found after an update was not there before.
pub missing_before :
    (org request : String) (f : InferenceExecutionRow → InferenceExecutionRow) (o r : String)
    (rows : List InferenceExecutionRow)
    → ((e : InferenceExecutionRow) → KeepsKeys (f e) e)
    → find (is_execution o r) (update (is_execution org request) f rows) ≡ none
    → find (is_execution o r) rows ≡ none
missing_before org request f o r rows keeps missing =
    elim (find-update (is_execution org request) (is_execution o r) f rows
      (λ e. let (a, b, _) = keeps e in rw (a, b) refl)) [
        | inl same ↦ sym same ∙ missing
        | inr (e, _, _, after) ↦ let clash : some (f e) ≡ none = sym after ∙ missing in cc
      ]

-- What holds of every row after an update, when nothing but the updated row has the key.
All-missing :
    (P Q : InferenceExecutionRow → Type 0) (org request : String)
    (rows : List InferenceExecutionRow)
    → ((e : InferenceExecutionRow) → is_execution org request e ≡ false → P e → Q e)
    → find (is_execution org request) rows ≡ none
    → All P rows
    → All Q rows
All-missing P Q org request [] next missing every = tt
All-missing P Q org request (e ∷ rows) next missing (first, others) =
    elim (Bool-cases (is_execution org request e)) [
      | inl here ↦ let clash : some e ≡ none = rw here at missing in cc
      | inr there ↦
          (next e there first, All-missing P Q org request rows next (rw there at missing) others)
    ]

pub All-update_other :
    (P Q : InferenceExecutionRow → Type 0) (org request : String)
    (f : InferenceExecutionRow → InferenceExecutionRow) (rows : List InferenceExecutionRow)
    {e : InferenceExecutionRow}
    → IsUnique rows
    → find (is_execution org request) rows ≡ some e
    → ((x : InferenceExecutionRow) → is_execution org request x ≡ false → P x → Q x)
    → (P e → Q (f e))
    → All P rows
    → All Q (update (is_execution org request) f rows)
All-update_other P Q org request f [] unique found next this every = tt
All-update_other P Q org request f (x ∷ rows) {e} (first_key, unique) found next this
      (first, others) =
    elim (Bool-cases (is_execution org request x)) [
      | inl here ↦
          let same : x ≡ e = ground arith in
          let same_org : x.organization_id ≡ org = ground (arith, eq_iff x.organization_id org) in
          let same_request : x.request_id ≡ request = ground (arith, eq_iff x.request_id request) in
          let alone : find (is_execution org request) rows ≡ none =
            subst (λ o. find (is_execution o request) rows ≡ none) same_org
              (subst (λ r. find (is_execution x.organization_id r) rows ≡ none) same_request
                first_key) in
          rw here (
            subst (λ z. Q (f z)) (sym same) (this (subst P same first)),
            All-missing P Q org request rows next alone others,
          )
      | inr there ↦ rw there (
        next x there first,
        All-update_other P Q org request f rows unique (rw there at found) next this others,
      )
    ]
