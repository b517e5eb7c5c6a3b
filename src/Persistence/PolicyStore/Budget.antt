-- ===== src/Persistence/PolicyStore/Budget.antt =====
-- Whether the money that a mandate's executions count stays within its maximum, in
-- src/persistence/policyStore.ts: what is kept of it by the updates that the operations share.
use fuse_agent_control_plane.Persistence.PolicyStore.{
  ExecutionStatus, control_mandate_not_found, ControlMandate, InferenceExecutionRow, Store,
}
use fuse_agent_control_plane.Persistence.PolicyStore.Tables.{
  update, sum_where, is_executing, is_held, is_mandate, is_execution, is_execution_of, set_state,
  can_hold, put_on_hold, hold_mandate_for_reconciliation, update_execution,
}
use fuse_agent_control_plane.Persistence.PolicyStore.Counters.{
  is_billed, charge, mandate_spent, lesser,
}
use fuse_agent_control_plane.Persistence.PolicyStore.Rows.{
  find-update, sum_where-update_le, All-update, All-find,
}
use fuse_agent_control_plane.Base.{
  String, ◌≡◌, refl, sym, ap, subst, ◌∙◌, ◌⊎◌, inl, inr, Bool, true, false, ◌||◌, Option, none,
  some, List, [], ◌∷◌, arith, Bool-cases, ℤ, pos, ◌≤ℤ◌, ltb_ℤ, int_laws, find, All, ok, or_throw,
  >>=-eq-ok,
}
use fuse_agent_control_plane.Domain.Lifecycles.{reconciliation_hold}

-- What a row counts against its mandate, as far as its reservation covers it.
unfoldable pub covered_charge : InferenceExecutionRow → ℤ
unfolding lesser charge
covered_charge e = lesser (charge e) e.reserved_cost_atomic

unfoldable pub mandate_covered : List InferenceExecutionRow → String → String → ℤ
unfolding covered_charge
mandate_covered rows org mandate = sum_where (is_execution_of org mandate) covered_charge rows

-- A mandate that is not there has no budget.
abbrev pub maximum_of : Option ControlMandate → ℤ
maximum_of none = pos 0
maximum_of (some m) = m.maximum_spend_atomic

abbrev pub is_unsettled : ExecutionStatus → Bool
is_unsettled status = is_executing status || is_held status

-- Only a settled row carries the code of a bill without a response.
abbrev pub IsPlain : InferenceExecutionRow → Type 0
IsPlain e = (pos 0 ≤ℤ e.reserved_cost_atomic) × (is_unsettled e.status ≡ true → is_billed e ≡ false)

pub record IsWithinBudget (s : Store) : Type 0 where
  pub rows : All IsPlain s.executions
  pub budget :
      (org mandate : String)
      → mandate_covered s.executions org mandate
        ≤ℤ maximum_of (find (is_mandate org mandate) s.mandates)

-- A rewrite of a mandate that keeps its key and its maximum.
abbrev pub KeepsMaximum : (ControlMandate → ControlMandate) → Type 0
KeepsMaximum f =
    (m : ControlMandate)
    → ((f m).organization_id ≡ m.organization_id)
      × ((f m).id ≡ m.id)
      × ((f m).maximum_spend_atomic ≡ m.maximum_spend_atomic)

pub maximum_of-update :
    (p : ControlMandate → Bool) (f : ControlMandate → ControlMandate) (ms : List ControlMandate)
    (org mandate : String)
    → KeepsMaximum f
    → maximum_of (find (is_mandate org mandate) (update p f ms))
      ≡ maximum_of (find (is_mandate org mandate) ms)
maximum_of-update p f ms org mandate keeps =
    let keyed : (m : ControlMandate) → is_mandate org mandate (f m) ≡ is_mandate org mandate m =
      λ m. let (a, b, c) = keeps m in rw (a, b) refl in
    elim (find-update p (is_mandate org mandate) f ms keyed) [
      | inl same ↦ ap maximum_of same
      | inr (m, hit, found, after) ↦
          let (a, b, c) = keeps m in ap maximum_of after ∙ c ∙ sym (ap maximum_of found)
    ]

pub same_rows-IsWithinBudget :
    (s after : Store)
    → after.executions ≡ s.executions
    → ((org mandate : String)
        → maximum_of (find (is_mandate org mandate) after.mandates)
          ≡ maximum_of (find (is_mandate org mandate) s.mandates))
    → IsWithinBudget s
    → IsWithinBudget after
same_rows-IsWithinBudget s after same maxima sound = record {
  rows = subst (All IsPlain) (sym same) sound.rows;
  budget = λ org mandate. rw (maxima org mandate, same) (sound.budget org mandate);
}

-- The mandate goes on hold, or stays as it is.
pub hold_mandate-cases :
    (s : Store) (org mandate : String) {after : Store}
    → hold_mandate_for_reconciliation s org mandate ≡ ok after
    → (m : ControlMandate) × (find (is_mandate org mandate) s.mandates ≡ some m)
      × (((can_hold m.state ≡ true) × (put_on_hold s org mandate m.state ≡ after))
          ⊎ (can_hold m.state ≡ false) × (s ≡ after))
unfolding hold_mandate_for_reconciliation
hold_mandate-cases s org mandate done =
    let (m, found, rest) =
      >>=-eq-ok (or_throw (find (is_mandate org mandate) s.mandates) control_mandate_not_found) _
        done in
    (
      m,
      ground arith,
      elim (Bool-cases (can_hold m.state)) [
        | inl open_state ↦ inl (open_state, ground arith)
        | inr final_state ↦ inr (final_state, ground arith)
      ],
    )

pub hold_mandate-IsWithinBudget :
    (s : Store) (org mandate : String) {after : Store}
    → hold_mandate_for_reconciliation s org mandate ≡ ok after
    → IsWithinBudget s
    → IsWithinBudget after
unfolding put_on_hold set_state
hold_mandate-IsWithinBudget s org mandate done sound =
    let (m, _, either) = hold_mandate-cases s org mandate done in
    elim either [
      | inl (_, same) ↦ subst IsWithinBudget same (
          same_rows-IsWithinBudget s (put_on_hold s org mandate m.state) refl
            (λ o i.
              maximum_of-update (is_mandate org mandate) (set_state reconciliation_hold) s.mandates
                o i (λ x. (refl, refl, refl)))
            sound)
      | inr (_, same) ↦ subst IsWithinBudget same sound
    ]

pub update_execution-IsWithinBudget :
    (s : Store) (org request : String) (f : InferenceExecutionRow → InferenceExecutionRow)
    {e : InferenceExecutionRow}
    → find (is_execution org request) s.executions ≡ some e
    → ((f e).organization_id ≡ e.organization_id) × ((f e).mandate_id ≡ e.mandate_id)
    → (IsPlain e → IsPlain (f e) × (covered_charge (f e) ≤ℤ covered_charge e))
    → IsWithinBudget s
    → IsWithinBudget (update_execution s org request f)
unfolding mandate_covered
update_execution-IsWithinBudget s org request f {e} found (keyed, owned) next sound =
    let plain = All-find IsPlain (is_execution org request) s.executions found sound.rows in
    let (_, less) = next plain in
    record {
      rows =
          All-update IsPlain (is_execution org request) f s.executions found (λ q. (next q).0)
            sound.rows;
      budget = λ o m. omega (
        int_laws,
        sound.budget o m,
        sum_where-update_le (is_execution org request) (is_execution_of o m) f covered_charge
            s.executions found (rw (keyed, owned) refl) less,
      );
    }

-- What is covered is no more than what is counted.
pub covered-le-spent :
    (rows : List InferenceExecutionRow) (org mandate : String)
    → mandate_covered rows org mandate ≤ℤ mandate_spent rows org mandate
unfolding mandate_covered mandate_spent covered_charge lesser
covered-le-spent [] org mandate = omega arith
covered-le-spent (e ∷ rows) org mandate =
    let rest = covered-le-spent rows org mandate in
    elim (Bool-cases (is_execution_of org mandate e)) [
      | inl own ↦ elim (Bool-cases (ltb_ℤ (charge e) e.reserved_cost_atomic)) [
        | inl less ↦ rw (own, less) (omega (int_laws, rest))
        | inr more ↦
            let enough : e.reserved_cost_atomic ≤ℤ charge e = ground arith in
            rw (own, more) (omega (int_laws, rest, enough))
      ]
      | inr other ↦ rw other (omega (int_laws, rest))
    ]
