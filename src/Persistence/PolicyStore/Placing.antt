-- ===== src/Persistence/PolicyStore/Placing.antt =====
-- The updates that the operations of src/persistence/policyStore.ts share keep the invariant of
-- Gate.
use fuse_agent_control_plane.Persistence.PolicyStore.{
  ExecutionStatus, denied, executing, completed, failed, held, ControlMandate,
  InferenceExecutionRow, Store,
}
use fuse_agent_control_plane.Persistence.PolicyStore.Tables.{
  update, is_executing, is_mandate, is_execution, is_execution_of, is_hold, set_state, can_hold,
  add_hold, put_on_hold, hold_mandate_for_reconciliation, update_execution,
}
use fuse_agent_control_plane.Persistence.PolicyStore.Rows.{
  find-update_self, find-update, All-find, find-holds,
}
use fuse_agent_control_plane.Persistence.PolicyStore.Budget.{is_unsettled, hold_mandate-cases}
use fuse_agent_control_plane.Persistence.PolicyStore.Gate.{
  IsGated, is_shut, is_draft_state, fits_state, placed, IsPlaced, IsUnresolved, KeepsKeys,
  update-IsUnique, missing_before, All-update_other,
}
use fuse_agent_control_plane.Base.{
  String, ◌≡◌, refl, sym, ap, subst, ◌∙◌, inl, inr, true, false, not, decide, decide_iff, some,
  List, [], ◌∷◌, arith, eq_iff, eq_refl, Bool-cases, any, find, All, ok,
}
use fuse_agent_control_plane.Domain.Lifecycles.{
  MandateState, reconciliation_hold, listed, MandateState-discrete, mandate_transitions,
}

-- A mandate's rewrite fits the rows that it fitted before.
abbrev pub KeepsFit : ControlMandate → ControlMandate → Type 0
KeepsFit m changed = (changed.organization_id ≡ m.organization_id) × (changed.id ≡ m.id)

pub update_mandates-places :
    (org mandate : String) (f : ControlMandate → ControlMandate) (ms : List ControlMandate)
    (rows : List InferenceExecutionRow) {m : ControlMandate}
    → find (is_mandate org mandate) ms ≡ some m
    → ((x : ControlMandate) → KeepsFit x (f x))
    → All
        (λ e.
          is_execution_of org mandate e ≡ true
          → fits_state e.status m.state ≡ true
          → fits_state e.status (f m).state ≡ true)
        rows
    → All (IsPlaced ms) rows
    → All (IsPlaced (update (is_mandate org mandate) f ms)) rows
update_mandates-places org mandate f ms [] found keeps fit every = tt
update_mandates-places org mandate f ms (e ∷ rows) {m} found keeps (fits, more) (first, others) =
    let rest = update_mandates-places org mandate f ms rows found keeps more others in
    elim (find-update (is_mandate org mandate) (is_mandate e.organization_id e.mandate_id) f ms
      (λ x. let (a, b) = keeps x in rw (a, b) refl)) [
        | inl same ↦ (ap (λ o. placed o e.status) same ∙ first, rest)
        | inr (x, hit, asked, after) ↦
            let own = find-holds (is_mandate e.organization_id e.mandate_id) ms asked in
            let same_org : e.organization_id ≡ org =
              ground
                (arith, eq_iff x.organization_id org, eq_iff x.organization_id e.organization_id) in
            let same_mandate : e.mandate_id ≡ mandate =
              ground (arith, eq_iff x.id mandate, eq_iff x.id e.mandate_id) in
            let found_too : find (is_mandate e.organization_id e.mandate_id) ms ≡ some m =
              subst (λ o. find (is_mandate o e.mandate_id) ms ≡ some m) (sym same_org)
                (subst (λ i. find (is_mandate org i) ms ≡ some m) (sym same_mandate) found) in
            let same : x ≡ m = let both : some x ≡ some m = sym asked ∙ found_too in cc in
            let before : fits_state e.status m.state ≡ true =
              ap (λ o. placed o e.status) (sym found_too) ∙ first in
            let owned : is_execution_of org mandate e ≡ true =
              rw (same_org, same_mandate, eq_refl org, eq_refl mandate) refl in
            let now : fits_state e.status (f x).state ≡ true =
              ap (λ (z : ControlMandate). fits_state e.status (f z).state) same
              ∙ fits owned before in
            (ap (λ o. placed o e.status) after ∙ now, rest)
      ]

pub All-always : {A : Type 0} (P : A → Type 0) (xs : List A) → ((x : A) → P x) → All P xs
All-always P [] every = tt
All-always P (x ∷ xs) every = (every x, All-always P xs every)

listed-All :
    (P : MandateState → Type 0) (target : MandateState) (states : List MandateState)
    → listed MandateState-discrete target states ≡ true
    → All P states
    → P target
listed-All P target [] found every = cc
listed-All P target (state ∷ states) found (first, others) =
    elim (Bool-cases (decide (MandateState-discrete state target))) [
      | inl here ↦ subst P ((decide_iff _).0 here) first
      | inr there ↦ listed-All P target states (rw there at found) others
    ]

-- A transition leads to a state that the rows of the mandate fit.
pub transition-fits :
    (status : ExecutionStatus) (state target : MandateState)
    → listed MandateState-discrete target (mandate_transitions state) ≡ true
    → fits_state status state ≡ true
    → fits_state status target ≡ true
unfolding mandate_transitions
transition-fits denied state target found before = refl
transition-fits completed state target found before = refl
transition-fits failed state target found before = refl
transition-fits executing state target found before =
    listed-All (λ s. fits_state executing s ≡ true) target (mandate_transitions state) found
      (to_running state)
  where
    to_running :
        (state : MandateState)
        → All (λ s. fits_state executing s ≡ true) (mandate_transitions state)
    to_running state = ground arith
transition-fits held state target found before =
    listed-All (λ s. fits_state held s ≡ true) target (mandate_transitions state) found
      (to_shut state before)
  where
    to_shut :
        (state : MandateState)
        → is_shut state ≡ true
        → All (λ s. fits_state held s ≡ true) (mandate_transitions state)
    to_shut state shut = ground arith

-- A row is rewritten, by a function that keeps keys.
pub update_rows-IsGated :
    (s : Store) (org request : String) (f : InferenceExecutionRow → InferenceExecutionRow)
    {e : InferenceExecutionRow}
    → find (is_execution org request) s.executions ≡ some e
    → ((x : InferenceExecutionRow) → KeepsKeys (f x) x)
    → placed (find (is_mandate e.organization_id e.mandate_id) s.mandates) (f e).status ≡ true
    → (is_unsettled (f e).status ≡ true → is_unsettled e.status ≡ true)
    → IsGated s
    → IsGated (update_execution s org request f)
update_rows-IsGated s org request f {e} found keeps fits open_before gated =
    let (a, b, c) = keeps e in
    record {
      unique = update-IsUnique org request f s.executions keeps gated.unique;
      places =
          All-update_other (IsPlaced s.mandates) (IsPlaced s.mandates) org request f s.executions
            gated.unique found (λ x _ q. q)
            (λ q.
              subst
                (λ o. placed (find (is_mandate o (f e).mandate_id) s.mandates) (f e).status ≡ true)
                (sym a)
                (subst
                  (λ i.
                    placed (find (is_mandate e.organization_id i) s.mandates) (f e).status ≡ true)
                  (sym c) fits))
            gated.places;
      unresolved =
          All-update_other (IsUnresolved s.resolutions) (IsUnresolved s.resolutions) org request f
            s.executions gated.unique found (λ x _ q. q)
            (λ q open_now. rw (a, b) (q (open_before open_now))) gated.unresolved;
      known = λ o r missing.
          gated.known o r (missing_before org request f o r s.executions keeps missing);
      priors = gated.priors;
    }

always_fits_hold : (status : ExecutionStatus) → fits_state status reconciliation_hold ≡ true
always_fits_hold status = ground arith

put_on_hold-IsGated :
    (s : Store) (org mandate : String) (m : ControlMandate)
    → find (is_mandate org mandate) s.mandates ≡ some m
    → can_hold m.state ≡ true
    → IsGated s
    → IsGated (put_on_hold s org mandate m.state)
unfolding put_on_hold add_hold set_state
put_on_hold-IsGated s org mandate m found can gated = record {
  unique = gated.unique;
  places =
      update_mandates-places org mandate (set_state reconciliation_hold) s.mandates s.executions
        found (λ x. (refl, refl)) (All-always _ s.executions (λ e _ _. always_fits_hold e.status))
        gated.places;
  unresolved = gated.unresolved;
  known = gated.known;
  priors = elim (Bool-cases (any (is_hold org mandate) s.holds)) [
    | inl there ↦ rw there gated.priors
    | inr first ↦ rw first (can, gated.priors)
  ];
}

shut_or_holdable :
    (state : MandateState)
    → can_hold state ≡ false
    → not (is_draft_state state) ≡ true
    → is_shut state ≡ true
shut_or_holdable state final not_draft = ground arith

pub executing-eq : (status : ExecutionStatus) → is_executing status ≡ true → status ≡ executing
executing-eq status h = ground arith

held_elsewhere :
    (s : Store) (org request mandate : String) (f : InferenceExecutionRow → InferenceExecutionRow)
    {e : InferenceExecutionRow} (m : ControlMandate)
    → find (is_execution org request) s.executions ≡ some e
    → is_executing e.status ≡ true
    → ((x : InferenceExecutionRow) → KeepsKeys (f x) x)
    → (f e).status ≡ held
    → find (is_mandate e.organization_id e.mandate_id) s.mandates ≡ some m
    → is_shut m.state ≡ true
    → IsGated s
    → IsGated (update_execution s org request f)
held_elsewhere s org request mandate f {e} m found running keeps now_held own shut gated =
    update_rows-IsGated s org request f found keeps
      (ap (λ o. placed o (f e).status) own ∙ ap (λ st. fits_state st m.state) now_held ∙ shut)
      (λ _. rw running refl) gated

-- An executing row is held, with its mandate.
pub held_row-IsGated :
    (s : Store) (org request mandate : String) (f : InferenceExecutionRow → InferenceExecutionRow)
    {e : InferenceExecutionRow} {after : Store}
    → find (is_execution org request) s.executions ≡ some e
    → is_executing e.status ≡ true
    → ((x : InferenceExecutionRow) → KeepsKeys (f x) x)
    → (f e).status ≡ held
    → (e.organization_id ≡ org) × (e.mandate_id ≡ mandate)
    → hold_mandate_for_reconciliation (update_execution s org request f) org mandate ≡ ok after
    → IsGated s
    → IsGated after
unfolding put_on_hold set_state
held_row-IsGated s org request mandate f {e} {after} found running keeps now_held
      (same_org, same_mandate) done gated =
    let (m, known, either) =
      hold_mandate-cases (update_execution s org request f) org mandate done in
    let at_own : (ms : List ControlMandate) (x : ControlMandate)
        → find (is_mandate org mandate) ms ≡ some x
        → find (is_mandate e.organization_id e.mandate_id) ms ≡ some x =
      λ ms x h.
        subst (λ o. find (is_mandate o e.mandate_id) ms ≡ some x) (sym same_org)
          (subst (λ i. find (is_mandate org i) ms ≡ some x) (sym same_mandate) h) in
    elim either [
      | inl (can, same) ↦
          let on_hold = put_on_hold s org mandate m.state in
          let keyed = find-holds (is_mandate org mandate) s.mandates known in
          let now =
            find-update_self (is_mandate org mandate) (set_state reconciliation_hold) s.mandates
              keyed known in
          subst IsGated same (
            held_elsewhere on_hold org request mandate f (set_state reconciliation_hold m) found
              running keeps now_held (at_own _ _ now) refl
              (put_on_hold-IsGated s org mandate m known can gated))
      | inr (final, same) ↦
          let before =
            All-find (IsPlaced s.mandates) (is_execution org request) s.executions found
              gated.places in
          let not_draft : not (is_draft_state m.state) ≡ true =
            ap (λ st. fits_state st m.state) (sym (executing-eq e.status running))
            ∙ ap (λ o. placed o e.status) (sym (at_own _ _ known))
            ∙ before in
          subst IsGated same (
            held_elsewhere s org request mandate f m found running keeps now_held (at_own _ _ known)
              (shut_or_holdable m.state final not_draft) gated)
    ]
