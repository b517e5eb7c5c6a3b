-- ===== src/Persistence/PolicyStore/Restoring.antt =====
-- Resolving a reconciliation case keeps the invariant of Gate, in
-- src/persistence/policyStore.ts.
use fuse_agent_control_plane.Persistence.PolicyStore.{
  ExecutionStatus, denied, executing, completed, failed, held, ReconciliationResolution, settle,
  confirm_not_billed, ControlMandate, InferenceExecutionRow, Resolution, ReconciliationHold, Store,
  Platform,
}
use fuse_agent_control_plane.Persistence.PolicyStore.Tables.{
  update, is_mandate, is_execution, is_execution_of, is_hold, set_state, can_hold,
}
use fuse_agent_control_plane.Persistence.PolicyStore.Reconciliation.{
  ResolveReconciliationInput, is_open_case, billed_row, unanswered_row, resolved_row, settled_store,
  has_open_cases, restored_state, without_hold, release_mandate, release_last,
  resolve_reconciliation,
}
use fuse_agent_control_plane.Persistence.PolicyStore.Rows.{find-update_self, All-find, find-holds}
use fuse_agent_control_plane.Persistence.PolicyStore.Budget.{is_unsettled}
use fuse_agent_control_plane.Persistence.PolicyStore.Resolving.{
  resolved_row-keyed, release_without_hold-same, release_if_clear-cases, resolve_found-cases,
  resolve-passed,
}
use fuse_agent_control_plane.Persistence.PolicyStore.Gate.{
  IsGated, is_draft_state, fits_state, IsUnresolved, missing_before, All-update_other,
}
use fuse_agent_control_plane.Persistence.PolicyStore.Gating.{settled_row-IsGated}
use fuse_agent_control_plane.Persistence.PolicyStore.Administering.{set_mandate-IsGated}
use fuse_agent_control_plane.Base.{
  String, ◌≡◌, refl, sym, ap, subst, ◌∙◌, inl, inr, Bool, true, false, ◌&&◌, not, none, some, List,
  [], ◌∷◌, arith, ◌==◌, eq_iff, if◌then◌else◌, Bool-cases, Option-cases, is_some, ℤ, any, keep,
  find, All, ok, ok-injective,
}
use fuse_agent_control_plane.Domain.Policy.Soundness.{or-false}
use fuse_agent_control_plane.Domain.Lifecycles.{
  MandateState, draft, active, paused, closing, closed, exhausted, tripped, lapsed,
  reconciliation_hold,
}

resolved_row-settled :
    (resolution : ReconciliationResolution) (cost : ℤ) (at : String) (e : InferenceExecutionRow)
    → is_unsettled (resolved_row resolution cost at e).status ≡ false
unfolding resolved_row
resolved_row-settled settle cost at e = elim (Bool-cases (is_some e.response_json)) [
  | inl answered ↦
      ap (λ b. is_unsettled (if b then billed_row cost at e else unanswered_row cost at e).status)
        answered
  | inr unanswered ↦
      ap (λ b. is_unsettled (if b then billed_row cost at e else unanswered_row cost at e).status)
        unanswered
]
resolved_row-settled confirm_not_billed cost at e = refl

-- The case that a resolution settles.
settled_store-IsGated :
    (s : Store) (input : ResolveReconciliationInput) (cost : ℤ) {e : InferenceExecutionRow}
    → find (is_execution input.organization_id input.request_id) s.executions ≡ some e
    → IsGated s
    → IsGated (settled_store s input cost)
unfolding settled_store
settled_store-IsGated s input cost {e} found gated =
    let org = input.organization_id in
    let request = input.request_id in
    let change = resolved_row input.resolution cost input.context.occurred_at in
    let keeps = resolved_row-keyed input.resolution cost input.context.occurred_at in
    let final = resolved_row-settled input.resolution cost input.context.occurred_at e in
    let rewritten_store = settled_row-IsGated s org request change found keeps final gated in
    record {
      unique = rewritten_store.unique;
      places = rewritten_store.places;
      unresolved =
          All-update_other (IsUnresolved s.resolutions)
            (IsUnresolved (settled_store s input cost).resolutions) org request change s.executions
            gated.unique found
            (λ x other q open_now.
              let before = q open_now in
              ground (
                arith,
                eq_iff x.organization_id org,
                eq_iff org x.organization_id,
                eq_iff x.request_id request,
                eq_iff request x.request_id,
              ))
            (λ _ open_now. let clash : true ≡ false = sym open_now ∙ final in cc) gated.unresolved;
      known = λ o r missing. elim (Bool-cases (org == o && request == r)) [
        | inr other ↦
            rw other
              (gated.known o r (missing_before org request change o r s.executions keeps missing))
        | inl own ↦
            let same_org : org ≡ o = ground (arith, eq_iff org o) in
            let same_request : request ≡ r = ground (arith, eq_iff request r) in
            let (a, b, _) = keeps e in
            let there =
              find-update_self (is_execution org request) change s.executions
                (rw (a, b) (find-holds (is_execution org request) s.executions found)) found in
            let rows = (settled_store s input cost).executions in
            let gone =
              subst (λ z. find (is_execution z request) rows ≡ none) (sym same_org)
                (subst (λ z. find (is_execution o z) rows ≡ none) (sym same_request) missing) in
            let clash : some (change e) ≡ none = sym there ∙ gone in cc
      ];
      priors = gated.priors;
    }

-- Without an open case, no row of the mandate is held.
closed_cases :
    (org mandate : String) (resolutions : List Resolution) (state target : MandateState)
    (rows : List InferenceExecutionRow)
    → is_draft_state target ≡ false
    → any (λ e. is_execution_of org mandate e && is_open_case resolutions e) rows ≡ false
    → All (IsUnresolved resolutions) rows
    → All
        (λ e.
          is_execution_of org mandate e ≡ true
          → fits_state e.status state ≡ true
          → fits_state e.status target ≡ true)
        rows
closed_cases org mandate resolutions state target [] ready clear every = tt
closed_cases org mandate resolutions state target (e ∷ rows) ready clear (first, others) =
    let (now, later) =
      or-false (is_execution_of org mandate e && is_open_case resolutions e) _ clear in
    (
      (λ own _. released_row e.status resolutions e refl own ready now first),
      closed_cases org mandate resolutions state target rows ready later others,
    )
  where
    released_row :
        (status : ExecutionStatus) (resolutions : List Resolution) (e : InferenceExecutionRow)
        → e.status ≡ status
        → is_execution_of org mandate e ≡ true
        → is_draft_state target ≡ false
        → (is_execution_of org mandate e && is_open_case resolutions e) ≡ false
        → IsUnresolved resolutions e
        → fits_state status target ≡ true
    released_row denied resolutions e same own ready now first = refl
    released_row completed resolutions e same own ready now first = refl
    released_row failed resolutions e same own ready now first = refl
    released_row executing resolutions e same own ready now first = ap not ready
    released_row held resolutions e same own ready now first =
        let unresolved = first (rw same refl) in
        let open_case : (is_execution_of org mandate e && is_open_case resolutions e) ≡ true =
          rw (own, same, unresolved) refl in
        let clash : true ≡ false = sym open_case ∙ now in cc

restored_ready :
    (prior : MandateState) → can_hold prior ≡ true → is_draft_state (restored_state prior) ≡ false
restored_ready prior can = ground arith

All-keep : {A : Type 0} (P : A → Type 0) (p : A → Bool) (xs : List A) → All P xs → All P (keep p xs)
All-keep P p [] every = tt
All-keep P p (x ∷ xs) (first, others) = elim (Bool-cases (p x)) [
  | inl kept_now ↦ rw kept_now (first, All-keep P p xs others)
  | inr left ↦ rw left (All-keep P p xs others)
]

without_hold-IsGated :
    (s : Store) (org mandate : String) → IsGated s → IsGated (without_hold s org mandate)
unfolding without_hold
without_hold-IsGated s org mandate gated = record {
  unique = gated.unique;
  places = gated.places;
  unresolved = gated.unresolved;
  known = gated.known;
  priors =
      All-keep (λ (h : ReconciliationHold). can_hold h.prior_state ≡ true)
        (λ h. not (is_hold org mandate h)) s.holds gated.priors;
}

release_mandate-IsGated :
    (state : MandateState) (s : Store) (org mandate : String) (prior : MandateState)
    {m : ControlMandate} {after : Store}
    → find (is_mandate org mandate) s.mandates ≡ some m
    → has_open_cases s org mandate ≡ false
    → can_hold prior ≡ true
    → release_mandate state s org mandate prior ≡ ok after
    → IsGated s
    → IsGated after
unfolding release_mandate set_state has_open_cases
release_mandate-IsGated reconciliation_hold s org mandate prior {m} found clear can done gated =
    let back = set_state (restored_state prior) in
    let moved = record s { mandates = update (is_mandate org mandate) back s.mandates } in
    subst IsGated (ok-injective done) (
      without_hold-IsGated moved org mandate (
        set_mandate-IsGated s org mandate back found (λ x. (refl, refl))
          (closed_cases org mandate s.resolutions m.state (restored_state prior) s.executions
            (restored_ready prior can) clear gated.unresolved)
          gated))
release_mandate-IsGated closing s org mandate prior found clear can done gated =
    subst IsGated (ok-injective done) (without_hold-IsGated s org mandate gated)
release_mandate-IsGated draft s org mandate prior found clear can done gated = cc
release_mandate-IsGated active s org mandate prior found clear can done gated = cc
release_mandate-IsGated paused s org mandate prior found clear can done gated = cc
release_mandate-IsGated closed s org mandate prior found clear can done gated = cc
release_mandate-IsGated exhausted s org mandate prior found clear can done gated = cc
release_mandate-IsGated tripped s org mandate prior found clear can done gated = cc
release_mandate-IsGated lapsed s org mandate prior found clear can done gated = cc

release_last-IsGated :
    (s : Store) (org mandate : String) (m : ControlMandate) {after : Store}
    → find (is_mandate org mandate) s.mandates ≡ some m
    → has_open_cases s org mandate ≡ false
    → release_last s org m (find (is_hold org mandate) s.holds) ≡ ok after
    → IsGated s
    → IsGated after
unfolding release_last
release_last-IsGated s org mandate m found clear done gated =
    elim (Option-cases (find (is_hold org mandate) s.holds)) [
      | inl no_hold ↦ subst IsGated (release_without_hold-same m.state s (rw no_hold at done)) gated
      | inr (h, on_hold) ↦
          let keyed = find-holds (is_mandate org mandate) s.mandates found in
          let same : m.id ≡ mandate = ground (arith, eq_iff m.id mandate) in
          let can =
            All-find (λ (x : ReconciliationHold). can_hold x.prior_state ≡ true)
              (is_hold org mandate) s.holds on_hold gated.priors in
          release_mandate-IsGated m.state s org mandate h.prior_state found clear can
            (rw (on_hold, same) at done) gated
    ]

pub resolve_reconciliation-IsGated :
    (js : Platform) (s : Store) (input : ResolveReconciliationInput) {after : Store}
    → resolve_reconciliation js s input ≡ ok after
    → IsGated s
    → IsGated after
resolve_reconciliation-IsGated js s input done gated =
    let (cost, e, found, rest) = resolve-passed js s input done in
    elim (resolve_found-cases s input cost e _ rest) [
      | inl same ↦ subst IsGated same gated
      | inr (_, _, last) ↦
          let settled_gated = settled_store-IsGated s input cost found gated in
          let (m, known, either) =
            release_if_clear-cases (settled_store s input cost) input.organization_id e.mandate_id
              last in
          elim either [
            | inl (_, same) ↦ subst IsGated same settled_gated
            | inr (clear, freed) ↦
                release_last-IsGated (settled_store s input cost) input.organization_id e.mandate_id
                  m known clear freed settled_gated
          ]
    ]
