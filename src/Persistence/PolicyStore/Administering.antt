-- ===== src/Persistence/PolicyStore/Administering.antt =====
-- Administering mandates keeps the invariant of Gate, in src/persistence/policyStore.ts.
use fuse_agent_control_plane.Persistence.PolicyStore.{
  ExecutionStatus, PolicyMutationContext, ControlMandate, InferenceExecutionRow, Store, Platform,
}
use fuse_agent_control_plane.Persistence.PolicyStore.Tables.{
  update, is_mandate, is_execution_of, set_state,
}
use fuse_agent_control_plane.Persistence.PolicyStore.Mandates.{
  CreateControlMandateInput, mandate_row, create_mandate, transition_mandate_state,
}
use fuse_agent_control_plane.Persistence.PolicyStore.Runs.{create_mandate-passed}
use fuse_agent_control_plane.Persistence.PolicyStore.Passed.{transition-passed}
use fuse_agent_control_plane.Persistence.PolicyStore.Gate.{IsGated, fits_state, placed, IsPlaced}
use fuse_agent_control_plane.Persistence.PolicyStore.Placing.{
  KeepsFit, update_mandates-places, All-always, transition-fits,
}
use fuse_agent_control_plane.Base.{
  String, ◌≡◌, refl, sym, ap, subst, ◌∙◌, inl, inr, true, none, some, List, [], ◌∷◌, arith, eq_iff,
  Bool-cases, find, All, ok,
}
use fuse_agent_control_plane.Domain.Lifecycles.{MandateState}

pub regated :
    (s after : Store)
    → after.executions ≡ s.executions
    → after.mandates ≡ s.mandates
    → after.resolutions ≡ s.resolutions
    → after.holds ≡ s.holds
    → IsGated s
    → IsGated after
regated s after rows mandates resolutions holds gated = record {
  unique = rw rows gated.unique;
  places = rw (rows, mandates) gated.places;
  unresolved = rw (rows, resolutions) gated.unresolved;
  known = λ o r missing. rw resolutions (gated.known o r (rw rows at missing));
  priors = rw holds gated.priors;
}

unplaced_fits :
    (status : ExecutionStatus) (state : MandateState)
    → placed none status ≡ true
    → fits_state status state ≡ true
unplaced_fits status state h = ground arith

create_mandate-places :
    (m : ControlMandate) (ms : List ControlMandate) (rows : List InferenceExecutionRow)
    → find (is_mandate m.organization_id m.id) ms ≡ none
    → All (IsPlaced ms) rows
    → All (IsPlaced (m ∷ ms)) rows
create_mandate-places m ms [] fresh every = tt
create_mandate-places m ms (e ∷ rows) fresh (first, others) =
    let rest = create_mandate-places m ms rows fresh others in
    elim (Bool-cases (is_mandate e.organization_id e.mandate_id m)) [
      | inr other ↦ (rw other first, rest)
      | inl own ↦
          let same_org : m.organization_id ≡ e.organization_id =
            ground (arith, eq_iff m.organization_id e.organization_id) in
          let same_id : m.id ≡ e.mandate_id = ground (arith, eq_iff m.id e.mandate_id) in
          let unused : find (is_mandate e.organization_id e.mandate_id) ms ≡ none =
            subst (λ o. find (is_mandate o e.mandate_id) ms ≡ none) same_org
              (subst (λ i. find (is_mandate m.organization_id i) ms ≡ none) same_id fresh) in
          (
            rw own
                (unplaced_fits e.status m.state (ap (λ o. placed o e.status) (sym unused) ∙ first)),
            rest,
          )
    ]

pub create_mandate-IsGated :
    (js : Platform) (s : Store) (input : CreateControlMandateInput) {after : Store}
    → create_mandate js s input ≡ ok after
    → IsGated s
    → IsGated after
unfolding mandate_row
create_mandate-IsGated js s input done gated =
    let (fresh, _, same) = create_mandate-passed js s input done in
    subst IsGated same (record {
      unique = gated.unique;
      places = create_mandate-places (mandate_row input) s.mandates s.executions fresh gated.places;
      unresolved = gated.unresolved;
      known = gated.known;
      priors = gated.priors;
    })

pub set_mandate-IsGated :
    (s : Store) (org mandate : String) (f : ControlMandate → ControlMandate) {m : ControlMandate}
    → find (is_mandate org mandate) s.mandates ≡ some m
    → ((x : ControlMandate) → KeepsFit x (f x))
    → All
        (λ e.
          is_execution_of org mandate e ≡ true
          → fits_state e.status m.state ≡ true
          → fits_state e.status (f m).state ≡ true)
        s.executions
    → IsGated s
    → IsGated (record s { mandates = update (is_mandate org mandate) f s.mandates })
set_mandate-IsGated s org mandate f found keeps fit gated = record {
  unique = gated.unique;
  places =
      update_mandates-places org mandate f s.mandates s.executions found keeps fit gated.places;
  unresolved = gated.unresolved;
  known = gated.known;
  priors = gated.priors;
}

pub transition-IsGated :
    (js : Platform) (s : Store) (org mandate : String) (target : MandateState)
    (context : PolicyMutationContext) {after : Store}
    → transition_mandate_state js s org mandate target context ≡ ok after
    → IsGated s
    → IsGated after
unfolding set_state
transition-IsGated js s org mandate target context done gated =
    let (m, found, listed_now, same) = transition-passed js s org mandate target context done in
    subst IsGated same (
      set_mandate-IsGated s org mandate (set_state target) found (λ x. (refl, refl))
        (All-always _ s.executions
          (λ e _ before. transition-fits e.status m.state target listed_now before))
        gated)
