-- ===== src/Persistence/PolicyStore/Admitted.antt =====
-- What an admission of src/persistence/policyStore.ts has passed, and that it stays within the
-- mandate's maximum.
use fuse_agent_control_plane.Persistence.PolicyStore.{
  idempotency_conflict, ControlMandate, StoredPolicyDecision, InferenceExecutionRow, Store,
  Platform,
}
use fuse_agent_control_plane.Persistence.PolicyStore.Tables.{
  state_text, is_mandate, is_execution, is_policy, is_assigned, mandate_policy, in_policy,
}
use fuse_agent_control_plane.Persistence.PolicyStore.Counters.{mandate_spent}
use fuse_agent_control_plane.Persistence.PolicyStore.Admission.{
  AdmissionResult, AdmissionInput, named, scope, workload_of, decision_input, evaluation_input,
  policy_of, allows, stored_decision, record_admission, admit_new,
}
use fuse_agent_control_plane.Persistence.PolicyStore.Replay.{
  admission_from_execution, validate_admission, admit_found, admit,
}
use fuse_agent_control_plane.Base.{
  ◌+ℤ◌, String, ◌≡◌, refl, ap, ◌⊎◌, inl, inr, Bool, true, not, Option, none, some, arith, ◌==◌,
  Option-cases, ℤ, pos, ◌≤ℤ◌, find, Result, ok, err, throw_if, >>-eq-ok, >>=-eq-ok, ok-injective,
}
use fuse_agent_control_plane.Domain.Policy.{
  allow, PolicyVersion, WorkloadEvaluationInput, PolicyEvaluationInput, PolicyDecisionResult,
}
use fuse_agent_control_plane.Domain.Policy.Evaluate.{evaluate_policy}
use fuse_agent_control_plane.Domain.Policy.Validate.{PolicyError, validate_evaluation}
use fuse_agent_control_plane.Domain.Policy.Soundness.{allowed_within_mandate}
use fuse_agent_control_plane.Domain.Lifecycles.{
  MandateState, draft, active, paused, closing, closed, exhausted, tripped, lapsed,
  reconciliation_hold,
}

-- The amount of a call that the evaluation accepts is not negative.
evaluated_amount :
    (date_parse : String → Option ℤ) (p : PolicyVersion) (i : PolicyEvaluationInput)
    {r : PolicyDecisionResult}
    → evaluate_policy date_parse p i ≡ ok r
    → pos 0 ≤ℤ i.estimated_cost_atomic
unfolding evaluate_policy validate_evaluation
evaluated_amount date_parse p i {r} e = ground (arith)

in_policy-eq-ok : {A : Type 0} (m : Result PolicyError A) {a : A} → in_policy m ≡ ok a → m ≡ ok a
in_policy-eq-ok (ok a) e = ap ok (ok-injective e)
in_policy-eq-ok (err x) e = cc

-- An admission of a request that has no row yet: the decision, and what it was made from.
pub record Admitted (js : Platform) (s : Store) (m : ControlMandate) (p : PolicyVersion)
    (input : AdmissionInput) (r : PolicyDecisionResult) : Type 0 where
  pub id : String
  pub assigned : Bool
  pub workload : Option WorkloadEvaluationInput
  pub evaluated :
      evaluate_policy js.date_parse
        (policy_of js p)
        (evaluation_input js m assigned (decision_input js s m input id workload))
      ≡ ok r

-- The decision that is stored is the organization's.
pub admit_new-owned :
    (js : Platform) (preview_only : Bool) (s : Store) (m : ControlMandate) (p : PolicyVersion)
    (input : AdmissionInput) (id : String) {after : Store × AdmissionResult}
    → admit_new js preview_only s m p input id ≡ ok after
    → (r : PolicyDecisionResult) × (d : StoredPolicyDecision) × (d.organization_id
        ≡ input.organization_id)
      × Admitted js s m p input r
      × (record_admission preview_only s input r d ≡ ok after)
unfolding admit_new stored_decision decision_input
admit_new-owned js preview_only s m p input id e =
    let assigned = is_assigned s input.organization_id input.mandate_id input.agent_id in
    let (found, f, rest) =
      >>=-eq-ok
        (workload_of js s m input.agent_id
          (scope (named input.branch_id) (named input.workload_class)))
        _ e in
    let d = decision_input js s m input id found.1 in
    let (r, g, written) =
      >>=-eq-ok
        (in_policy
          (evaluate_policy js.date_parse (policy_of js p) (evaluation_input js m assigned d)))
        _ rest in
    (
      r,
      _,
      refl,
      record { id = id; assigned = assigned; workload = found.1; evaluated = in_policy-eq-ok _ g },
      written,
    )

pub admit_new-passed :
    (js : Platform) (preview_only : Bool) (s : Store) (m : ControlMandate) (p : PolicyVersion)
    (input : AdmissionInput) (id : String) {after : Store × AdmissionResult}
    → admit_new js preview_only s m p input id ≡ ok after
    → (r : PolicyDecisionResult) × (d : StoredPolicyDecision) × Admitted js s m p input r
      × (record_admission preview_only s input r d ≡ ok after)
admit_new-passed js preview_only s m p input id e =
    let (r, d, _, a, written) = admit_new-owned js preview_only s m p input id e in
    (r, d, a, written)

pub mandate_policy-found :
    (s : Store) (org id : String) {joined : ControlMandate × PolicyVersion}
    → mandate_policy s org id ≡ ok joined
    → find (is_mandate org id) s.mandates ≡ some joined.0
mandate_policy-found s org id {joined} e =
    elim (Option-cases (find (is_mandate org id) s.mandates)) [
      | inl missing ↦ absurd (ground (arith, missing))
      | inr (m, found) ↦
          elim (Option-cases (find (is_policy org m.policy_id m.policy_version) s.policies)) [
            | inl missing ↦ absurd (ground (arith, found, missing))
            | inr (p, known) ↦ ground (arith, found, known)
          ]
    ]

pub admit-passed :
    (js : Platform) (preview_only : Bool) (s : Store) (input : AdmissionInput) (id : String)
    {after : Store × AdmissionResult}
    → admit js preview_only s input id ≡ ok after
    → (m : ControlMandate) × (p : PolicyVersion) × (find
          (is_mandate input.organization_id input.mandate_id)
          s.mandates
        ≡ some m)
      × (admit_found js preview_only s m p input id
            (find (is_execution input.organization_id input.request_id) s.executions)
          ≡ ok after)
unfolding admit
admit-passed js preview_only s input id e =
    let (_, rest) = >>-eq-ok (validate_admission js input) _ e in
    let (joined, f, last) =
      >>=-eq-ok (mandate_policy s input.organization_id input.mandate_id) _ rest in
    (joined.0, joined.1, mandate_policy-found s _ _ f, last)

active_text : (state : MandateState) → (state_text state == "active") ≡ true → state ≡ active
unfolding state_text
active_text active h = refl
active_text draft h = cc
active_text paused h = cc
active_text closing h = cc
active_text closed h = cc
active_text exhausted h = cc
active_text tripped h = cc
active_text lapsed h = cc
active_text reconciliation_hold h = cc

-- The mandate's money after an admission that may go ahead.
pub Admitted-within :
    (js : Platform) (s : Store) (m : ControlMandate) (p : PolicyVersion) (input : AdmissionInput)
    (r : PolicyDecisionResult)
    → Admitted js s m p input r
    → (pos 0 ≤ℤ input.estimated_cost_atomic)
      × (allows r.outcome ≡ true
          → (m.state ≡ active)
            × mandate_spent s.executions input.organization_id input.mandate_id
                +ℤ input.estimated_cost_atomic
              ≤ℤ m.maximum_spend_atomic)
unfolding evaluation_input decision_input
Admitted-within js s m p input r a =
    let d = decision_input js s m input a.id a.workload in
    let i = evaluation_input js m a.assigned d in
    (
      evaluated_amount js.date_parse (policy_of js p) i a.evaluated,
      λ allowed_now.
          let outcome : r.outcome ≡ allow = ground arith in
          let (active_now, _, _, _, within) =
            allowed_within_mandate js.date_parse (policy_of js p) i a.evaluated outcome in
          (active_text m.state active_now, within),
    )

-- An admission answers from the row that the request has, or decides anew.
pub admit_found-cases :
    (js : Platform) (preview_only : Bool) (s : Store) (m : ControlMandate) (p : PolicyVersion)
    (input : AdmissionInput) (id : String) (o : Option InferenceExecutionRow)
    {after : Store × AdmissionResult}
    → admit_found js preview_only s m p input id o ≡ ok after
    → ((e : InferenceExecutionRow) × (o ≡ some e)
        × ((e.request_fingerprint == input.request_fingerprint) ≡ true)
        × (admission_from_execution js s e input.decided_at ≡ ok after))
      ⊎ (o ≡ none) × (admit_new js preview_only s m p input id ≡ ok after)
unfolding admit_found
admit_found-cases js preview_only s m p input id none e = inr (refl, e)
admit_found-cases js preview_only s m p input id (some row) e =
    let (same, rest) =
      >>-eq-ok
        (throw_if (not (row.request_fingerprint == input.request_fingerprint)) idempotency_conflict)
        _ e in
    inl (row, refl, ground arith, rest)
