-- ===== src/Domain/Policy/Branches.antt =====
-- What an allowed call satisfies where the policy has workload classes.
use fuse_agent_control_plane.Base.{
  ℤ, ◌+ℤ◌, ◌≤ℤ◌, ◌<ℤ◌, to_int, true, false, Option, none, some, List, [], ◌∷◌, any, find,
  any-append, String, ◌==◌, ok, ◌≡◌, ◌≢◌, refl, arith, inl, inr, Bool-cases,
}
use fuse_agent_control_plane.Domain.Policy.{
  allow, WorkloadClassPolicy, PolicyVersion, WorkloadEvaluationInput, PolicyEvaluationInput,
  PolicyDecisionResult,
}
use fuse_agent_control_plane.Domain.Policy.Evaluate.{
  has_passed, is_hard, class_reasons, allowed_class, class_or_not_allowed, branch_reasons,
  workload_reasons, all_reasons, evaluate_policy,
}
use fuse_agent_control_plane.Domain.Policy.Soundness.{or-false, allowed_reasons}

-- What a class permits to a call.
abbrev pub FitsClass :
    WorkloadClassPolicy → WorkloadEvaluationInput → PolicyEvaluationInput → Type 0
FitsClass c w i =
    (i.estimated_cost_atomic ≤ℤ c.max_cost_per_call_atomic)
    × (w.class_invocation_count <ℤ to_int c.max_invocations_per_branch)
    × (w.class_spent_atomic +ℤ i.estimated_cost_atomic ≤ℤ c.aggregate_budget_atomic)
    × (to_int c.minimum_input_tokens ≤ℤ to_int i.input_tokens)

class_check :
    (c : WorkloadClassPolicy) (w : WorkloadEvaluationInput) (i : PolicyEvaluationInput)
    → any is_hard (class_reasons c w i) ≡ false
    → FitsClass c w i
unfolding class_reasons
class_check c w i h = ground arith

class_found :
    (o : Option WorkloadClassPolicy) (w : WorkloadEvaluationInput) (i : PolicyEvaluationInput)
    → any is_hard (class_or_not_allowed o w i) ≡ false
    → (c : WorkloadClassPolicy) × (o ≡ some c) × FitsClass c w i
unfolding class_or_not_allowed
class_found none w i h = cc
class_found (some c) w i h = (c, refl, class_check c w i h)

branch_check :
    (date_parse : String → Option ℤ) (p : PolicyVersion) (o : Option WorkloadEvaluationInput)
    (i : PolicyEvaluationInput)
    → any is_hard (branch_reasons date_parse p o i) ≡ false
    → (w : WorkloadEvaluationInput) × (o ≡ some w)
      × (w.branch_authorized ≡ true)
      × (has_passed date_parse w.branch_expires_at i.now ≡ false)
      × (w.branch_spent_atomic +ℤ i.estimated_cost_atomic ≤ℤ w.branch_maximum_atomic)
      × (any is_hard (class_or_not_allowed (allowed_class p w) w i) ≡ false)
unfolding branch_reasons
branch_check date_parse p none i h = cc
branch_check date_parse p (some w) i h = elim (Bool-cases w.branch_authorized) [
  | inr unknown ↦ absurd (ground arith)
  | inl known ↦
      let (a, rest) = or-false _ _ (simp (known, any-append) at h) in
      let (b, c) = or-false _ _ rest in (w, refl, known, ground arith, ground arith, c)
]

workload_branch :
    (date_parse : String → Option ℤ) (p : PolicyVersion) (classes : List WorkloadClassPolicy)
    (i : PolicyEvaluationInput)
    → classes ≢ []
    → any is_hard (workload_reasons date_parse p classes i) ≡ false
    → any is_hard (branch_reasons date_parse p i.workload i) ≡ false
unfolding workload_reasons
workload_branch date_parse p [] i has h = absurd (has refl)
workload_branch date_parse p (_ ∷ _) i has h = h

class_permitted :
    (p : PolicyVersion) (w : WorkloadEvaluationInput) {c : WorkloadClassPolicy}
    → allowed_class p w ≡ some c
    → (w.class_authorized ≡ true)
      × (find (λ k. k.id == w.workload_class) p.workload_classes ≡ some c)
unfolding allowed_class
class_permitted p w h = ground arith

-- Under a policy with workload classes a call is allowed only on an authorised branch that has not
-- expired and keeps within its maximum, for a class that the branch may use and the policy has,
-- and within each of that class's limits; whatever the mode.
pub allowed_within_branch :
    (date_parse : String → Option ℤ) (p : PolicyVersion) (i : PolicyEvaluationInput)
    {r : PolicyDecisionResult}
    → evaluate_policy date_parse p i ≡ ok r
    → r.outcome ≡ allow
    → p.workload_classes ≢ []
    → (w : WorkloadEvaluationInput) × (c : WorkloadClassPolicy) × (i.workload ≡ some w)
      × (w.branch_authorized ≡ true)
      × (has_passed date_parse w.branch_expires_at i.now ≡ false)
      × (w.branch_spent_atomic +ℤ i.estimated_cost_atomic ≤ℤ w.branch_maximum_atomic)
      × (w.class_authorized ≡ true)
      × (find (λ k. k.id == w.workload_class) p.workload_classes ≡ some c)
      × FitsClass c w i
unfolding all_reasons
allowed_within_branch date_parse p i e a has =
    let (clear, _) = allowed_reasons date_parse p i e a in
    let (m, rest) = or-false _ _ (simp any-append at clear) in
    let (b, work) = or-false _ _ rest in
    let (w, at, authorized, live, fits, class_clear) =
      branch_check date_parse p i.workload i
        (workload_branch date_parse p p.workload_classes i has work) in
    let (c, found, fine) = class_found (allowed_class p w) w i class_clear in
    let (permitted, listed) = class_permitted p w found in
    (w, c, at, authorized, live, fits, permitted, listed, fine)
