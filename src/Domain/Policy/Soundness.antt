-- ===== src/Domain/Policy/Soundness.antt =====
-- What an allowed call satisfies, in every mode.
use fuse_agent_control_plane.Base.{
  ℤ, ◌+ℤ◌, ◌≤ℤ◌, Bool, true, false, ◌&&◌, ◌||◌, Option, List, [], ◌∷◌, ◌++◌, any, any-append,
  String, ◌==◌, includes, ok, ◌≡◌, refl, sym, ap, Result-cases, ◌∙◌, arith, ◌⊎◌, inl, inr,
}
use fuse_agent_control_plane.Domain.Policy.{
  allow, deny, PolicyVersion, PolicyReasonCode, PolicyEvaluationInput, PolicyDecisionResult,
}
use fuse_agent_control_plane.Domain.Policy.Validate.{validate_policy, validate_evaluation}
use fuse_agent_control_plane.Domain.Policy.Evaluate.{
  push_if, has_passed, is_hard, mandate_reasons, limit_reasons, all_reasons, decide_outcome,
  evaluate_policy,
}

any-push_if :
    (q : PolicyReasonCode → Bool) (b : Bool) (r : PolicyReasonCode) (rest : List PolicyReasonCode)
    → any q (push_if b r ++ rest) ≡ (b && q r || any q rest)
any-push_if q true r rest = ground arith
any-push_if q false r rest = refl

pub or-false : (a b : Bool) → (a || b) ≡ false → (a ≡ false) × (b ≡ false)
or-false a b h = ground arith

pub decision_cases :
    (date_parse : String → Option ℤ) (p : PolicyVersion) (i : PolicyEvaluationInput)
    {r : PolicyDecisionResult}
    → evaluate_policy date_parse p i ≡ ok r
    → ((p.mode == "paused") ≡ true) × (r.outcome ≡ deny) × (r.enforced ≡ true)
      ⊎ ((p.mode == "paused") ≡ false) × (r ≡ decide_outcome p.mode (all_reasons date_parse p i))
unfolding evaluate_policy
decision_cases date_parse p i {r} e = elim (Result-cases (validate_policy date_parse p)) [
  | inr (x, bad) ↦ absurd (ground (arith, bad))
  | inl good ↦ elim (Result-cases (validate_evaluation date_parse i)) [
    | inr (x, bad) ↦ absurd (ground (arith, good, bad))
    | inl fine ↦ ground (arith, good, fine)
  ]
]

allow_cases :
    (mode : String) (reasons : List PolicyReasonCode)
    → (decide_outcome mode reasons).outcome ≡ allow
    → (any is_hard reasons ≡ false) × (((mode == "dry_run") ≡ true) ⊎ (reasons ≡ []))
unfolding decide_outcome
allow_cases mode [] h = (refl, inr refl)
allow_cases mode (x ∷ xs) h = ground arith

-- An allowed call has no hard reason against it, and outside `dry_run` no reason at all.
pub allowed_reasons :
    (date_parse : String → Option ℤ) (p : PolicyVersion) (i : PolicyEvaluationInput)
    {r : PolicyDecisionResult}
    → evaluate_policy date_parse p i ≡ ok r
    → r.outcome ≡ allow
    → (any is_hard (all_reasons date_parse p i) ≡ false)
      × (((p.mode == "dry_run") ≡ true) ⊎ (all_reasons date_parse p i ≡ []))
allowed_reasons date_parse p i {r} e a = elim (decision_cases date_parse p i e) [
  | inl (paused, denied, _) ↦ let clash : deny ≡ allow = sym denied ∙ a in cc
  | inr (_, same) ↦
      allow_cases p.mode (all_reasons date_parse p i)
        (sym (ap (λ (x : PolicyDecisionResult). x.outcome) same) ∙ a)
]

mandate_checks :
    (date_parse : String → Option ℤ) (p : PolicyVersion) (i : PolicyEvaluationInput)
    → any is_hard (mandate_reasons date_parse p i) ≡ false
    → ((i.mandate_state == "active") ≡ true)
      × (has_passed date_parse i.mandate_expires_at i.now ≡ false)
      × (i.agent_authorized ≡ true)
      × (includes p.required_capability i.agent_capabilities ≡ true)
unfolding mandate_reasons
mandate_checks date_parse p i h = ground (arith)

budget_check :
    (p : PolicyVersion) (i : PolicyEvaluationInput)
    → any is_hard (limit_reasons p i) ≡ false
    → i.mandate_spent_atomic +ℤ i.estimated_cost_atomic ≤ℤ i.mandate_maximum_atomic
unfolding limit_reasons
budget_check p i h = ground (arith, simp any-push_if at h)

-- Whatever the mode, a call is allowed only for an active mandate that has not expired, by an
-- authorised agent with the capability that the policy requires, and within the mandate's budget.
pub allowed_within_mandate :
    (date_parse : String → Option ℤ) (p : PolicyVersion) (i : PolicyEvaluationInput)
    {r : PolicyDecisionResult}
    → evaluate_policy date_parse p i ≡ ok r
    → r.outcome ≡ allow
    → ((i.mandate_state == "active") ≡ true)
      × (has_passed date_parse i.mandate_expires_at i.now ≡ false)
      × (i.agent_authorized ≡ true)
      × (includes p.required_capability i.agent_capabilities ≡ true)
      × (i.mandate_spent_atomic +ℤ i.estimated_cost_atomic ≤ℤ i.mandate_maximum_atomic)
unfolding all_reasons
allowed_within_mandate date_parse p i e a =
    let (clear, _) = allowed_reasons date_parse p i e a in
    let split = simp any-append at clear in
    let (m, rest) = or-false _ _ split in
    let (b, w) = or-false _ _ rest in
    let (x, y, z, t) = mandate_checks date_parse p i m in (x, y, z, t, budget_check p i b)
