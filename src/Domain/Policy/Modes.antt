-- ===== src/Domain/Policy/Modes.antt =====
-- How the mode of a policy bears on its decisions.
use fuse_agent_control_plane.Base.{
  ℤ, ◌+ℤ◌, ◌≤ℤ◌, ◌<ℤ◌, to_int, true, false, Option, List, [], ◌∷◌, ◌++◌, String, eq_iff, includes,
  ok, ◌≡◌, ◌≢◌, refl, ◌∙◌, ap, arith, inl, inr, Result-cases,
}
use fuse_agent_control_plane.Domain.Policy.{
  allow, PolicyVersion, PolicyReasonCode, PolicyEvaluationInput, PolicyDecisionResult,
}
use fuse_agent_control_plane.Domain.Policy.Validate.{validate_policy, validate_evaluation}
use fuse_agent_control_plane.Domain.Policy.Evaluate.{
  limit_reasons, mandate_reasons, workload_reasons, branch_reasons, allowed_class, all_reasons,
  decide_outcome, evaluate_policy,
}
use fuse_agent_control_plane.Domain.Policy.Soundness.{allowed_reasons, decision_cases}

append_nil_parts : (xs ys : List PolicyReasonCode) → xs ++ ys ≡ [] → (xs ≡ []) × (ys ≡ [])
append_nil_parts [] ys h = (refl, h)
append_nil_parts (x ∷ xs) ys h = cc

limit_checks :
    (p : PolicyVersion) (i : PolicyEvaluationInput)
    → limit_reasons p i ≡ []
    → (includes i.provider p.allowed_providers ≡ true)
      × (includes i.model p.allowed_models ≡ true)
      × (i.estimated_cost_atomic ≤ℤ p.limits.max_per_call_atomic)
      × (i.spent_hour_atomic +ℤ i.estimated_cost_atomic ≤ℤ p.limits.max_hourly_atomic)
      × (i.spent_day_atomic +ℤ i.estimated_cost_atomic ≤ℤ p.limits.max_daily_atomic)
      × (to_int i.request_count_last_minute <ℤ to_int p.limits.max_requests_per_minute)
      × (to_int i.input_tokens ≤ℤ to_int p.limits.max_input_tokens)
      × (to_int i.max_output_tokens ≤ℤ to_int p.limits.max_output_tokens)
unfolding limit_reasons
limit_checks p i h = ground arith

-- Outside `dry_run`, a call is allowed only for a provider and a model of the policy, within the
-- amounts per call, hour and day, the request rate and the token limits.
pub enforced_within_limits :
    (date_parse : String → Option ℤ) (p : PolicyVersion) (i : PolicyEvaluationInput)
    {r : PolicyDecisionResult}
    → evaluate_policy date_parse p i ≡ ok r
    → r.outcome ≡ allow
    → p.mode ≢ "dry_run"
    → (includes i.provider p.allowed_providers ≡ true)
      × (includes i.model p.allowed_models ≡ true)
      × (i.estimated_cost_atomic ≤ℤ p.limits.max_per_call_atomic)
      × (i.spent_hour_atomic +ℤ i.estimated_cost_atomic ≤ℤ p.limits.max_hourly_atomic)
      × (i.spent_day_atomic +ℤ i.estimated_cost_atomic ≤ℤ p.limits.max_daily_atomic)
      × (to_int i.request_count_last_minute <ℤ to_int p.limits.max_requests_per_minute)
      × (to_int i.input_tokens ≤ℤ to_int p.limits.max_input_tokens)
      × (to_int i.max_output_tokens ≤ℤ to_int p.limits.max_output_tokens)
unfolding all_reasons
enforced_within_limits date_parse p i e a live = elim (allowed_reasons date_parse p i e a).1 [
  | inl dry ↦ absurd (live ((eq_iff _ _).0 dry))
  | inr clear ↦
      limit_checks p i
        (append_nil_parts (limit_reasons p i) _
          (append_nil_parts (mandate_reasons date_parse p i) _ clear).1).0
]

abbrev pub enforcing : PolicyVersion → PolicyVersion
enforcing p = record p { mode = "enforce" }

decide_dry_run :
    (reasons : List PolicyReasonCode)
    → let dry = decide_outcome "dry_run" reasons in
      let live = decide_outcome "enforce" reasons in
      (dry.would_outcome ≡ live.outcome) × (dry.reason_codes ≡ live.reason_codes)
unfolding decide_outcome
decide_dry_run reasons = ground arith

validate_policy-enforcing :
    (date_parse : String → Option ℤ) (p : PolicyVersion)
    → p.mode ≡ "dry_run"
    → validate_policy date_parse (enforcing p) ≡ validate_policy date_parse p
unfolding validate_policy
validate_policy-enforcing date_parse p dry = simp dry

all_reasons-enforcing :
    (date_parse : String → Option ℤ) (p : PolicyVersion) (i : PolicyEvaluationInput)
    → all_reasons date_parse (enforcing p) i ≡ all_reasons date_parse p i
unfolding all_reasons mandate_reasons limit_reasons workload_reasons branch_reasons allowed_class
all_reasons-enforcing date_parse p i = refl

evaluate_dry_run :
    (date_parse : String → Option ℤ) (p : PolicyVersion) (i : PolicyEvaluationInput)
    {r : PolicyDecisionResult}
    → p.mode ≡ "dry_run"
    → evaluate_policy date_parse p i ≡ ok r
    → r ≡ decide_outcome "dry_run" (all_reasons date_parse p i)
evaluate_dry_run date_parse p i dry e = elim (decision_cases date_parse p i e) [
  | inl (paused, _, _) ↦ let clash : false ≡ true = simp dry at paused in cc
  | inr (_, same) ↦ same ∙ ap (λ m. decide_outcome m (all_reasons date_parse p i)) dry
]

evaluate_enforcing :
    (date_parse : String → Option ℤ) (p : PolicyVersion) (i : PolicyEvaluationInput)
    {r : PolicyDecisionResult}
    → p.mode ≡ "dry_run"
    → evaluate_policy date_parse p i ≡ ok r
    → evaluate_policy date_parse (enforcing p) i
      ≡ ok (decide_outcome "enforce" (all_reasons date_parse p i))
unfolding evaluate_policy
evaluate_enforcing date_parse p i dry e = elim (Result-cases (validate_policy date_parse p)) [
  | inr (x, bad) ↦ absurd (ground (arith, bad))
  | inl good ↦ elim (Result-cases (validate_evaluation date_parse i)) [
    | inr (x, bad) ↦ absurd (ground (arith, good, bad))
    | inl fine ↦ rw (
      validate_policy-enforcing date_parse p dry,
      good,
      fine,
      all_reasons-enforcing date_parse p i,
    )
  ]
]

-- A policy in `dry_run` says what it would decide in `enforce`: its `would_outcome` is the outcome
-- of the same policy enforced, for the same reasons.
pub dry_run_predicts :
    (date_parse : String → Option ℤ) (p : PolicyVersion) (i : PolicyEvaluationInput)
    {r : PolicyDecisionResult}
    → p.mode ≡ "dry_run"
    → evaluate_policy date_parse p i ≡ ok r
    → (r' : PolicyDecisionResult) × (evaluate_policy date_parse (enforcing p) i ≡ ok r')
      × (r.would_outcome ≡ r'.outcome)
      × (r.reason_codes ≡ r'.reason_codes)
dry_run_predicts date_parse p i {r} dry e =
    let reasons = all_reasons date_parse p i in
    let (predicted, because) = decide_dry_run reasons in
    (
      decide_outcome "enforce" reasons,
      evaluate_enforcing date_parse p i dry e,
      ap (λ (x : PolicyDecisionResult). x.would_outcome) (evaluate_dry_run date_parse p i dry e)
          ∙ predicted,
      ap (λ (x : PolicyDecisionResult). x.reason_codes) (evaluate_dry_run date_parse p i dry e)
          ∙ because,
    )
