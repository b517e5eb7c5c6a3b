-- ===== src/Anomaly/SiblingDivergence/Relevance.antt =====
-- Only siblings of the target bear on an evaluation.
use fuse_agent_control_plane.Base.{
  ◌≡◌, refl, ap, arith, inl, inr, Bool-cases, Bool, true, false, eq_iff, List, [], ◌∷◌, ◌++◌, keep,
  ◌≤ℤ◌, to_int, Result, ok, ◌>>◌, for_each,
}
use fuse_agent_control_plane.Anomaly.SiblingDivergence.{
  SiblingDivergenceConfig, BranchWindowObservation, validate_observation, is_comparable,
}
use fuse_agent_control_plane.Anomaly.SiblingDivergence.Evaluate.{evaluate_sibling_divergence}

-- Another branch of the target's parent, for work of the same class, that has been observed often
-- enough.
pub record IsSibling (config : SiblingDivergenceConfig) (target c : BranchWindowObservation)
    : Type 0 where
  pub other_branch : ¬ (c.branch_id ≡ target.branch_id)
  pub same_parent : c.parent_branch_id ≡ target.parent_branch_id
  pub same_class : c.workload_class ≡ target.workload_class
  pub observed : to_int config.target_minimum_observations ≤ℤ to_int c.observation_count

is_comparable-IsSibling :
    (config : SiblingDivergenceConfig) (target c : BranchWindowObservation)
    → is_comparable config target c ≡ true
    → IsSibling config target c
unfolding is_comparable
is_comparable-IsSibling config target c h = record {
  other_branch = λ e. ground (arith, eq_iff c.branch_id target.branch_id);
  same_parent = ground (arith, eq_iff c.parent_branch_id target.parent_branch_id);
  same_class = ground (arith, eq_iff c.workload_class target.workload_class);
  observed = ground (arith);
}

keep-without {ℓ} :
    {A : Type ℓ} (p : A → Bool) (xs ys : List A) (x : A)
    → p x ≡ false
    → keep p (xs ++ x ∷ ys) ≡ keep p (xs ++ ys)
keep-without p [] ys x h = rw h refl
keep-without p (y ∷ xs) ys x h = ground (arith, keep-without p xs ys x h)

for_each-without :
    {E A : Type 0} (f : A → Result E (Unit {0})) (xs ys : List A) (x : A)
    → f x ≡ ok tt
    → for_each f (xs ++ x ∷ ys) ≡ for_each f (xs ++ ys)
for_each-without f [] ys x h = rw h refl
for_each-without f (y ∷ xs) ys x h = ap (λ r. f y >> r) (for_each-without f xs ys x h)

-- A valid candidate that is the target's own branch, has another parent or another class of work,
-- or has been observed less often than the configuration asks, bears on nothing: the evaluation is
-- what it is without that candidate, wherever it stands among the others.
pub irrelevant_candidate :
    (config : SiblingDivergenceConfig) (target candidate : BranchWindowObservation)
    (before after : List BranchWindowObservation)
    → validate_observation candidate ≡ ok tt
    → ¬ IsSibling config target candidate
    → evaluate_sibling_divergence config target (before ++ candidate ∷ after)
      ≡ evaluate_sibling_divergence config target (before ++ after)
unfolding evaluate_sibling_divergence
irrelevant_candidate config target candidate before after valid other =
    elim (Bool-cases (is_comparable config target candidate)) [
      | inl comparable ↦ absurd (other (is_comparable-IsSibling config target candidate comparable))
      | inr kept_out ↦
          rw
            (
              for_each-without validate_observation before after candidate valid,
              keep-without (is_comparable config target) before after candidate kept_out,
            )
            refl
    ]
