-- ===== src/Tests/Divergence.antt =====
-- src/anomaly/siblingDivergence.ts on a branch that spends more than its two siblings.
use fuse_agent_control_plane.Base.{
  ℕ, ℤ, pos, int, to_int, Bool, true, false, List, [], ◌∷◌, ◌++◌, String, ok, ◌>>=◌, ◌>>◌, for_each,
  ◌≡◌, refl, ap, ◌==◌,
}
use fuse_agent_control_plane.Anomaly.SiblingDivergence.{
  SiblingDivergenceConfig, BranchWindowObservation, SiblingDivergenceResult, validate_observation,
  scored, mean, sibling_divergence, class_prior_exceeded,
}
use fuse_agent_control_plane.Anomaly.SiblingDivergence.Evaluate.{evaluate_sibling_divergence}
use fuse_agent_control_plane.Anomaly.SiblingDivergence.Relevance.{IsSibling, irrelevant_candidate}

abbrev settings : SiblingDivergenceConfig
settings = record {
  class_prior_window_spend_atomic = pos 100;
  confidence_constant = int (pos 2);
  target_minimum_observations = int (pos 3);
  sibling_minimum_for_scoring = int (pos 1);
  sibling_minimum_for_intervention = int (pos 2);
  divergence_threshold_bps = int (pos 20000);
}

abbrev observed : String → String → ℤ → BranchWindowObservation
observed id parent spend = record {
  branch_id = id;
  parent_branch_id = parent;
  workload_class = "research";
  spend_atomic = spend;
  observation_count = int (pos 5);
}

abbrev target : BranchWindowObservation
target = observed "t" "root" (pos 400)

abbrev candidates : List BranchWindowObservation
candidates =
    observed "a" "root" (pos 100)
    ∷ observed "x" "elsewhere" (pos 900)
    ∷ observed "b" "root" (pos 100)
    ∷ []

abbrev signalled : SiblingDivergenceResult
signalled = record {
  status = scored;
  target_observation_count = int (pos 5);
  comparable_sibling_count = 2;
  sibling_aggregate = mean;
  sibling_aggregate_atomic = pos 100;
  sibling_weight_bps = pos 5000;
  effective_baseline_atomic = pos 100;
  divergence_ratio_bps = pos 40000;
  target_prior_ratio_bps = pos 40000;
  cohort_prior_ratio_bps = pos 10000;
  eligible_for_intervention = true;
  signals = sibling_divergence ∷ class_prior_exceeded ∷ [];
  would_emit_any_signal = true;
  would_signal_target = true;
  cohort_shift = false;
  would_signal = true;
}

-- A branch of the same parent that does other work.
abbrev stranger : BranchWindowObservation
stranger = record target { branch_id = "stranger"; workload_class = "other" }

stranger-valid : validate_observation stranger ≡ ok tt
unfolding validate_observation fuse_agent_control_plane.Base.is_blank
stranger-valid = refl

stranger-IsSibling : ¬ IsSibling settings target stranger
stranger-IsSibling h = let differ : false ≡ true = ap (λ w. w == "research") h.same_class in cc

irrelevant_candidate_example :
    evaluate_sibling_divergence settings target ([] ++ stranger ∷ candidates)
    ≡ evaluate_sibling_divergence settings target ([] ++ candidates)
irrelevant_candidate_example =
    irrelevant_candidate settings target stranger [] candidates stranger-valid stranger-IsSibling
