-- ===== src/Anomaly/SiblingDivergence/Evaluate.antt =====
-- `evaluateSiblingDivergence` of src/anomaly/siblingDivergence.ts.
use fuse_agent_control_plane.Base.{
  ℕ, ℤ, pos, ◌+ℤ◌, ◌*ℤ◌, ltb_ℤ, leb_ℤ, leb, to_int, Bool, true, false, ◌&&◌, ◌||◌, not, List, [],
  ◌∷◌, ◌++◌, map, length, keep, Result, ok, ◌>>=◌, ◌>>◌, for_each, if◌then◌else◌,
}
use fuse_agent_control_plane.Anomaly.SiblingDivergence.{
  SiblingDivergenceConfig, BranchWindowObservation, DivergenceStatus, SiblingDivergenceResult,
  DivergenceError, bps, ◌/ℤ◌, validate_observation, validate_config, ratio_fraction_bps,
  at_or_above_threshold, is_comparable, sort, trim_ends, sum, if_signal, sibling_divergence,
  class_prior_exceeded, correlated_cohort_shift, scored, insufficient_target_observations,
  insufficient_siblings, no_aggregate, mean, trimmed_mean,
}

-- What every result has before any sibling is scored.
unfoldable pub base_result :
    SiblingDivergenceConfig
    → BranchWindowObservation
    → ℕ
    → ℤ
    → DivergenceStatus
    → SiblingDivergenceResult
base_result config target comparable prior_ratio status = record {
  status = status;
  target_observation_count = target.observation_count;
  comparable_sibling_count = comparable;
  sibling_aggregate = no_aggregate;
  sibling_aggregate_atomic = pos 0;
  sibling_weight_bps = pos 0;
  effective_baseline_atomic = config.class_prior_window_spend_atomic;
  divergence_ratio_bps = prior_ratio;
  target_prior_ratio_bps = prior_ratio;
  cohort_prior_ratio_bps = pos 0;
  eligible_for_intervention = false;
  signals = [];
  would_emit_any_signal = false;
  would_signal_target = false;
  cohort_shift = false;
  would_signal = false;
}

-- The spend that the siblings are scored by.
abbrev pub trimmed_spends : List BranchWindowObservation → List ℤ
trimmed_spends comparable = trim_ends (sort (map (λ o. o.spend_atomic) comparable))

abbrev pub count_ℤ : {A : Type 0} → List A → ℤ
count_ℤ xs = pos (length xs)

-- `baselineNumerator` and `baselineDenominator`.
unfoldable pub baseline_numerator : SiblingDivergenceConfig → List BranchWindowObservation → ℤ
baseline_numerator config comparable =
    count_ℤ comparable *ℤ sum (trimmed_spends comparable)
    +ℤ to_int config.confidence_constant
      *ℤ config.class_prior_window_spend_atomic
      *ℤ count_ℤ (trimmed_spends comparable)

unfoldable pub baseline_denominator : SiblingDivergenceConfig → List BranchWindowObservation → ℤ
baseline_denominator config comparable =
    (count_ℤ comparable +ℤ to_int config.confidence_constant) *ℤ count_ℤ (trimmed_spends comparable)

abbrev pub is_empty : {A : Type 0} → List A → Bool
is_empty [] = true
is_empty (_ ∷ _) = false

-- The result when there are enough siblings, from the ratios and tests that may throw.
unfoldable pub scored_result :
    SiblingDivergenceConfig
    → BranchWindowObservation
    → List BranchWindowObservation
    → (divergence prior cohort : ℤ) → (diverges exceeds shifts : Bool) → SiblingDivergenceResult
unfolding ◌/ℤ◌ sum sort
scored_result config target comparable divergence prior cohort diverges exceeds shifts =
    let trimmed = trimmed_spends comparable in
    let signals =
      if_signal diverges sibling_divergence
      ++ (if_signal exceeds class_prior_exceeded ++ if_signal shifts correlated_cohort_shift) in
    let eligible = leb_ℤ (to_int config.sibling_minimum_for_intervention) (count_ℤ comparable) in
    record {
      status = scored;
      target_observation_count = target.observation_count;
      comparable_sibling_count = length comparable;
      sibling_aggregate = if leb 5 (length comparable) then trimmed_mean else mean;
      sibling_aggregate_atomic = ◌/ℤ◌ (sum trimmed) (count_ℤ trimmed);
      sibling_weight_bps =
          ◌/ℤ◌ (count_ℤ comparable *ℤ bps)
            (count_ℤ comparable +ℤ to_int config.confidence_constant);
      effective_baseline_atomic =
          ◌/ℤ◌ (baseline_numerator config comparable) (baseline_denominator config comparable);
      divergence_ratio_bps = divergence;
      target_prior_ratio_bps = prior;
      cohort_prior_ratio_bps = cohort;
      eligible_for_intervention = eligible;
      signals = signals;
      would_emit_any_signal = not (is_empty signals);
      would_signal_target = diverges || exceeds;
      cohort_shift = shifts;
      would_signal = eligible && (diverges || exceeds);
    }

unfoldable pub score :
    SiblingDivergenceConfig
    → BranchWindowObservation
    → List BranchWindowObservation
    → Bool
    → Result DivergenceError SiblingDivergenceResult
score config target comparable exceeds =
    let prior_total =
      config.class_prior_window_spend_atomic *ℤ count_ℤ (trimmed_spends comparable) in
    let scaled = target.spend_atomic *ℤ baseline_denominator config comparable in
    let numerator = baseline_numerator config comparable in
    let siblings = sum (trimmed_spends comparable) in
    do
      divergence ← ratio_fraction_bps scaled numerator
      prior ← ratio_fraction_bps target.spend_atomic config.class_prior_window_spend_atomic
      cohort ← ratio_fraction_bps siblings prior_total
      diverges ← at_or_above_threshold scaled numerator config.divergence_threshold_bps
      shifts ← at_or_above_threshold siblings prior_total config.divergence_threshold_bps
      ok (scored_result config target comparable divergence prior cohort diverges exceeds shifts)

-- What follows the validation; `comparable` is the filtered list.
unfoldable pub evaluate_comparable :
    SiblingDivergenceConfig
    → BranchWindowObservation
    → List BranchWindowObservation
    → Result DivergenceError SiblingDivergenceResult
evaluate_comparable config target comparable = do
  prior_ratio ← ratio_fraction_bps target.spend_atomic config.class_prior_window_spend_atomic
  let base = base_result config target (length comparable) prior_ratio
  if ltb_ℤ (to_int target.observation_count) (to_int config.target_minimum_observations)
      then ok (base insufficient_target_observations)
      else do
        exceeds ←
            at_or_above_threshold target.spend_atomic config.class_prior_window_spend_atomic
              config.divergence_threshold_bps
        if ltb_ℤ (count_ℤ comparable) (to_int config.sibling_minimum_for_scoring)
            then ok (record (base insufficient_siblings) {
              signals = if_signal exceeds class_prior_exceeded;
              would_emit_any_signal = exceeds;
              would_signal_target = exceeds;
            })
            else score config target comparable exceeds

unfoldable pub evaluate_sibling_divergence :
    SiblingDivergenceConfig
    → BranchWindowObservation
    → List BranchWindowObservation
    → Result DivergenceError SiblingDivergenceResult
evaluate_sibling_divergence config target candidates =
    validate_config config
    >> validate_observation target
    >> for_each validate_observation candidates
    >> evaluate_comparable config target (keep (is_comparable config target) candidates)
