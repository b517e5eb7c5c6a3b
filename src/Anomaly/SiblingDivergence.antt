-- ===== src/Anomaly/SiblingDivergence.antt =====
-- src/anomaly/siblingDivergence.ts. Division of a `bigint` drops the fraction towards zero; the
-- counts that the code turns into a `bigint` are integers by then, since it has tested them.
pub mod Evaluate
pub mod Signals
pub mod Relevance
use fuse_agent_control_plane.Base.{
  ℕ, ◌+◌, ◌/◌, ◌%◌, ℤ, pos, pos_part, neg_part, sub_ℕ, ◌+ℤ◌, ◌*ℤ◌, ltb_ℤ, leb_ℤ, leb, ltb, Number,
  int, is_safe_integer, to_int, max_safe_integer, Bool, true, false, ◌&&◌, ◌||◌, not, List, [], ◌∷◌,
  ◌++◌, map, length, all, any, keep, drop_last, String, ◌==◌, is_blank, Result, ok, err, ◌>>=◌,
  ◌>>◌, throw_if, for_each, if◌then◌else◌,
}

pub record SiblingDivergenceConfig : Type 0 where
  pub class_prior_window_spend_atomic : ℤ
  pub confidence_constant : Number
  pub target_minimum_observations : Number
  pub sibling_minimum_for_scoring : Number
  pub sibling_minimum_for_intervention : Number
  pub divergence_threshold_bps : Number

pub record BranchWindowObservation : Type 0 where
  pub branch_id : String
  pub parent_branch_id : String
  pub workload_class : String
  pub spend_atomic : ℤ
  pub observation_count : Number

pub data SiblingDivergenceSignal : Type 0 where
  sibling_divergence class_prior_exceeded correlated_cohort_shift : SiblingDivergenceSignal

pub data DivergenceStatus : Type 0 where
  scored insufficient_target_observations insufficient_siblings : DivergenceStatus

pub data SiblingAggregate : Type 0 where
  no_aggregate mean trimmed_mean : SiblingAggregate

pub record SiblingDivergenceResult : Type 0 where
  pub status : DivergenceStatus
  pub target_observation_count : Number
  pub comparable_sibling_count : ℕ
  pub sibling_aggregate : SiblingAggregate
  pub sibling_aggregate_atomic : ℤ
  pub sibling_weight_bps : ℤ
  pub effective_baseline_atomic : ℤ
  pub divergence_ratio_bps : ℤ
  pub target_prior_ratio_bps : ℤ
  pub cohort_prior_ratio_bps : ℤ
  pub eligible_for_intervention : Bool
  pub signals : List SiblingDivergenceSignal
  pub would_emit_any_signal : Bool
  pub would_signal_target : Bool
  pub cohort_shift : Bool
  pub would_signal : Bool

pub data DivergenceError : Type 0 where
  prior_invalid config_invalid branch_required parent_required class_required : DivergenceError
  spend_invalid observation_count_invalid : DivergenceError

abbrev pub bps : ℤ
bps = pos 10000

-- `a / b` on `bigint`, for b other than 0.
unfoldable pub ◌/ℤ◌ : ℤ → ℤ → ℤ
◌/ℤ◌ a b =
    let q = (pos_part a + neg_part a) / (pos_part b + neg_part b) in
    if ltb_ℤ a (pos 0) && ltb_ℤ (pos 0) b || ltb_ℤ (pos 0) a && ltb_ℤ b (pos 0)
    then sub_ℕ 0 q
    else pos q

abbrev pub is_count : ℤ → Number → Bool
is_count least n = is_safe_integer n && leb_ℤ least (to_int n)

unfoldable pub validate_observation : BranchWindowObservation → Result DivergenceError (Unit {0})
unfolding is_blank
validate_observation o =
    throw_if (is_blank o.branch_id) branch_required
    >> throw_if (is_blank o.parent_branch_id) parent_required
    >> throw_if (is_blank o.workload_class) class_required
    >> throw_if (ltb_ℤ o.spend_atomic (pos 0)) spend_invalid
    >> throw_if (not (is_count (pos 0) o.observation_count)) observation_count_invalid

unfoldable pub validate_config : SiblingDivergenceConfig → Result DivergenceError (Unit {0})
validate_config c =
    throw_if (leb_ℤ c.class_prior_window_spend_atomic (pos 0)) prior_invalid
    >> throw_if
        (not (
          all (is_count (pos 1)) (
            c.confidence_constant ∷ c.target_minimum_observations ∷ c.sibling_minimum_for_scoring
            ∷ c.sibling_minimum_for_intervention ∷ c.divergence_threshold_bps ∷ [])))
        config_invalid
    >> throw_if
        (ltb_ℤ (to_int c.sibling_minimum_for_intervention) (to_int c.sibling_minimum_for_scoring))
        config_invalid

unfoldable pub ratio_fraction_bps : ℤ → ℤ → Result DivergenceError ℤ
unfolding ◌/ℤ◌
ratio_fraction_bps numerator denominator =
    let ratio = ◌/ℤ◌ (numerator *ℤ bps) denominator in
    throw_if (leb_ℤ denominator (pos 0)) prior_invalid
    >> ok (if ltb_ℤ (pos max_safe_integer) ratio then pos max_safe_integer else ratio)

-- The comparison of `atOrAboveThreshold`.
unfoldable pub is_above : ℤ → ℤ → ℤ → Bool
is_above numerator denominator threshold = leb_ℤ (threshold *ℤ denominator) (numerator *ℤ bps)

unfoldable pub at_or_above_threshold : ℤ → ℤ → Number → Result DivergenceError Bool
at_or_above_threshold numerator denominator threshold =
    throw_if (leb_ℤ denominator (pos 0)) prior_invalid
    >> ok (is_above numerator denominator (to_int threshold))

-- The test of the `filter` over the candidates.
unfoldable pub is_comparable :
    SiblingDivergenceConfig → BranchWindowObservation → BranchWindowObservation → Bool
is_comparable config target c =
    not (c.branch_id == target.branch_id)
    && c.parent_branch_id == target.parent_branch_id
    && c.workload_class == target.workload_class
    && leb_ℤ (to_int config.target_minimum_observations) (to_int c.observation_count)

insert_sorted : ℤ → List ℤ → List ℤ
insert_sorted a [] = a ∷ []
insert_sorted a (b ∷ bs) = if leb_ℤ a b then a ∷ b ∷ bs else b ∷ insert_sorted a bs

-- `sort(compareBigint)`: the order of equal numbers cannot be seen.
unfoldable pub sort : List ℤ → List ℤ
unfolding insert_sorted
sort [] = []
sort (a ∷ rest) = insert_sorted a (sort rest)

-- `sorted.length >= 5 ? sorted.slice(1, -1) : sorted`.
abbrev pub trim_ends : List ℤ → List ℤ
trim_ends [] = []
trim_ends (a ∷ rest) = if leb 5 (length (a ∷ rest)) then drop_last rest else a ∷ rest

unfoldable pub sum : List ℤ → ℤ
sum [] = pos 0
sum (a ∷ rest) = a +ℤ sum rest

abbrev pub if_signal : Bool → SiblingDivergenceSignal → List SiblingDivergenceSignal
if_signal b s = if b then s ∷ [] else []
