-- ===== src/Persistence/PolicyStore/Counters.antt =====
-- What `admitInference` of src/persistence/policyStore.ts counts before it decides: the money that
-- a mandate has committed, the use of a branch, and the exposure that is left to it.
use fuse_agent_control_plane.Persistence.PolicyStore.{
  ControlMandate, MandateBranchRow, ExposureSnapshot, InferenceExecutionRow, Store, Platform,
}
use fuse_agent_control_plane.Persistence.PolicyStore.Tables.{
  sum_where, same_number, same_text, is_executing, is_completed, is_held, is_denied,
  is_execution_of, is_child_of, iso_of,
}
use fuse_agent_control_plane.Base.{
  ◌+ℤ◌, ◌-ℤ◌, String, Bool, false, ◌&&◌, ◌||◌, not, Option, none, some, List, [], ◌∷◌, ◌==◌,
  if◌then◌else◌, is_some, ℤ, pos, ltb_ℤ, leb_ℤ, keep, includes,
}
use fuse_agent_control_plane.Domain.Policy.{
  WorkloadClassPolicy, PolicyVersion, WorkloadEvaluationInput,
}

abbrev pub is_billed : InferenceExecutionRow → Bool
is_billed e = same_text e.failure_code "RECONCILED_BILLED_NO_RESPONSE"

-- A cost that is not there adds nothing to a sum.
abbrev pub cost_or_zero : Option ℤ → ℤ
cost_or_zero none = pos 0
cost_or_zero (some cost) = cost

-- What a row counts against its mandate: the actual cost once that is settled, the reserved cost
-- while it may still be spent.
unfoldable pub charge : InferenceExecutionRow → ℤ
charge e =
    if is_completed e.status || is_billed e
    then cost_or_zero e.actual_cost_atomic
    else if is_executing e.status || is_held e.status
    then e.reserved_cost_atomic
    else pos 0

-- `created_at >= start`, of instants.
abbrev not_before : Option ℤ → ℤ → Bool
not_before none start = false
not_before (some t) start = leb_ℤ start t

abbrev since : Platform → ℤ → InferenceExecutionRow → Bool
since js start e = not_before (js.date_parse e.created_at) start

unfoldable pub mandate_spent : List InferenceExecutionRow → String → String → ℤ
mandate_spent rows org mandate = sum_where (is_execution_of org mandate) charge rows

unfoldable pub spent_since : Platform → ℤ → List InferenceExecutionRow → String → String → ℤ
spent_since js start rows org mandate =
    sum_where (λ e. is_execution_of org mandate e && since js start e) charge rows

unfoldable pub requests_since : Platform → ℤ → List InferenceExecutionRow → String → String → ℤ
requests_since js start rows org mandate =
    sum_where (λ e. is_execution_of org mandate e && since js start e && not (is_denied e.status))
      (λ e. pos 1) rows

-- What a row counts against its branch.
unfoldable pub branch_charge : InferenceExecutionRow → ℤ
branch_charge e =
    if is_executing e.status || is_held e.status
    then e.reserved_cost_atomic
    else if is_completed e.status || is_billed e
    then cost_or_zero e.actual_cost_atomic
    else pos 0

abbrev is_of_branch : String → String → String → InferenceExecutionRow → Bool
is_of_branch org mandate branch e =
    is_execution_of org mandate e && same_text e.branch_id branch && is_some e.workload_class

abbrev is_of_class : String → String → String → String → InferenceExecutionRow → Bool
is_of_class org mandate branch class_id e =
    is_of_branch org mandate branch e && same_text e.workload_class class_id

unfoldable pub class_spent : Store → String → String → String → String → ℤ
class_spent s org mandate branch class_id =
    sum_where (is_of_class org mandate branch class_id) branch_charge s.executions

unfoldable pub class_invocations : Store → String → String → String → String → ℤ
class_invocations s org mandate branch class_id =
    sum_where (λ e. is_of_class org mandate branch class_id e && not (is_denied e.status))
      (λ e. pos 1) s.executions

-- The sum over the branch's classes, which is the sum over its rows that name a class, and the
-- authority that its children have been given.
unfoldable pub child_authority : Store → String → String → String → ℤ
child_authority s org mandate branch =
    sum_where (is_child_of org mandate branch) (λ b. b.maximum_spend_atomic) s.branches

unfoldable pub branch_spent : Store → String → String → String → ℤ
branch_spent s org mandate branch =
    sum_where (is_of_branch org mandate branch) branch_charge s.executions
    +ℤ child_authority s org mandate branch

-- A branch that is not in the table authorises nothing.
unfoldable pub branch_authorized : Option MandateBranchRow → String → ControlMandate → Bool
branch_authorized none agent m = false
branch_authorized (some b) agent m =
    b.agent_id == agent
    && b.policy_id == m.policy_id
    && same_number b.policy_version m.policy_version

abbrev branch_maximum : Option MandateBranchRow → ℤ
branch_maximum none = pos 0
branch_maximum (some b) = b.maximum_spend_atomic

abbrev branch_expiry : Platform → Option MandateBranchRow → Option String
branch_expiry js none = none
branch_expiry js (some b) = iso_of js b.expires_at

abbrev branch_classes : Option MandateBranchRow → List String
branch_classes none = []
branch_classes (some b) = b.allowed_workload_classes

unfoldable pub workload_input :
    Platform
    → Store
    → ControlMandate
    → String
    → String
    → String
    → Option MandateBranchRow
    → WorkloadEvaluationInput
unfolding branch_authorized branch_spent class_invocations class_spent
workload_input js s m agent branch class_id found =
    let org = m.organization_id in
    record {
      branch_id = branch;
      workload_class = class_id;
      branch_authorized = branch_authorized found agent m;
      branch_maximum_atomic = branch_maximum found;
      branch_spent_atomic = branch_spent s org m.id branch;
      branch_expires_at = branch_expiry js found;
      class_authorized = includes class_id (branch_classes found);
      class_invocation_count = class_invocations s org m.id branch class_id;
      class_spent_atomic = class_spent s org m.id branch class_id;
    }

-- `a > b ? a - b : 0n` and the lesser of two.
unfoldable pub remaining : ℤ → ℤ → ℤ
remaining a b = if ltb_ℤ b a then a -ℤ b else pos 0

unfoldable pub lesser : ℤ → ℤ → ℤ
lesser a b = if ltb_ℤ a b then a else b

abbrev sum_over : {A : Type 0} → (A → ℤ) → List A → ℤ
sum_over f [] = pos 0
sum_over f (x ∷ xs) = f x +ℤ sum_over f xs

-- The exposure of an authorised branch, for a request that reserves so much.
unfoldable pub exposure_snapshot :
    Store → ControlMandate → PolicyVersion → MandateBranchRow → ℤ → ExposureSnapshot
unfolding remaining lesser class_spent mandate_spent
exposure_snapshot s m p b reservation =
    let org = m.organization_id in
    let classes = keep (λ c. includes c.id b.allowed_workload_classes) p.workload_classes in
    let spent = λ (c : WorkloadClassPolicy). class_spent s org m.id b.branch_id c.id in
    let committed = sum_over spent classes in
    let class_remaining = sum_over (λ c. remaining c.aggregate_budget_atomic (spent c)) classes in
    let branch_remaining = lesser class_remaining (remaining b.maximum_spend_atomic committed) in
    let maximum =
      lesser branch_remaining
        (remaining m.maximum_spend_atomic (mandate_spent s.executions org m.id)) in
    record {
      branch_limit_atomic = b.maximum_spend_atomic;
      branch_committed_before_atomic = committed;
      request_reservation_atomic = reservation;
      maximum_exposure_atomic = maximum;
      remaining_authority_atomic = remaining maximum reservation;
    }
