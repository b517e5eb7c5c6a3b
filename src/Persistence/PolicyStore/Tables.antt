-- ===== src/Persistence/PolicyStore/Tables.antt =====
-- src/persistence/policyStore.ts: the lookups and updates that its queries share, with
-- `validateContext`, `verifyBranchIntegrity` and `holdMandateForReconciliation`.
use fuse_agent_control_plane.Persistence.PolicyStore.{
  ExecutionStatus, denied, executing, completed, held, StoreError, policy_actor_required,
  policy_causation_required, policy_occurred_at_invalid, control_mandate_not_found,
  mandate_branch_authority_source_invalid, mandate_branch_delegation_hash_invalid, of_policy,
  PolicyMutationContext, ControlMandate, Canonical, MandateBranchRow, InferenceExecutionRow,
  Resolution, ReconciliationHold, Store, Platform,
}
use fuse_agent_control_plane.Base.{
  ◌+ℤ◌, is_blank, String, Bool, true, false, ◌&&◌, not, Option, none, some, List, [], ◌∷◌, ◌==◌,
  if◌then◌else◌, is_some, ℤ, pos, Number, int, non_integer, eqb_ℤ, any, find, Result, ok, err,
  throw_if, or_throw, ◌>>=◌, ◌>>◌,
}
use fuse_agent_control_plane.Domain.Policy.{PolicyVersion}
use fuse_agent_control_plane.Domain.Policy.Validate.{PolicyError}
use fuse_agent_control_plane.Domain.Lifecycles.{
  MandateState, draft, active, paused, closing, closed, exhausted, tripped, lapsed,
  reconciliation_hold,
}

-- `UPDATE ... WHERE` with a primary key, which one row has: that row is rewritten.
abbrev pub update : {A : Type 0} → (A → Bool) → (A → A) → List A → List A
update p f [] = []
update p f (x ∷ xs) = let rest = update p f xs in if p x then f x ∷ xs else x ∷ rest

-- `SUM` over the rows that the test picks, and 0 over none.
abbrev pub sum_where : {A : Type 0} → (A → Bool) → (A → ℤ) → List A → ℤ
sum_where p f [] = pos 0
sum_where p f (x ∷ xs) = (if p x then f x else pos 0) +ℤ sum_where p f xs

abbrev pub same_number : Number → Number → Bool
same_number (int a) (int b) = eqb_ℤ a b
same_number (int a) non_integer = false
same_number non_integer b = false

abbrev pub same_text : Option String → String → Bool
same_text none t = false
same_text (some s) t = s == t

abbrev pub is_executing : ExecutionStatus → Bool
is_executing executing = true
is_executing _ = false

abbrev pub is_completed : ExecutionStatus → Bool
is_completed completed = true
is_completed _ = false

abbrev pub is_held : ExecutionStatus → Bool
is_held held = true
is_held _ = false

abbrev pub is_denied : ExecutionStatus → Bool
is_denied denied = true
is_denied _ = false

-- The state as the column's text.
unfoldable pub state_text : MandateState → String
state_text draft = "draft"
state_text active = "active"
state_text paused = "paused"
state_text closing = "closing"
state_text closed = "closed"
state_text exhausted = "exhausted"
state_text tripped = "tripped"
state_text lapsed = "expired"
state_text reconciliation_hold = "reconciliation_hold"

-- The tests of the queries' conditions on keys.
abbrev pub is_mandate : String → String → ControlMandate → Bool
is_mandate org id m = m.organization_id == org && m.id == id

abbrev pub is_execution : String → String → InferenceExecutionRow → Bool
is_execution org request e = e.organization_id == org && e.request_id == request

abbrev pub is_execution_of : String → String → InferenceExecutionRow → Bool
is_execution_of org mandate e = e.organization_id == org && e.mandate_id == mandate

abbrev pub is_resolution : String → String → Resolution → Bool
is_resolution org request r = r.organization_id == org && r.request_id == request

abbrev pub is_hold : String → String → ReconciliationHold → Bool
is_hold org mandate h = h.organization_id == org && h.mandate_id == mandate

abbrev pub is_policy : String → String → Number → PolicyVersion → Bool
is_policy org id version p = p.organization_id == org && p.id == id && same_number p.version version

abbrev pub is_branch : String → String → String → MandateBranchRow → Bool
is_branch org mandate id b =
    b.organization_id == org && b.mandate_id == mandate && b.branch_id == id

abbrev pub is_child_of : String → String → String → MandateBranchRow → Bool
is_child_of org mandate parent b =
    b.organization_id == org && b.mandate_id == mandate && same_text b.parent_branch_id parent

abbrev pub is_assigned : Store → String → String → String → Bool
is_assigned s org mandate agent =
    any (λ a. a.organization_id == org && a.mandate_id == mandate && a.agent_id == agent)
      s.assignments

abbrev pub is_agent : Store → String → String → Bool
is_agent s org agent = any (λ a. a.0 == org && a.1 == agent) s.agents

-- The mandate joined with its policy version.
abbrev pub mandate_policy :
    Store → String → String → Result StoreError (ControlMandate × PolicyVersion)
mandate_policy s org id =
    or_throw (find (is_mandate org id) s.mandates) control_mandate_not_found >>= λ m.
    or_throw (find (is_policy org m.policy_id m.policy_version) s.policies)
      control_mandate_not_found
    >>= λ p. ok (m, p)

abbrev pub in_policy : {A : Type 0} → Result PolicyError A → Result StoreError A
in_policy (ok a) = ok a
in_policy (err e) = err (of_policy e)

unfoldable pub validate_context : Platform → PolicyMutationContext → Result StoreError (Unit {0})
validate_context js context =
    throw_if (is_blank context.actor_id) policy_actor_required
    >> throw_if (is_blank context.causation_id) policy_causation_required
    >> throw_if (not (is_some (js.date_parse context.occurred_at))) policy_occurred_at_invalid

abbrev pub iso_of : Platform → Option String → Option String
iso_of js none = none
iso_of js (some date) = some (js.to_iso date)

-- The object that is hashed, made again from the columns of a row.
unfoldable pub rebuilt : Platform → MandateBranchRow → Canonical
rebuilt js row = record {
  authority_source = row.authority_source;
  organization_id = row.organization_id;
  mandate_id = row.mandate_id;
  branch_id = row.branch_id;
  parent_branch_id = row.parent_branch_id;
  agent_id = row.agent_id;
  policy_id = row.policy_id;
  policy_version = row.policy_version;
  allowed_workload_classes = row.allowed_workload_classes;
  maximum_spend_atomic = row.maximum_spend_atomic;
  expires_at = iso_of js row.expires_at;
  created_at = js.to_iso row.created_at;
  created_by = row.created_by;
}

unfoldable pub verify_branch_integrity : Platform → MandateBranchRow → Result StoreError (Unit {0})
unfolding rebuilt
verify_branch_integrity js row =
    throw_if (not (row.authority_source == "fuse_control_plane"))
      mandate_branch_authority_source_invalid
    >> throw_if (not (row.delegation_hash == js.delegation_hash (rebuilt js row)))
        mandate_branch_delegation_hash_invalid

unfoldable pub set_state : MandateState → ControlMandate → ControlMandate
set_state state m = record m { state = state }

-- The states that a mandate is put on hold from.
abbrev pub can_hold : MandateState → Bool
can_hold active = true
can_hold paused = true
can_hold closing = true
can_hold exhausted = true
can_hold tripped = true
can_hold _ = false

-- `INSERT ... ON CONFLICT DO NOTHING`: the first state before the hold is the one kept.
unfoldable pub add_hold :
    String → String → MandateState → List ReconciliationHold → List ReconciliationHold
add_hold org mandate prior holds =
    if any (is_hold org mandate) holds
    then holds
    else record { organization_id = org; mandate_id = mandate; prior_state = prior } ∷ holds

unfoldable pub put_on_hold : Store → String → String → MandateState → Store
unfolding add_hold set_state
put_on_hold s org mandate prior = record s {
  mandates = update (is_mandate org mandate) (set_state reconciliation_hold) s.mandates;
  holds = add_hold org mandate prior s.holds;
}

unfoldable pub hold_mandate_for_reconciliation : Store → String → String → Result StoreError Store
unfolding put_on_hold
hold_mandate_for_reconciliation s org mandate =
    or_throw (find (is_mandate org mandate) s.mandates) control_mandate_not_found >>= λ m.
    ok (if can_hold m.state then put_on_hold s org mandate m.state else s)

-- The row of `inference_executions` with the key is rewritten.
abbrev pub update_execution :
    Store → String → String → (InferenceExecutionRow → InferenceExecutionRow) → Store
update_execution s org request f = record s {
  executions = update (is_execution org request) f s.executions;
}
