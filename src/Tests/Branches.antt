-- ===== src/Tests/Branches.antt =====
-- Branches and reconciliation cases of src/persistence/policyStore.ts.
use fuse_agent_control_plane.Persistence.PolicyStore.{
  held, settle, MandateBranchRow, MandateBranch, InferenceExecutionRow, ReconciliationHold, Store,
}
use fuse_agent_control_plane.Persistence.PolicyStore.Tables.{is_branch}
use fuse_agent_control_plane.Persistence.PolicyStore.Counters.{child_authority}
use fuse_agent_control_plane.Persistence.PolicyStore.Reconciliation.{ResolveReconciliationInput}
use fuse_agent_control_plane.Persistence.PolicyStore.MandateBranches.{
  CreateMandateBranchInput, all_included, create_branch, get_branch,
}
use fuse_agent_control_plane.Persistence.PolicyStore.Delegation.{
  create_branch-within_parent, create_branch-get_branch,
}
use fuse_agent_control_plane.Tests.Store.{
  platform, policy, context, mandate, active_store, executing_row, admitted_after,
}
use fuse_agent_control_plane.Base.{
  ◌+ℤ◌, is_blank, ◌≡◌, refl, true, false, none, some, [], ◌∷◌, pos, int, ◌≤ℤ◌, find, ok, err,
}
use fuse_agent_control_plane.Domain.Policy.{WorkloadClassPolicy}
use fuse_agent_control_plane.Domain.Lifecycles.{MandateState, active, paused}

abbrev research : WorkloadClassPolicy
research = record {
  id = "research";
  max_cost_per_call_atomic = pos 1000;
  max_invocations_per_branch = int (pos 5);
  aggregate_budget_atomic = pos 5000;
  minimum_input_tokens = int (pos 1);
  shadow = none;
}

abbrev parent_row : MandateBranchRow
parent_row = record {
  authority_source = "fuse_control_plane";
  organization_id = "o";
  mandate_id = "m";
  branch_id = "root";
  parent_branch_id = none;
  agent_id = "agent";
  policy_id = "p";
  policy_version = int (pos 1);
  allowed_workload_classes = "research" ∷ [];
  maximum_spend_atomic = pos 3000;
  expires_at = none;
  created_at = "2026-01-01";
  created_by = "admin";
  delegation_hash = "root";
}

abbrev paused_store : Store
paused_store = record active_store {
  policies = record policy { workload_classes = research ∷ [] } ∷ [];
  mandates = record mandate { state = paused } ∷ [];
  branches = parent_row ∷ [];
}

abbrev branch_call : CreateMandateBranchInput
branch_call = record {
  context = context;
  id = "leaf";
  organization_id = "o";
  mandate_id = "m";
  parent_branch_id = some "root";
  agent_id = "agent";
  allowed_workload_classes = "research" ∷ [];
  maximum_spend_atomic = pos 1000;
  expires_at = none;
}

abbrev leaf_row : MandateBranchRow
leaf_row = record parent_row {
  branch_id = "leaf";
  parent_branch_id = some "root";
  maximum_spend_atomic = pos 1000;
  delegation_hash = "leaf";
}

abbrev leaf : MandateBranch
leaf = record {
  id = "leaf";
  organization_id = "o";
  mandate_id = "m";
  parent_branch_id = some "root";
  agent_id = "agent";
  policy_id = "p";
  policy_version = int (pos 1);
  allowed_workload_classes = "research" ∷ [];
  maximum_spend_atomic = pos 1000;
  expires_at = none;
  delegation_hash = "leaf";
  authority_source = "fuse_control_plane";
  created_at = "2026-01-01";
  created_by = "admin";
}

abbrev branched_store : Store
branched_store = record paused_store { branches = leaf_row ∷ parent_row ∷ [] }

branch_created : create_branch platform paused_store branch_call ≡ ok (branched_store, leaf)
unfolding create_branch fuse_agent_control_plane.Base.is_blank fuse_agent_control_plane.Base.◌+ℤ◌
branch_created = refl

create_branch-within_parent_example :
    (row : MandateBranchRow) × (find (is_branch "o" "m" "root") paused_store.branches ≡ some row)
    × (child_authority branched_store "o" "m" "root" ≤ℤ row.maximum_spend_atomic)
    × (all_included ("research" ∷ []) row.allowed_workload_classes ≡ true)
create_branch-within_parent_example =
    create_branch-within_parent platform paused_store branch_call "root" refl branch_created

create_branch-get_branch_example :
    get_branch platform branched_store "o" "m" "leaf" ≡ ok (some leaf)
create_branch-get_branch_example =
    create_branch-get_branch platform paused_store branch_call (λ d. refl) branch_created

abbrev held_row : InferenceExecutionRow
held_row = record executing_row { status = held; failure_code = some "PROVIDER_OUTCOME_AMBIGUOUS" }

abbrev hold : ReconciliationHold
hold = record { organization_id = "o"; mandate_id = "m"; prior_state = active }

abbrev held_store : MandateState → Store
held_store state = record admitted_after {
  mandates = record mandate { state = state } ∷ [];
  executions = held_row ∷ [];
  holds = hold ∷ [];
}

abbrev resolution : ResolveReconciliationInput
resolution = record {
  context = context;
  organization_id = "o";
  request_id = "r1";
  resolution = settle;
  actual_cost_atomic = some (pos 900);
  note = "billed";
  external_reference = "invoice 7";
}
