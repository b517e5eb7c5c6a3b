-- ===== src/Administration/PolicyAdministration.antt =====
-- src/policy/policyAdministration.ts, the class PolicyAdministration. A method throws or makes one
-- call of the policy store: the call, with its arguments, is the method's result. The clock's
-- reading is an argument.
pub mod Methods
pub mod Authority
use Prim.Native.String
use fuse_agent_control_plane.Base.{
  ℤ, pos, leb_ℤ, Number, is_integer, to_int, Bool, true, false, ◌&&◌, not, Option, none, some, List,
  String, ◌==◌, is_blank, includes, Result, ok, err, ◌>>=◌, ◌>>◌, throw_if,
}
use fuse_agent_control_plane.Domain.Policy.{PolicyLimits, WorkloadClassPolicy, PolicyVersion}
use fuse_agent_control_plane.Domain.Lifecycles.{MandateState}

pub data PrincipalType : Type 0 where
  agent service_account : PrincipalType

pub record AdministrativePrincipal : Type 0 where
  pub principal_type : PrincipalType
  pub principal_id : String
  pub organization_id : String
  pub credential_id : String
  pub capabilities : List String
  pub role : Option String
  pub session_source_credential_id : Option String
  pub session_source_credential_type : Option PrincipalType

-- A missing `workloadClasses` is the empty list, as it is to every reader of a policy.
pub record PublishPolicyInput : Type 0 where
  pub policy_id : String
  pub version : Number
  pub mode : String
  pub allowed_providers : List String
  pub allowed_models : List String
  pub required_capability : String
  pub limits : PolicyLimits
  pub workload_classes : List WorkloadClassPolicy
  pub request_id : String

pub record CreateBranchInput : Type 0 where
  pub branch_id : String
  pub mandate_id : String
  pub parent_branch_id : Option String
  pub agent_id : String
  pub allowed_workload_classes : List String
  pub maximum_spend_atomic : ℤ
  pub expires_at : Option String
  pub request_id : String

pub record CreateMandateInput : Type 0 where
  pub mandate_id : String
  pub name : String
  pub asset_id : String
  pub maximum_spend_atomic : ℤ
  pub policy_id : String
  pub policy_version : Number
  pub expires_at : Option String
  pub request_id : String

pub record AssignAgentInput : Type 0 where
  pub mandate_id : String
  pub agent_id : String
  pub request_id : String

pub record TransitionMandateInput : Type 0 where
  pub mandate_id : String
  pub target : MandateState
  pub request_id : String

pub record SetMandatePolicyInput : Type 0 where
  pub mandate_id : String
  pub policy_id : String
  pub policy_version : Number
  pub request_id : String

pub record ResolveReconciliationCommand : Type 0 where
  pub execution_request_id : String
  pub resolution : String
  pub actual_cost_atomic : Option ℤ
  pub note : String
  pub external_reference : String
  pub request_id : String

pub record Context : Type 0 where
  pub actor_id : String
  pub causation_id : String
  pub occurred_at : String

-- The store's methods, each with the organization it is called for and its other arguments.
pub data StoreCall : Type 0 where
  publishes_policy : PolicyVersion → Context → StoreCall
  creates_mandate : (organization_id state : String) → CreateMandateInput → Context → StoreCall
  assigns_agent : (organization_id mandate_id agent_id : String) → Context → StoreCall
  creates_branch : (organization_id : String) → CreateBranchInput → Context → StoreCall
  transitions_mandate : (organization_id mandate_id : String) → MandateState → Context → StoreCall
  sets_mandate_policy :
      (organization_id mandate_id policy_id : String) → Number → Context → StoreCall
  gets_policy : (organization_id policy_id : String) → Number → StoreCall
  lists_reconciliation_cases : (organization_id : String) → StoreCall
  resolves_reconciliation :
      (organization_id : String) → ResolveReconciliationCommand → Context → StoreCall
  lists_decisions lists_shadow_evaluations : (organization_id mandate_id : String) → StoreCall

pub data AdministrationError : Type 0 where
  service_account_required service_account_admin_required : AdministrationError
  policy_capability_required mandate_capability_required : AdministrationError
  request_id_required policy_id_required policy_version_invalid : AdministrationError
  control_mandate_id_required : AdministrationError

abbrev pub is_service_account : PrincipalType → Bool
is_service_account service_account = true
is_service_account agent = false

abbrev pub is_admin : Option String → Bool
is_admin none = false
is_admin (some role) = role == "admin"

unfoldable pub require_service_capability :
    AdministrativePrincipal → String → AdministrationError → Result AdministrationError (Unit {0})
require_service_capability principal capability error =
    throw_if (not (is_service_account principal.principal_type)) service_account_required
    >> throw_if (not (includes capability principal.capabilities)) error

unfoldable pub require_admin :
    AdministrativePrincipal → String → AdministrationError → Result AdministrationError (Unit {0})
require_admin principal capability error =
    throw_if (not (is_service_account principal.principal_type)) service_account_required
    >> throw_if (not (is_admin principal.role)) service_account_admin_required
    >> throw_if (not (includes capability principal.capabilities)) error

unfoldable pub require_request_id : String → Result AdministrationError (Unit {0})
require_request_id request_id = throw_if (is_blank request_id) request_id_required

unfoldable pub context_of : AdministrativePrincipal → String → String → Context
context_of principal causation_id occurred_at = record {
  actor_id = String.◌++◌ "service_account:" principal.principal_id;
  causation_id = causation_id;
  occurred_at = occurred_at;
}
