-- ===== src/Administration/PolicyAdministration/Methods.antt =====
-- The methods of PolicyAdministration, in src/policy/policyAdministration.ts.
use fuse_agent_control_plane.Base.{
  pos, leb_ℤ, Number, is_integer, to_int, ◌&&◌, not, String, is_blank, Result, ok, ◌>>◌, throw_if,
}
use fuse_agent_control_plane.Administration.PolicyAdministration.{
  AdministrativePrincipal, PublishPolicyInput, CreateBranchInput, CreateMandateInput,
  AssignAgentInput, TransitionMandateInput, SetMandatePolicyInput, ResolveReconciliationCommand,
  StoreCall, publishes_policy, creates_mandate, assigns_agent, creates_branch, transitions_mandate,
  sets_mandate_policy, gets_policy, lists_reconciliation_cases, resolves_reconciliation,
  lists_decisions, lists_shadow_evaluations, AdministrationError, policy_capability_required,
  mandate_capability_required, policy_id_required, policy_version_invalid,
  control_mandate_id_required, require_service_capability, require_admin, require_request_id,
  context_of,
}

module _ (now : String) (principal : AdministrativePrincipal) where
  unfoldable pub publish_policy : PublishPolicyInput → Result AdministrationError StoreCall
  publish_policy input =
      require_admin principal "policies:write" policy_capability_required
      >> require_request_id input.request_id
      >> ok (
          publishes_policy
            (record {
              id = input.policy_id;
              organization_id = principal.organization_id;
              version = input.version;
              mode = input.mode;
              allowed_providers = input.allowed_providers;
              allowed_models = input.allowed_models;
              required_capability = input.required_capability;
              limits = input.limits;
              workload_classes = input.workload_classes;
              created_at = now;
            })
            (context_of principal input.request_id now))

  unfoldable pub create_mandate : CreateMandateInput → Result AdministrationError StoreCall
  create_mandate input =
      require_admin principal "mandates:admin" mandate_capability_required
      >> require_request_id input.request_id
      >> ok (
          creates_mandate principal.organization_id "draft" input
            (context_of principal input.request_id now))

  unfoldable pub assign_agent : AssignAgentInput → Result AdministrationError StoreCall
  assign_agent input =
      require_admin principal "mandates:admin" mandate_capability_required
      >> require_request_id input.request_id
      >> ok (
          assigns_agent principal.organization_id input.mandate_id input.agent_id
            (context_of principal input.request_id now))

  unfoldable pub create_branch : CreateBranchInput → Result AdministrationError StoreCall
  create_branch input =
      require_admin principal "mandates:admin" mandate_capability_required
      >> require_request_id input.request_id
      >> ok (
          creates_branch principal.organization_id input
            (context_of principal input.request_id now))

  unfoldable pub transition_mandate : TransitionMandateInput → Result AdministrationError StoreCall
  transition_mandate input =
      require_admin principal "mandates:admin" mandate_capability_required
      >> require_request_id input.request_id
      >> ok (
          transitions_mandate principal.organization_id input.mandate_id input.target
            (context_of principal input.request_id now))

  unfoldable pub set_mandate_policy : SetMandatePolicyInput → Result AdministrationError StoreCall
  set_mandate_policy input =
      require_admin principal "mandates:admin" mandate_capability_required
      >> require_request_id input.request_id
      >> ok (
          sets_mandate_policy principal.organization_id input.mandate_id input.policy_id
            input.policy_version (context_of principal input.request_id now))

  unfoldable pub get_policy : String → Number → Result AdministrationError StoreCall
  get_policy policy_id version =
      require_service_capability principal "policies:read" policy_capability_required
      >> throw_if (is_blank policy_id) policy_id_required
      >> throw_if (not (is_integer version && leb_ℤ (pos 1) (to_int version)))
          policy_version_invalid
      >> ok (gets_policy principal.organization_id policy_id version)

  unfoldable pub list_reconciliation_cases : Result AdministrationError StoreCall
  list_reconciliation_cases =
      require_service_capability principal "policies:read" policy_capability_required
      >> ok (lists_reconciliation_cases principal.organization_id)

  unfoldable pub resolve_reconciliation :
      ResolveReconciliationCommand → Result AdministrationError StoreCall
  resolve_reconciliation input =
      require_admin principal "mandates:admin" mandate_capability_required
      >> require_request_id input.request_id
      >> ok (
          resolves_reconciliation principal.organization_id input
            (context_of principal input.request_id now))

  unfoldable pub list_decisions : String → Result AdministrationError StoreCall
  list_decisions mandate_id =
      require_service_capability principal "policies:read" policy_capability_required
      >> throw_if (is_blank mandate_id) control_mandate_id_required
      >> ok (lists_decisions principal.organization_id mandate_id)

  unfoldable pub list_shadow_evaluations : String → Result AdministrationError StoreCall
  list_shadow_evaluations mandate_id =
      require_service_capability principal "policies:read" policy_capability_required
      >> throw_if (is_blank mandate_id) control_mandate_id_required
      >> ok (lists_shadow_evaluations principal.organization_id mandate_id)
