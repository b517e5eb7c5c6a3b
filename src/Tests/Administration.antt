-- ===== src/Tests/Administration.antt =====
-- src/policy/policyAdministration.ts on an admin who assigns an agent.
use fuse_agent_control_plane.Base.{
  Bool, Option, none, some, List, [], ◌∷◌, String, ok, is_ok, ◌≡◌, refl,
}
use fuse_agent_control_plane.Administration.PolicyAdministration.{
  AdministrativePrincipal, service_account, StoreCall, Context, assigns_agent, context_of,
}
use fuse_agent_control_plane.Administration.PolicyAdministration.Authority.{
  Request, assign, handle, is_permitted, organization_of, context_in, handle_permitted,
  handle_in_organization,
}

abbrev admin : AdministrativePrincipal
admin = record {
  principal_type = service_account;
  principal_id = "ops";
  organization_id = "o";
  credential_id = "c";
  capabilities = "policies:read" ∷ "mandates:admin" ∷ [];
  role = some "admin";
  session_source_credential_id = none;
  session_source_credential_type = none;
}

abbrev assignment : Request
assignment = assign (record { mandate_id = "m"; agent_id = "a"; request_id = "r" })

abbrev assignment_call : StoreCall
assignment_call =
    assigns_agent "o" "m" "a"
      (record { actor_id = "service_account:ops"; causation_id = "r"; occurred_at = "now" })

assignment_made : handle "now" admin assignment ≡ ok assignment_call
unfolding handle fuse_agent_control_plane.Administration.PolicyAdministration.Methods.assign_agent
    fuse_agent_control_plane.Administration.PolicyAdministration.require_admin
    fuse_agent_control_plane.Administration.PolicyAdministration.require_request_id
    fuse_agent_control_plane.Base.is_blank context_of
assignment_made = refl

handle_permitted_example : is_ok (handle "now" admin assignment) ≡ is_permitted admin assignment
handle_permitted_example = handle_permitted "now" admin assignment

handle_in_organization_example :
    (organization_of assignment_call ≡ "o")
    × (context_in assignment_call ≡ some (context_of admin "r" "now"))
handle_in_organization_example = handle_in_organization "now" admin assignment assignment_made
