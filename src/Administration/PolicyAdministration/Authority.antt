-- ===== src/Administration/PolicyAdministration/Authority.antt =====
-- Who may make which call of the policy store, and for whom.
use fuse_agent_control_plane.Base.{
  pos, leb_ℤ, Number, is_integer, to_int, Bool, true, ◌&&◌, not, Option, none, some, String,
  is_blank, includes, Result, ok, is_ok, ◌≡◌, arith,
}
use fuse_agent_control_plane.Administration.PolicyAdministration.{
  AdministrativePrincipal, PublishPolicyInput, CreateBranchInput, CreateMandateInput,
  AssignAgentInput, TransitionMandateInput, SetMandatePolicyInput, ResolveReconciliationCommand,
  StoreCall, Context, publishes_policy, creates_mandate, assigns_agent, creates_branch,
  transitions_mandate, sets_mandate_policy, gets_policy, lists_reconciliation_cases,
  resolves_reconciliation, lists_decisions, lists_shadow_evaluations, AdministrationError,
  is_service_account, is_admin, require_service_capability, require_admin, require_request_id,
  context_of,
}
use fuse_agent_control_plane.Administration.PolicyAdministration.Methods.{
  publish_policy, create_mandate, assign_agent, create_branch, transition_mandate,
  set_mandate_policy, get_policy, list_reconciliation_cases, resolve_reconciliation, list_decisions,
  list_shadow_evaluations,
}

-- A call of one of the methods.
pub data Request : Type 0 where
  publish : PublishPolicyInput → Request
  create : CreateMandateInput → Request
  assign : AssignAgentInput → Request
  branch : CreateBranchInput → Request
  move : TransitionMandateInput → Request
  set_policy : SetMandatePolicyInput → Request
  get : String → Number → Request
  list_cases : Request
  resolve : ResolveReconciliationCommand → Request
  list_decided list_shadowed : String → Request

unfoldable pub handle :
    String → AdministrativePrincipal → Request → Result AdministrationError StoreCall
handle now p (publish input) = publish_policy now p input
handle now p (create input) = create_mandate now p input
handle now p (assign input) = assign_agent now p input
handle now p (branch input) = create_branch now p input
handle now p (move input) = transition_mandate now p input
handle now p (set_policy input) = set_mandate_policy now p input
handle now p (get id version) = get_policy now p id version
handle now p list_cases = list_reconciliation_cases now p
handle now p (resolve input) = resolve_reconciliation now p input
handle now p (list_decided id) = list_decisions now p id
handle now p (list_shadowed id) = list_shadow_evaluations now p id

-- Specification: the request id of a call that changes the store.
abbrev pub change_id : Request → Option String
change_id (publish input) = some input.request_id
change_id (create input) = some input.request_id
change_id (assign input) = some input.request_id
change_id (branch input) = some input.request_id
change_id (move input) = some input.request_id
change_id (set_policy input) = some input.request_id
change_id (resolve input) = some input.request_id
change_id _ = none

abbrev pub needed_capability : Request → String
needed_capability (publish input) = "policies:write"
needed_capability (get id version) = "policies:read"
needed_capability list_cases = "policies:read"
needed_capability (list_decided id) = "policies:read"
needed_capability (list_shadowed id) = "policies:read"
needed_capability _ = "mandates:admin"

-- The arguments of a call that only reads.
abbrev pub is_well_formed : Request → Bool
is_well_formed (get id version) =
    not (is_blank id) && (is_integer version && leb_ℤ (pos 1) (to_int version))
is_well_formed (list_decided id) = not (is_blank id)
is_well_formed (list_shadowed id) = not (is_blank id)
is_well_formed _ = true

abbrev may_change : AdministrativePrincipal → Option String → Bool
may_change p none = true
may_change p (some request_id) = is_admin p.role && not (is_blank request_id)

abbrev pub is_permitted : AdministrativePrincipal → Request → Bool
is_permitted p r =
    is_service_account p.principal_type
    && includes (needed_capability r) p.capabilities
    && may_change p (change_id r)
    && is_well_formed r

-- A request reaches the policy store exactly when the principal is a service account with the
-- capability of the request, which is an admin and gives a request id if the request changes the
-- store, and the arguments of a request that only reads are well formed.
pub handle_permitted :
    (now : String) (p : AdministrativePrincipal) (r : Request)
    → is_ok (handle now p r) ≡ is_permitted p r
unfolding handle publish_policy create_mandate assign_agent create_branch transition_mandate
    set_mandate_policy get_policy list_reconciliation_cases resolve_reconciliation list_decisions
    list_shadow_evaluations require_admin require_service_capability require_request_id
handle_permitted now p (publish input) = ground arith
handle_permitted now p _ = ground arith

abbrev pub organization_of : StoreCall → String
organization_of (publishes_policy policy context) = policy.organization_id
organization_of (creates_mandate o state input context) = o
organization_of (assigns_agent o mandate_id agent_id context) = o
organization_of (creates_branch o input context) = o
organization_of (transitions_mandate o mandate_id state context) = o
organization_of (sets_mandate_policy o mandate_id policy_id version context) = o
organization_of (gets_policy o policy_id version) = o
organization_of (lists_reconciliation_cases o) = o
organization_of (resolves_reconciliation o input context) = o
organization_of (lists_decisions o mandate_id) = o
organization_of (lists_shadow_evaluations o mandate_id) = o

abbrev pub context_in : StoreCall → Option Context
context_in (publishes_policy policy context) = some context
context_in (creates_mandate o state input context) = some context
context_in (assigns_agent o mandate_id agent_id context) = some context
context_in (creates_branch o input context) = some context
context_in (transitions_mandate o mandate_id state context) = some context
context_in (sets_mandate_policy o mandate_id policy_id version context) = some context
context_in (resolves_reconciliation o input context) = some context
context_in _ = none

abbrev recorded : String → AdministrativePrincipal → Option String → Option Context
recorded now p none = none
recorded now p (some request_id) = some (context_of p request_id now)

-- Whatever a request names, the store is called for the principal's own organization, and a change
-- is recorded under the principal, the request id and the time.
pub handle_in_organization :
    (now : String) (p : AdministrativePrincipal) (r : Request) {call : StoreCall}
    → handle now p r ≡ ok call
    → (organization_of call ≡ p.organization_id) × (context_in call ≡ recorded now p (change_id r))
unfolding handle publish_policy create_mandate assign_agent create_branch transition_mandate
    set_mandate_policy get_policy list_reconciliation_cases resolve_reconciliation list_decisions
    list_shadow_evaluations
handle_in_organization now p (publish input) e = ground arith
handle_in_organization now p _ e = ground arith
