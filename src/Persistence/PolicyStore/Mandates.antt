-- ===== src/Persistence/PolicyStore/Mandates.antt =====
-- The administration of policies and mandates in src/persistence/policyStore.ts: `publishPolicy`,
-- `createMandate`, `assignAgent`, `transitionMandateState`, `setMandatePolicy` and `getPolicy`.
-- A row keeps a time as the text that was given, and `toISOString` is applied when it is read.
use fuse_agent_control_plane.Persistence.PolicyStore.{
  StoreError, control_mandate_id_required, control_mandate_organization_required,
  control_mandate_name_required, control_mandate_asset_required, control_mandate_maximum_invalid,
  control_mandate_policy_version_invalid, control_mandate_expiry_invalid,
  control_mandate_initial_state_invalid, control_mandate_policy_required, control_mandate_not_found,
  control_mandate_transition_invalid, control_mandate_policy_change_requires_pause,
  unique_violation, foreign_key_violation, PolicyMutationContext, ControlMandate, Store, Platform,
}
use fuse_agent_control_plane.Persistence.PolicyStore.Tables.{
  update, is_mandate, is_policy, is_assigned, is_agent, in_policy, validate_context, set_state,
}
use fuse_agent_control_plane.Persistence.PolicyStore.Admission.{policy_of}
use fuse_agent_control_plane.Base.{
  is_blank, String, Bool, true, false, ◌&&◌, ◌||◌, not, Option, none, some, ◌∷◌, is_some, ℤ, pos,
  Number, leb_ℤ, is_integer, to_int, any, find, Result, ok, throw_if, or_throw, ◌>>=◌, ◌>>◌,
  includes,
}
use fuse_agent_control_plane.Domain.Policy.{PolicyVersion}
use fuse_agent_control_plane.Domain.Policy.Validate.{validate_policy}
use fuse_agent_control_plane.Domain.Lifecycles.{
  MandateState, draft, paused, listed, MandateState-discrete, mandate_transitions,
}

pub record CreateControlMandateInput : Type 0 where
  pub context : PolicyMutationContext
  pub id : String
  pub organization_id : String
  pub name : String
  pub asset_id : String
  pub maximum_spend_atomic : ℤ
  pub state : MandateState
  pub policy_id : String
  pub policy_version : Number
  pub expires_at : Option String

unfoldable pub publish_policy :
    Platform → Store → PolicyVersion → PolicyMutationContext → Result StoreError Store
unfolding validate_context
publish_policy js s p context =
    in_policy (validate_policy js.date_parse p)
    >> validate_context js context
    >> throw_if (any (is_policy p.organization_id p.id p.version) s.policies) unique_violation
    >> throw_if (not (includes p.organization_id s.organizations)) foreign_key_violation
    >> ok (record s { policies = p ∷ s.policies })

abbrev is_date : Platform → Option String → Bool
is_date js none = true
is_date js (some date) = is_some (js.date_parse date)

abbrev is_version : Number → Bool
is_version n = is_integer n && leb_ℤ (pos 1) (to_int n)

abbrev is_draft : MandateState → Bool
is_draft draft = true
is_draft _ = false

unfoldable pub validate_mandate :
    Platform → CreateControlMandateInput → Result StoreError (Unit {0})
unfolding validate_context
validate_mandate js input =
    validate_context js input.context
    >> throw_if (is_blank input.id) control_mandate_id_required
    >> throw_if (is_blank input.organization_id) control_mandate_organization_required
    >> throw_if (is_blank input.name) control_mandate_name_required
    >> throw_if (is_blank input.asset_id) control_mandate_asset_required
    >> throw_if (leb_ℤ input.maximum_spend_atomic (pos 0)) control_mandate_maximum_invalid
    >> throw_if (not (is_version input.policy_version)) control_mandate_policy_version_invalid
    >> throw_if (not (is_date js input.expires_at)) control_mandate_expiry_invalid
    >> throw_if (not (is_draft input.state)) control_mandate_initial_state_invalid

unfoldable pub mandate_row : CreateControlMandateInput → ControlMandate
mandate_row input = record {
  id = input.id;
  organization_id = input.organization_id;
  name = input.name;
  asset_id = input.asset_id;
  maximum_spend_atomic = input.maximum_spend_atomic;
  state = input.state;
  policy_id = input.policy_id;
  policy_version = input.policy_version;
  expires_at = input.expires_at;
  created_at = input.context.occurred_at;
}

abbrev pub has_policy : Store → String → String → Number → Bool
has_policy s org id version = any (is_policy org id version) s.policies

unfoldable pub create_mandate :
    Platform → Store → CreateControlMandateInput → Result StoreError Store
unfolding validate_mandate mandate_row
create_mandate js s input =
    validate_mandate js input
    >> throw_if (is_some (find (is_mandate input.organization_id input.id) s.mandates))
        unique_violation
    >> throw_if (not (has_policy s input.organization_id input.policy_id input.policy_version))
        foreign_key_violation
    >> ok (record s { mandates = mandate_row input ∷ s.mandates })

unfoldable pub assign_agent :
    Platform → Store → String → String → String → PolicyMutationContext → Result StoreError Store
unfolding validate_context
assign_agent js s org mandate agent context =
    validate_context js context
    >> throw_if (is_assigned s org mandate agent) unique_violation
    >> throw_if (not (any (is_mandate org mandate) s.mandates) || not (is_agent s org agent))
        foreign_key_violation
    >> ok (record s {
      assignments =
          record { organization_id = org; mandate_id = mandate; agent_id = agent } ∷ s.assignments;
    })

abbrev allowed_transition : MandateState → MandateState → Bool
allowed_transition source target = listed MandateState-discrete target (mandate_transitions source)

unfoldable pub transition_mandate_state :
    Platform
    → Store
    → String
    → String
    → MandateState
    → PolicyMutationContext
    → Result StoreError Store
unfolding validate_context set_state mandate_transitions
transition_mandate_state js s org mandate target context =
    validate_context js context
    >> throw_if (is_blank org) control_mandate_organization_required
    >> throw_if (is_blank mandate) control_mandate_id_required
    >> (or_throw (find (is_mandate org mandate) s.mandates) control_mandate_not_found >>= λ m.
        throw_if (not (allowed_transition m.state target))
          (control_mandate_transition_invalid m.state target)
        >> ok
            (record s { mandates = update (is_mandate org mandate) (set_state target) s.mandates }))

-- A mandate can be changed before it is active or while it is paused.
abbrev pub is_changeable : MandateState → Bool
is_changeable draft = true
is_changeable paused = true
is_changeable _ = false

unfoldable pub set_policy : String → Number → ControlMandate → ControlMandate
set_policy id version m = record m { policy_id = id; policy_version = version }

unfoldable pub set_mandate_policy :
    Platform
    → Store
    → String
    → String
    → String
    → Number
    → PolicyMutationContext
    → Result StoreError Store
unfolding validate_context set_policy
set_mandate_policy js s org mandate policy version context =
    validate_context js context
    >> throw_if (is_blank org) control_mandate_organization_required
    >> throw_if (is_blank mandate) control_mandate_id_required
    >> throw_if (is_blank policy) control_mandate_policy_required
    >> throw_if (not (is_version version)) control_mandate_policy_version_invalid
    >> (or_throw (find (is_mandate org mandate) s.mandates) control_mandate_not_found >>= λ m.
        throw_if (not (is_changeable m.state)) control_mandate_policy_change_requires_pause
        >> throw_if (not (has_policy s org policy version)) foreign_key_violation
        >> ok (record s {
          mandates = update (is_mandate org mandate) (set_policy policy version) s.mandates;
        }))

-- `policyFromRow` checks the policy again as it is read.
unfoldable pub policy_from_row : Platform → PolicyVersion → Result StoreError PolicyVersion
policy_from_row js p =
    in_policy (validate_policy js.date_parse (policy_of js p)) >> ok (policy_of js p)

unfoldable pub get_policy :
    Platform → Store → String → String → Number → Result StoreError (Option PolicyVersion)
unfolding policy_from_row
get_policy js s org id version = elim (find (is_policy org id version) s.policies) [
  | none ↦ ok none
  | some p ↦ policy_from_row js p >>= λ policy. ok (some policy)
]
