-- ===== src/Persistence/PolicyStore/MandateBranches.antt =====
-- `createBranch` and `getBranch` of src/persistence/policyStore.ts. A row keeps a time as the ISO
-- text that is written.
use Prim.Native.Char.{code}
use fuse_agent_control_plane.Persistence.PolicyStore.{
  StoreError, mandate_branch_id_required, mandate_branch_organization_required,
  mandate_branch_mandate_required, mandate_branch_agent_required,
  mandate_branch_workload_class_required, mandate_branch_workload_class_duplicate,
  mandate_branch_budget_invalid, mandate_branch_expiry_invalid,
  mandate_branch_change_requires_pause, mandate_branch_budget_exceeds_mandate,
  mandate_branch_expiry_exceeds_mandate, mandate_branch_workload_class_not_in_policy,
  mandate_branch_agent_not_assigned, mandate_parent_branch_not_found,
  mandate_parent_branch_policy_mismatch, mandate_branch_parent_authority_exceeded,
  mandate_branch_parent_budget_exceeded, mandate_branch_parent_expiry_exceeded, unique_violation,
  PolicyMutationContext, ControlMandate, Canonical, MandateBranchRow, MandateBranch, Store,
  Platform,
}
use fuse_agent_control_plane.Persistence.PolicyStore.Tables.{
  same_number, is_branch, is_assigned, mandate_policy, iso_of, validate_context,
  verify_branch_integrity,
}
use fuse_agent_control_plane.Persistence.PolicyStore.Counters.{child_authority}
use fuse_agent_control_plane.Persistence.PolicyStore.Mandates.{is_changeable}
use fuse_agent_control_plane.Base.{
  ◌+ℤ◌, is_blank, ℕ, ◌+◌, String, Bool, true, false, ◌&&◌, ◌||◌, not, Option, none, some, List, [],
  ◌∷◌, map, ◌==◌, ltb, leb, eqb, if◌then◌else◌, is_some, ℤ, pos, ltb_ℤ, leb_ℤ, any, all, find,
  Result, ok, throw_if, or_throw, ◌>>=◌, ◌>>◌, includes, has_duplicate,
}
use fuse_agent_control_plane.Domain.Policy.{PolicyVersion}
use fuse_agent_control_plane.Domain.Policy.Evaluate.{date_le}

pub record CreateMandateBranchInput : Type 0 where
  pub context : PolicyMutationContext
  pub id : String
  pub organization_id : String
  pub mandate_id : String
  pub parent_branch_id : Option String
  pub agent_id : String
  pub allowed_workload_classes : List String
  pub maximum_spend_atomic : ℤ
  pub expires_at : Option String

-- The order of UTF-16 code units: a surrogate pair comes before the code points from U+E000 on.
abbrev unit_rank : ℕ → ℕ
unit_rank c = if leb 0xe000 c && leb c 0xffff then c + 0x110000 else c

-- Whether a text comes before another or is the same, for `sort()`.
text_le : String → String → Bool
text_le String.[] t = true
text_le (String.◌∷◌ c s) String.[] = false
text_le (String.◌∷◌ c s) (String.◌∷◌ d t) =
    ltb (unit_rank (code c)) (unit_rank (code d)) || eqb (code c) (code d) && text_le s t

insert_text : String → List String → List String
unfolding text_le
insert_text s [] = s ∷ []
insert_text s (t ∷ ts) = let rest = insert_text s ts in if text_le s t then s ∷ t ∷ ts else t ∷ rest

unfoldable pub sort : List String → List String
unfolding insert_text
sort [] = []
sort (s ∷ ss) = insert_text s (sort ss)

abbrev is_empty : List String → Bool
is_empty [] = true
is_empty (s ∷ ss) = false

-- `Date.parse(s) > Date.parse(t)`; a comparison with NaN is false.
abbrev date_after : Platform → String → String → Bool
date_after js s t = elim (js.date_parse s) [
  | none ↦ false
  | some u ↦ elim (js.date_parse t) [ none ↦ false | some v ↦ ltb_ℤ v u ]
]

abbrev bad_expiry : Platform → Option String → String → Bool
bad_expiry js none occurred_at = false
bad_expiry js (some date) occurred_at =
    not (is_some (js.date_parse date)) || date_le (js.date_parse date) (js.date_parse occurred_at)

unfoldable pub validate_branch :
    Platform → CreateMandateBranchInput → List String → Result StoreError (Unit {0})
unfolding validate_context
validate_branch js input classes =
    validate_context js input.context
    >> throw_if (is_blank input.id) mandate_branch_id_required
    >> throw_if (is_blank input.organization_id) mandate_branch_organization_required
    >> throw_if (is_blank input.mandate_id) mandate_branch_mandate_required
    >> throw_if (is_blank input.agent_id) mandate_branch_agent_required
    >> throw_if (is_empty classes || any is_blank classes) mandate_branch_workload_class_required
    >> throw_if (has_duplicate classes) mandate_branch_workload_class_duplicate
    >> throw_if (leb_ℤ input.maximum_spend_atomic (pos 0)) mandate_branch_budget_invalid
    >> throw_if (bad_expiry js input.expires_at input.context.occurred_at)
        mandate_branch_expiry_invalid

abbrev later_expiry : Platform → Option String → Option String → Bool
later_expiry js none bound = false
later_expiry js (some date) none = false
later_expiry js (some date) (some bound) = date_after js date bound

abbrev pub all_included : List String → List String → Bool
all_included xs ys = all (λ x. includes x ys) xs

unfoldable pub check_mandate :
    Platform
    → Store
    → CreateMandateBranchInput
    → List String
    → ControlMandate
    → PolicyVersion
    → Result StoreError (Unit {0})
check_mandate js s input classes m p =
    throw_if (not (is_changeable m.state)) mandate_branch_change_requires_pause
    >> throw_if (ltb_ℤ m.maximum_spend_atomic input.maximum_spend_atomic)
        mandate_branch_budget_exceeds_mandate
    >> throw_if (later_expiry js input.expires_at m.expires_at)
        mandate_branch_expiry_exceeds_mandate
    >> throw_if (not (all_included classes (map (λ c. c.id) p.workload_classes)))
        mandate_branch_workload_class_not_in_policy
    >> throw_if (not (is_assigned s input.organization_id input.mandate_id input.agent_id))
        mandate_branch_agent_not_assigned

-- A branch under a parent that expires must expire too, and not later.
abbrev outlives : Platform → Option String → Option String → Bool
outlives js expiry none = false
outlives js none (some bound) = true
outlives js (some date) (some bound) = date_after js date bound

unfoldable pub check_parent :
    Platform
    → Store
    → CreateMandateBranchInput
    → List String
    → ControlMandate
    → Option String
    → Result StoreError (Unit {0})
unfolding verify_branch_integrity child_authority
check_parent js s input classes m none = ok tt
check_parent js s input classes m (some parent) =
    or_throw (find (is_branch input.organization_id input.mandate_id parent) s.branches)
      mandate_parent_branch_not_found
    >>= λ row.
        verify_branch_integrity js row
        >> throw_if
            (not (row.policy_id == m.policy_id)
              || not (same_number row.policy_version m.policy_version))
            mandate_parent_branch_policy_mismatch
        >> throw_if (not (all_included classes row.allowed_workload_classes))
            mandate_branch_parent_authority_exceeded
        >> throw_if
            (ltb_ℤ row.maximum_spend_atomic (
              input.maximum_spend_atomic
              +ℤ child_authority s input.organization_id input.mandate_id parent))
            mandate_branch_parent_budget_exceeded
        >> throw_if (outlives js input.expires_at row.expires_at)
            mandate_branch_parent_expiry_exceeded

unfoldable pub canonical :
    Platform → CreateMandateBranchInput → List String → ControlMandate → Canonical
canonical js input classes m = record {
  authority_source = "fuse_control_plane";
  organization_id = input.organization_id;
  mandate_id = input.mandate_id;
  branch_id = input.id;
  parent_branch_id = input.parent_branch_id;
  agent_id = input.agent_id;
  policy_id = m.policy_id;
  policy_version = m.policy_version;
  allowed_workload_classes = classes;
  maximum_spend_atomic = input.maximum_spend_atomic;
  expires_at = iso_of js input.expires_at;
  created_at = js.to_iso input.context.occurred_at;
  created_by = input.context.actor_id;
}

-- The values of the `INSERT`.
unfoldable pub branch_row :
    Platform → CreateMandateBranchInput → List String → ControlMandate → MandateBranchRow
unfolding canonical
branch_row js input classes m = record {
  organization_id = input.organization_id;
  mandate_id = input.mandate_id;
  branch_id = input.id;
  parent_branch_id = input.parent_branch_id;
  agent_id = input.agent_id;
  policy_id = m.policy_id;
  policy_version = m.policy_version;
  allowed_workload_classes = classes;
  maximum_spend_atomic = input.maximum_spend_atomic;
  expires_at = iso_of js input.expires_at;
  delegation_hash = js.delegation_hash (canonical js input classes m);
  authority_source = "fuse_control_plane";
  created_at = js.to_iso input.context.occurred_at;
  created_by = input.context.actor_id;
}

-- The branch that `createBranch` returns.
unfoldable pub created_branch :
    Platform → CreateMandateBranchInput → List String → ControlMandate → MandateBranch
unfolding canonical
created_branch js input classes m =
    let c = canonical js input classes m in
    record {
      id = c.branch_id;
      organization_id = c.organization_id;
      mandate_id = c.mandate_id;
      parent_branch_id = c.parent_branch_id;
      agent_id = c.agent_id;
      policy_id = c.policy_id;
      policy_version = c.policy_version;
      allowed_workload_classes = c.allowed_workload_classes;
      maximum_spend_atomic = input.maximum_spend_atomic;
      expires_at = iso_of js input.expires_at;
      delegation_hash = js.delegation_hash c;
      authority_source = c.authority_source;
      created_at = c.created_at;
      created_by = c.created_by;
    }

-- The keys of `mandate_branches`: the id in its mandate, and the hash in its organization.
abbrev pub branch_clashes : MandateBranchRow → MandateBranchRow → Bool
branch_clashes b other =
    is_branch b.organization_id b.mandate_id b.branch_id other
    || other.organization_id == b.organization_id && other.delegation_hash == b.delegation_hash

unfoldable pub insert_branch : Store → MandateBranchRow → Result StoreError Store
insert_branch s b =
    throw_if (any (branch_clashes b) s.branches) unique_violation
    >> ok (record s { branches = b ∷ s.branches })

unfoldable pub create_branch :
    Platform → Store → CreateMandateBranchInput → Result StoreError (Store × MandateBranch)
unfolding sort validate_branch check_mandate check_parent branch_row created_branch insert_branch
create_branch js s input =
    let classes = sort input.allowed_workload_classes in
    validate_branch js input classes
    >> (mandate_policy s input.organization_id input.mandate_id >>= λ joined.
        check_mandate js s input classes joined.0 joined.1
        >> check_parent js s input classes joined.0 input.parent_branch_id
        >> (insert_branch s (branch_row js input classes joined.0) >>= λ after.
            ok (after, created_branch js input classes joined.0)))

unfoldable pub branch_from_row : Platform → MandateBranchRow → Result StoreError MandateBranch
unfolding verify_branch_integrity
branch_from_row js row =
    verify_branch_integrity js row
    >> ok (record {
      id = row.branch_id;
      organization_id = row.organization_id;
      mandate_id = row.mandate_id;
      parent_branch_id = row.parent_branch_id;
      agent_id = row.agent_id;
      policy_id = row.policy_id;
      policy_version = row.policy_version;
      allowed_workload_classes = row.allowed_workload_classes;
      maximum_spend_atomic = row.maximum_spend_atomic;
      expires_at = iso_of js row.expires_at;
      delegation_hash = row.delegation_hash;
      authority_source = row.authority_source;
      created_at = js.to_iso row.created_at;
      created_by = row.created_by;
    })

abbrev branch_found : Platform → Option MandateBranchRow → Result StoreError (Option MandateBranch)
branch_found js none = ok none
branch_found js (some row) = branch_from_row js row >>= λ branch. ok (some branch)

unfoldable pub get_branch :
    Platform → Store → String → String → String → Result StoreError (Option MandateBranch)
unfolding branch_from_row
get_branch js s org mandate branch =
    branch_found js (find (is_branch org mandate branch) s.branches)
