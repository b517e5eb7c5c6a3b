-- ===== src/Persistence/PolicyStore/Delegation.antt =====
-- What a branch of src/persistence/policyStore.ts is given when it is created.
use fuse_agent_control_plane.Persistence.PolicyStore.{
  mandate_parent_branch_not_found, ControlMandate, MandateBranchRow, MandateBranch, Store, Platform,
}
use fuse_agent_control_plane.Persistence.PolicyStore.Tables.{
  is_branch, iso_of, rebuilt, verify_branch_integrity,
}
use fuse_agent_control_plane.Persistence.PolicyStore.Counters.{child_authority}
use fuse_agent_control_plane.Persistence.PolicyStore.MandateBranches.{
  CreateMandateBranchInput, sort, all_included, check_parent, canonical, branch_row, created_branch,
  create_branch, branch_from_row, get_branch,
}
use fuse_agent_control_plane.Persistence.PolicyStore.Passed.{
  create_branch-passed, insert_branch-passed,
}
use fuse_agent_control_plane.Base.{
  ◌+ℤ◌, String, ◌≡◌, refl, ap, subst, true, Option, none, some, List, ◌∷◌, arith, eq_refl, ◌≤ℤ◌,
  find, ok, or_throw, >>=-eq-ok,
}

check_parent-passed :
    (js : Platform) (s : Store) (input : CreateMandateBranchInput) (classes : List String)
    (m : ControlMandate) (parent : String)
    → check_parent js s input classes m (some parent) ≡ ok tt
    → (row : MandateBranchRow) × (find
          (is_branch input.organization_id input.mandate_id parent)
          s.branches
        ≡ some row)
      × (input.maximum_spend_atomic
            +ℤ child_authority s input.organization_id input.mandate_id parent
          ≤ℤ row.maximum_spend_atomic)
      × (all_included classes row.allowed_workload_classes ≡ true)
unfolding check_parent verify_branch_integrity
check_parent-passed js s input classes m parent checked =
    let (row, found, rest) =
      >>=-eq-ok
        (or_throw (find (is_branch input.organization_id input.mandate_id parent) s.branches)
          mandate_parent_branch_not_found)
        _ checked in
    (row, ground arith, ground (arith), ground (arith))

new_child-child_authority :
    (js : Platform) (s : Store) (input : CreateMandateBranchInput) (classes : List String)
    (m : ControlMandate) (parent : String)
    → input.parent_branch_id ≡ some parent
    → child_authority
        (record s { branches = branch_row js input classes m ∷ s.branches })
        input.organization_id
        input.mandate_id
        parent
      ≡ input.maximum_spend_atomic
        +ℤ child_authority s input.organization_id input.mandate_id parent
unfolding child_authority branch_row
new_child-child_authority js s input classes m parent under =
    rw (eq_refl input.organization_id, eq_refl input.mandate_id, under, eq_refl parent) refl

-- A branch that is created under a parent is given, together with the parent's other children, no
-- more than the parent's maximum, and only workload classes of the parent's.
pub create_branch-within_parent :
    (js : Platform) (s : Store) (input : CreateMandateBranchInput) (parent : String)
    {after : Store × MandateBranch}
    → input.parent_branch_id ≡ some parent
    → create_branch js s input ≡ ok after
    → (row : MandateBranchRow) × (find
          (is_branch input.organization_id input.mandate_id parent)
          s.branches
        ≡ some row)
      × (child_authority after.0 input.organization_id input.mandate_id parent
          ≤ℤ row.maximum_spend_atomic)
      × (all_included after.1.allowed_workload_classes row.allowed_workload_classes ≡ true)
unfolding created_branch canonical
create_branch-within_parent js s input parent {after} under done =
    let (m, p, checked, inserted, given) = create_branch-passed js s input done in
    let classes = sort input.allowed_workload_classes in
    let (row, found, fits, included) =
      check_parent-passed js s input classes m parent
        (subst (λ o. check_parent js s input classes m o ≡ ok tt) under checked) in
    let same = insert_branch-passed s _ inserted in
    let total = new_child-child_authority js s input classes m parent under in
    (
      row,
      found,
      subst
          (λ (x : Store).
            child_authority x input.organization_id input.mandate_id parent
            ≤ℤ row.maximum_spend_atomic)
          same (rw total fits),
      subst
          (λ (x : MandateBranch).
            all_included x.allowed_workload_classes row.allowed_workload_classes ≡ true)
          given included,
    )

iso_of-iso_of :
    (js : Platform) (date : Option String)
    → ((d : String) → js.to_iso (js.to_iso d) ≡ js.to_iso d)
    → iso_of js (iso_of js date) ≡ iso_of js date
iso_of-iso_of js none stable = refl
iso_of-iso_of js (some d) stable = ap some (stable d)

-- The object that is hashed for a new branch is made again from the row that is written for it.
rebuilt-branch_row :
    (js : Platform) (input : CreateMandateBranchInput) (classes : List String) (m : ControlMandate)
    → ((d : String) → js.to_iso (js.to_iso d) ≡ js.to_iso d)
    → rebuilt js (branch_row js input classes m) ≡ canonical js input classes m
unfolding rebuilt branch_row canonical
rebuilt-branch_row js input classes m stable =
    rw (iso_of-iso_of js input.expires_at stable, stable input.context.occurred_at) refl

branch_from_row-branch_row :
    (js : Platform) (input : CreateMandateBranchInput) (classes : List String) (m : ControlMandate)
    → ((d : String) → js.to_iso (js.to_iso d) ≡ js.to_iso d)
    → branch_from_row js (branch_row js input classes m) ≡ ok (created_branch js input classes m)
unfolding branch_from_row verify_branch_integrity branch_row created_branch canonical
branch_from_row-branch_row js input classes m stable =
    rw
      (
        rebuilt-branch_row js input classes m stable,
        eq_refl (js.delegation_hash (canonical js input classes m)),
        iso_of-iso_of js input.expires_at stable,
        stable input.context.occurred_at,
      )
      refl

new_branch-found :
    (js : Platform) (s : Store) (input : CreateMandateBranchInput) (classes : List String)
    (m : ControlMandate)
    → find
        (is_branch input.organization_id input.mandate_id input.id)
        (branch_row js input classes m ∷ s.branches)
      ≡ some (branch_row js input classes m)
unfolding branch_row
new_branch-found js s input classes m =
    rw (eq_refl input.organization_id, eq_refl input.mandate_id, eq_refl input.id) refl

-- If an ISO time is its own ISO form, a branch that has been created passes the check of its hash
-- when it is read, though the hashed object is made again from the row, and is read back as it was
-- returned.
pub create_branch-get_branch :
    (js : Platform) (s : Store) (input : CreateMandateBranchInput) {after : Store × MandateBranch}
    → ((d : String) → js.to_iso (js.to_iso d) ≡ js.to_iso d)
    → create_branch js s input ≡ ok after
    → get_branch js after.0 input.organization_id input.mandate_id input.id ≡ ok (some after.1)
unfolding get_branch
create_branch-get_branch js s input {after} stable done =
    let (m, p, _, inserted, given) = create_branch-passed js s input done in
    let classes = sort input.allowed_workload_classes in
    subst
      (λ (x : Store).
        get_branch js x input.organization_id input.mandate_id input.id ≡ ok (some after.1))
      (insert_branch-passed s _ inserted)
      (rw
        (
          new_branch-found js s input classes m,
          branch_from_row-branch_row js input classes m stable,
        )
        (ap (λ (b : MandateBranch). ok (some b)) given))
