-- ===== src/Core/Ledger/Granting.antt =====
-- `reserve`: a reservation that is granted keeps the books.
use fuse_agent_control_plane.Base.{
  ℤ, pos, ◌≤ℤ◌, ◌<ℤ◌, int_laws, parts_of_eq, +ℤ_zero, none, some, String, eq_iff, lookup, insert,
  lookup-insert, sum_by, sum_by-insert_new, sum_by-insert_old, AllValues-insert, AllValues-lookup,
  ◌≡◌, arith,
}
use fuse_agent_control_plane.Core.Ledger.{Account, FuseLedger, available, hold, new_reservation}
use fuse_agent_control_plane.Core.Ledger.Books.{
  spent_amount, held_for, IsFunded, IsSound, Inv, hold-IsFunded,
}

-- The ledger after a reservation that is granted.
abbrev pub granted : FuseLedger → String → ℤ → String → Account → FuseLedger
granted l c m id child = record l {
  children = insert c (hold m child) l.children;
  root = hold m l.root;
  reservations = insert id (new_reservation c m id) l.reservations;
}

module _ (l : FuseLedger) (c : String) (m : ℤ) (id : String) (child : Account) (v : Inv l)
    (fresh : lookup id l.reservations ≡ none) (known : lookup c l.children ≡ some child)
    (positive : pos 0 <ℤ m) (fits : m ≤ℤ available child) (fits_root : m ≤ℤ available l.root) where
  granted-held_sum :
      (d : String) (a : Account)
      → lookup d (insert c (hold m child) l.children) ≡ some a
      → a.reserved_micros ≡ sum_by (held_for d) (insert id (new_reservation c m id) l.reservations)
  granted-held_sum d a e = ground (
    arith,
    lookup-insert c d (hold m child) l.children,
    sum_by-insert_new (held_for d) id (new_reservation c m id) l.reservations fresh,
    v.held_sum d child,
    v.held_sum d a,
    eq_iff c d,
    +ℤ_zero (sum_by (held_for d) l.reservations),
  )

  pub granted-Inv : Inv (granted l c m id child)
  granted-Inv = record {
    root_funded = hold-IsFunded m l.root positive fits_root v.root_funded;
    children_funded =
        AllValues-insert IsFunded c (hold m child) l.children
          (hold-IsFunded m child positive fits
            (AllValues-lookup IsFunded c child l.children known v.children_funded))
          v.children_funded;
    sound = AllValues-insert IsSound id (new_reservation c m id) l.reservations positive v.sound;
    reserved_sum = omega (
      int_laws,
      parts_of_eq v.reserved_sum,
      parts_of_eq (
          sum_by-insert_old (λ (a : Account). a.reserved_micros) c child (hold m child) l.children
            known),
    );
    settled_sum = omega (
      int_laws,
      parts_of_eq v.settled_sum,
      parts_of_eq (
          sum_by-insert_old (λ (a : Account). a.settled_micros) c child (hold m child) l.children
            known),
    );
    spent_sum = omega (
      int_laws,
      parts_of_eq v.spent_sum,
      parts_of_eq (sum_by-insert_new spent_amount id (new_reservation c m id) l.reservations fresh),
    );
    held_sum = granted-held_sum;
  }
