-- ===== src/Core/Ledger/Closing.antt =====
-- `reconcile` and `reclaim_available`: a closed reservation and a drained child keep the books.
use fuse_agent_control_plane.Base.{
  ℤ, pos, ◌-ℤ◌, ◌≤ℤ◌, int_laws, parts_of_eq, +ℤ_zero, -ℤ_of_add, some, String, eq_iff, lookup,
  insert, lookup-insert, sum_by, sum_by-insert_old, AllValues-insert, AllValues-lookup,
  AllValues-mono, eq_refl, le-sum_by, ◌≡◌, arith,
}
use fuse_agent_control_plane.Core.Ledger.{
  Account, reserved, reconciled, Reservation, FuseLedger, available, settle,
}
use fuse_agent_control_plane.Core.Ledger.Books.{
  available_parts, spent_amount, held_for, IsFunded, IsSound, Inv, settle-IsFunded, held_for_nonneg,
}

-- The ledger after a reservation is closed at its actual cost.
abbrev pub closed : FuseLedger → String → Reservation → ℤ → Account → FuseLedger
closed l id r actual child = record l {
  children = insert r.child_id (settle r.maximum_micros actual child) l.children;
  root = settle r.maximum_micros actual l.root;
  reservations =
      insert id (record r { actual_micros = some actual; status = reconciled }) l.reservations;
}

module _ (l : FuseLedger) (id : String) (r : Reservation) (actual : ℤ) (child : Account) (v : Inv l)
    (known : lookup id l.reservations ≡ some r) (active : r.status ≡ reserved)
    (found : lookup r.child_id l.children ≡ some child) (nonneg : pos 0 ≤ℤ actual)
    (fits : actual ≤ℤ r.maximum_micros) where
  abbrev pub done : Reservation
  done = record r { actual_micros = some actual; status = reconciled }

  held-le-child : r.maximum_micros ≤ℤ child.reserved_micros
  held-le-child =
      let total = v.held_sum r.child_id child found in
      let part =
        le-sum_by (held_for r.child_id) id r l.reservations
          (AllValues-mono IsSound _ l.reservations (held_for_nonneg r.child_id) v.sound) known in
      ground (arith, total, part, eq_refl r.child_id)

  held-le-root : r.maximum_micros ≤ℤ l.root.reserved_micros
  held-le-root = omega (
    int_laws,
    parts_of_eq v.reserved_sum,
    held-le-child,
    le-sum_by (λ (a : Account). a.reserved_micros) r.child_id child l.children
        (AllValues-mono IsFunded _ l.children (λ a h. h.0) v.children_funded) found,
  )

  closed-held_sum :
      (d : String) (a : Account)
      → lookup d (insert r.child_id (settle r.maximum_micros actual child) l.children) ≡ some a
      → a.reserved_micros ≡ sum_by (held_for d) (insert id done l.reservations)
  closed-held_sum d a e =
      let books = sum_by-insert_old (held_for d) id r done l.reservations known in
      ground (
        arith,
        lookup-insert r.child_id d (settle r.maximum_micros actual child) l.children,
        books,
        v.held_sum d child,
        v.held_sum d a,
        eq_iff r.child_id d,
        -ℤ_of_add child.reserved_micros r.maximum_micros
            (sum_by (held_for d) (insert id done l.reservations)),
        +ℤ_zero (sum_by (held_for d) l.reservations),
        +ℤ_zero (sum_by (held_for d) (insert id done l.reservations)),
      )

  pub closed-Inv : Inv (closed l id r actual child)
  closed-Inv = record {
    root_funded =
        settle-IsFunded r.maximum_micros actual l.root nonneg fits held-le-root v.root_funded;
    children_funded =
        AllValues-insert IsFunded r.child_id (settle r.maximum_micros actual child) l.children
          (settle-IsFunded r.maximum_micros actual child nonneg fits held-le-child
            (AllValues-lookup IsFunded r.child_id child l.children found v.children_funded))
          v.children_funded;
    sound =
        AllValues-insert IsSound id done l.reservations
          (AllValues-lookup IsSound id r l.reservations known v.sound) v.sound;
    reserved_sum = omega (
      int_laws,
      parts_of_eq v.reserved_sum,
      parts_of_eq (
          sum_by-insert_old (λ (a : Account). a.reserved_micros) r.child_id child
            (settle r.maximum_micros actual child) l.children found),
    );
    settled_sum = omega (
      int_laws,
      parts_of_eq v.settled_sum,
      parts_of_eq (
          sum_by-insert_old (λ (a : Account). a.settled_micros) r.child_id child
            (settle r.maximum_micros actual child) l.children found),
    );
    spent_sum = ground (
      arith,
      v.spent_sum,
      sum_by-insert_old spent_amount id r done l.reservations known,
      +ℤ_zero (sum_by spent_amount (insert id done l.reservations)),
    );
    held_sum = closed-held_sum;
  }

-- The account whose unused budget is taken back.
abbrev pub drained : Account → Account
drained a = record a { authorized_micros = a.authorized_micros -ℤ available a }

abbrev pub reclaimed : FuseLedger → String → Account → FuseLedger
reclaimed l c child = record l { children = insert c (drained child) l.children }

drained-IsFunded : (a : Account) → IsFunded a → IsFunded (drained a)
drained-IsFunded a h = omega (int_laws, parts_of_eq (available_parts a))

module _ (l : FuseLedger) (c : String) (child : Account) (v : Inv l)
    (found : lookup c l.children ≡ some child) where
  reclaimed-held_sum :
      (d : String) (a : Account)
      → lookup d (insert c (drained child) l.children) ≡ some a
      → a.reserved_micros ≡ sum_by (held_for d) l.reservations
  reclaimed-held_sum d a e = ground (
    arith,
    lookup-insert c d (drained child) l.children,
    v.held_sum d child,
    v.held_sum d a,
    eq_iff c d,
  )

  pub reclaimed-Inv : Inv (reclaimed l c child)
  reclaimed-Inv = record {
    root_funded = v.root_funded;
    children_funded =
        AllValues-insert IsFunded c (drained child) l.children
          (drained-IsFunded child
            (AllValues-lookup IsFunded c child l.children found v.children_funded))
          v.children_funded;
    sound = v.sound;
    reserved_sum = omega (
      int_laws,
      parts_of_eq v.reserved_sum,
      parts_of_eq (
          sum_by-insert_old (λ (a : Account). a.reserved_micros) c child (drained child) l.children
            found),
    );
    settled_sum = omega (
      int_laws,
      parts_of_eq v.settled_sum,
      parts_of_eq (
          sum_by-insert_old (λ (a : Account). a.settled_micros) c child (drained child) l.children
            found),
    );
    spent_sum = v.spent_sum;
    held_sum = reclaimed-held_sum;
  }
