-- ===== src/Core/Ledger/Books.antt =====
-- The ledger's books: what its accounts and reservations must add up to.
use fuse_agent_control_plane.Base.{
  ℤ, pos, ◌+ℤ◌, ◌≤ℤ◌, ◌<ℤ◌, int_laws, parts_of_eq, none, some, String, ◌==◌, lookup, if◌then◌else◌,
  sum_by, AllValues, ◌≡◌, arith,
}
use fuse_agent_control_plane.Core.Ledger.{
  Account, reserved, reconciled, Reservation, FuseLedger, available, hold, settle,
}

pub available_parts :
    (a : Account) → available a +ℤ a.reserved_micros +ℤ a.settled_micros ≡ a.authorized_micros
unfolding available
available_parts a = omega int_laws

-- What a reservation still holds, and what it has spent.
abbrev pub held_amount : Reservation → ℤ
held_amount r = elim r.status [ reserved ↦ r.maximum_micros | _ ↦ pos 0 ]

abbrev pub spent_amount : Reservation → ℤ
spent_amount r = elim r.status [
  | reconciled ↦ elim r.actual_micros [ none ↦ pos 0 | some a ↦ a ]
  | _ ↦ pos 0
]

-- The same, for one child.
abbrev pub held_for : String → Reservation → ℤ
held_for c r = if r.child_id == c then held_amount r else pos 0

abbrev pub IsFunded : Account → Type 0
IsFunded a =
    (pos 0 ≤ℤ a.reserved_micros)
    × (pos 0 ≤ℤ a.settled_micros)
    × (a.reserved_micros +ℤ a.settled_micros ≤ℤ a.authorized_micros)

abbrev pub IsSound : Reservation → Type 0
IsSound r = pos 0 <ℤ r.maximum_micros

pub record Inv (l : FuseLedger) : Type 0 where
  pub root_funded : IsFunded l.root
  pub children_funded : AllValues IsFunded l.children
  pub sound : AllValues IsSound l.reservations
  pub reserved_sum : l.root.reserved_micros ≡ sum_by (λ a. a.reserved_micros) l.children
  pub settled_sum : l.root.settled_micros ≡ sum_by (λ a. a.settled_micros) l.children
  pub spent_sum : l.root.settled_micros ≡ sum_by spent_amount l.reservations
  pub held_sum :
      (c : String) (a : Account)
      → lookup c l.children ≡ some a
      → a.reserved_micros ≡ sum_by (held_for c) l.reservations

pub hold-IsFunded :
    (amount : ℤ) (a : Account)
    → pos 0 <ℤ amount
    → amount ≤ℤ available a
    → IsFunded a
    → IsFunded (hold amount a)
hold-IsFunded amount a p q h = omega (int_laws, parts_of_eq (available_parts a))

pub settle-IsFunded :
    (held actual : ℤ) (a : Account)
    → pos 0 ≤ℤ actual
    → actual ≤ℤ held
    → held ≤ℤ a.reserved_micros
    → IsFunded a
    → IsFunded (settle held actual a)
settle-IsFunded held actual a p q r h = omega int_laws

pub held_for_nonneg : (c : String) (r : Reservation) → IsSound r → pos 0 ≤ℤ held_for c r
held_for_nonneg c r h = ground arith
