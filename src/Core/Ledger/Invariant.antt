-- ===== src/Core/Ledger/Invariant.antt =====
-- What every call of the ledger keeps.
use fuse_agent_control_plane.Base.{
  ℤ, subst, String, lookup, ok, ◌≡◌, refl, arith, ◌⊎◌, inl, inr, Option-cases,
}
use fuse_agent_control_plane.Core.Ledger.{
  Status, reserved, reconciled, released, Reservation, FuseLedger, reserve, reconcile,
  reclaim_available,
}
use fuse_agent_control_plane.Core.Ledger.Books.{Inv}
use fuse_agent_control_plane.Core.Ledger.Granting.{granted, granted-Inv}
use fuse_agent_control_plane.Core.Ledger.Closing.{closed, closed-Inv, reclaimed, reclaimed-Inv}

-- Granting or repeating a reservation keeps the books.
pub reserve-Inv :
    (l : FuseLedger) (c : String) (m : ℤ) (id : String) {l' : FuseLedger} {r : Reservation}
    → Inv l
    → reserve l c m id ≡ ok (l', r)
    → Inv l'
unfolding reserve
reserve-Inv l c m id {l'} {r} v e = elim (Option-cases (lookup id l.reservations)) [
  | inr (old, known) ↦ let same : l ≡ l' = ground arith in subst Inv same v
  | inl fresh ↦ elim (Option-cases (lookup c l.children)) [
    | inl unknown ↦ absurd (ground arith)
    | inr (child, found) ↦
        let same : granted l c m id child ≡ l' = ground arith in
        subst Inv same
          (granted-Inv l c m id child v fresh found (ground arith) (ground arith) (ground arith))
  ]
]

Status-cases : (s : Status) → (s ≡ reserved) ⊎ ((s ≡ reconciled) ⊎ (s ≡ released))
Status-cases reserved = inl refl
Status-cases reconciled = inr (inl refl)
Status-cases released = inr (inr refl)

-- Closing a reservation, or repeating that, keeps the books.
pub reconcile-Inv :
    (l : FuseLedger) (id : String) (actual : ℤ) {l' : FuseLedger} {r' : Reservation}
    → Inv l
    → reconcile l id actual ≡ ok (l', r')
    → Inv l'
unfolding reconcile
reconcile-Inv l id actual {l'} {r'} v e = elim (Option-cases (lookup id l.reservations)) [
  | inl unknown ↦ absurd (ground arith)
  | inr (r, known) ↦ elim (Status-cases r.status) [
    | inr past ↦ let same : l ≡ l' = ground arith in subst Inv same v
    | inl active ↦ elim (Option-cases (lookup r.child_id l.children)) [
      | inl lost ↦ absurd (ground arith)
      | inr (child, found) ↦
          let same : closed l id r actual child ≡ l' = ground arith in
          subst Inv same
            (closed-Inv l id r actual child v known active found (ground arith) (ground arith))
    ]
  ]
]

-- Taking an unused budget back keeps the books.
pub reclaim_available-Inv :
    (l : FuseLedger) (c : String) {l' : FuseLedger} {m : ℤ}
    → Inv l
    → reclaim_available l c ≡ ok (l', m)
    → Inv l'
unfolding reclaim_available
reclaim_available-Inv l c {l'} {m} v e = elim (Option-cases (lookup c l.children)) [
  | inl unknown ↦ absurd (ground arith)
  | inr (child, found) ↦
      let same : reclaimed l c child ≡ l' = ground arith in
      subst Inv same (reclaimed-Inv l c child v found)
]
