-- ===== src/Core/Ledger.antt =====
-- src/core/ledger.ts, the class FuseLedger: a mandate's root budget, its children's budgets and the
-- reservations made against both. A method that throws leaves the ledger as it was.
-- Keys that every JavaScript object inherits (`constructor` and the like) are taken to be absent.
pub mod Books
mod Granting
mod Closing
pub mod Invariant
pub mod Runs
use fuse_agent_control_plane.Base.{
  ℤ, pos, ◌+ℤ◌, ◌-ℤ◌, ltb_ℤ, leb_ℤ, eqb_ℤ, Bool, true, false, ◌&&◌, ◌||◌, not, Option, none, some,
  List, [], ◌∷◌, map, String, ◌==◌, Dict, lookup, insert, Result, ok, err, ◌>>=◌, ◌>>◌, throw_if,
  or_throw, if◌then◌else◌, sum_by,
}

pub data LedgerError : Type 0 where
  invalid_root_budget child_allocations_exceed_root idempotency_conflict : LedgerError
  invalid_reservation unknown_child child_budget_exceeded root_budget_exceeded : LedgerError
  reservation_not_found reservation_not_active actual_cost_exceeds_reservation : LedgerError
  type_error : LedgerError

pub record LedgerConfig : Type 0 where
  pub mandate_id : String
  pub maximum_spend_micros : ℤ
  pub children : Dict ℤ

pub record Account : Type 0 where
  pub authorized_micros : ℤ
  pub reserved_micros : ℤ
  pub settled_micros : ℤ

pub data Status : Type 0 where
  reserved reconciled released : Status

pub record Reservation : Type 0 where
  pub request_id : String
  pub child_id : String
  pub maximum_micros : ℤ
  pub actual_micros : Option ℤ
  pub status : Status

unfoldable pub available : Account → ℤ
available a = a.authorized_micros -ℤ a.reserved_micros -ℤ a.settled_micros

pub record LedgerState : Type 0 where
  pub mandate_id : String
  pub root : Account
  pub children : Dict Account
  pub reservations : List Reservation

pub record FuseLedger : Type 0 where
  pub mandate_id : String
  pub root : Account
  pub children : Dict Account
  pub reservations : Dict Reservation

abbrev pub new_account : ℤ → Account
new_account amount = record {
  authorized_micros = amount;
  reserved_micros = pos 0;
  settled_micros = pos 0;
}

abbrev pub map_values : {A B : Type 0} → (A → B) → Dict A → Dict B
map_values f [] = []
map_values f ((k, v) ∷ m) = (k, f v) ∷ map_values f m

unfoldable pub new_ledger : LedgerConfig → Result LedgerError FuseLedger
new_ledger c =
    throw_if (leb_ℤ c.maximum_spend_micros (pos 0)) invalid_root_budget
    >> throw_if (ltb_ℤ c.maximum_spend_micros (sum_by (λ v. v) c.children))
        child_allocations_exceed_root
    >> ok (record {
      mandate_id = c.mandate_id;
      root = new_account c.maximum_spend_micros;
      children = map_values new_account c.children;
      reservations = [];
    })

-- The loop that fills the map of reservations.
unfoldable pub set_all : List Reservation → Dict Reservation → Dict Reservation
set_all [] m = m
set_all (r ∷ rs) m = set_all rs (insert r.request_id r m)

-- `Object.assign` copies every field of an account, so the accounts are those of the state.
unfoldable pub from_state : LedgerState → Result LedgerError FuseLedger
unfolding new_ledger set_all
from_state s =
    new_ledger (record {
      mandate_id = s.mandate_id;
      maximum_spend_micros = s.root.authorized_micros;
      children = map_values (λ a. a.authorized_micros) s.children;
    })
    >>= λ ledger. ok (record ledger {
      root = s.root;
      children = s.children;
      reservations = set_all s.reservations [];
    })

abbrev pub values : {A : Type 0} → Dict A → List A
values [] = []
values ((k, v) ∷ m) = v ∷ values m

unfoldable pub export_state : FuseLedger → LedgerState
export_state l = record {
  mandate_id = l.mandate_id;
  root = l.root;
  children = l.children;
  reservations = values l.reservations;
}

abbrev hold : ℤ → Account → Account
hold amount a = record a { reserved_micros = a.reserved_micros +ℤ amount }

-- An amount held is let go, and what was spent of it is settled.
abbrev settle : ℤ → ℤ → Account → Account
settle held actual a = record a {
  reserved_micros = a.reserved_micros -ℤ held;
  settled_micros = a.settled_micros +ℤ actual;
}

abbrev new_reservation : String → ℤ → String → Reservation
new_reservation child_id maximum request_id = record {
  request_id = request_id;
  child_id = child_id;
  maximum_micros = maximum;
  actual_micros = none;
  status = reserved;
}

-- A second call with a known request id.
repeat_reserve :
    FuseLedger → Reservation → String → ℤ → Result LedgerError (FuseLedger × Reservation)
repeat_reserve l existing child_id maximum =
    throw_if (not (existing.child_id == child_id) || not (eqb_ℤ existing.maximum_micros maximum))
      idempotency_conflict
    >> ok (l, existing)

first_reserve : FuseLedger → String → ℤ → String → Result LedgerError (FuseLedger × Reservation)
first_reserve l child_id maximum request_id =
    throw_if (leb_ℤ maximum (pos 0)) invalid_reservation
    >> (or_throw (lookup child_id l.children) unknown_child >>= λ child.
        throw_if (ltb_ℤ (available child) maximum) child_budget_exceeded
        >> throw_if (ltb_ℤ (available l.root) maximum) root_budget_exceeded
        >> ok (
          record l {
            children = insert child_id (hold maximum child) l.children;
            root = hold maximum l.root;
            reservations =
                insert request_id (new_reservation child_id maximum request_id) l.reservations;
          },
          new_reservation child_id maximum request_id,
        ))

unfoldable pub reserve :
    FuseLedger → String → ℤ → String → Result LedgerError (FuseLedger × Reservation)
unfolding repeat_reserve first_reserve
reserve l child_id maximum request_id = elim (lookup request_id l.reservations) [
  | some existing ↦ repeat_reserve l existing child_id maximum
  | none ↦ first_reserve l child_id maximum request_id
]

abbrev same_actual : Option ℤ → ℤ → Bool
same_actual none b = false
same_actual (some a) b = eqb_ℤ a b

-- A reservation whose child is not there makes the code fail on an undefined value.
first_reconcile :
    FuseLedger → String → Reservation → ℤ → Result LedgerError (FuseLedger × Reservation)
first_reconcile l request_id r actual =
    throw_if (ltb_ℤ actual (pos 0) || ltb_ℤ r.maximum_micros actual) actual_cost_exceeds_reservation
    >> (or_throw (lookup r.child_id l.children) type_error >>= λ child.
        let done = record r { actual_micros = some actual; status = reconciled } in
        ok (
          record l {
            children = insert r.child_id (settle r.maximum_micros actual child) l.children;
            root = settle r.maximum_micros actual l.root;
            reservations = insert request_id done l.reservations;
          },
          done,
        ))

reconcile_by_status :
    Status → FuseLedger → String → Reservation → ℤ → Result LedgerError (FuseLedger × Reservation)
unfolding first_reconcile
reconcile_by_status reconciled l request_id r actual =
    throw_if (not (same_actual r.actual_micros actual)) idempotency_conflict >> ok (l, r)
reconcile_by_status released l request_id r actual = err reservation_not_active
reconcile_by_status reserved l request_id r actual = first_reconcile l request_id r actual

unfoldable pub reconcile : FuseLedger → String → ℤ → Result LedgerError (FuseLedger × Reservation)
unfolding reconcile_by_status
reconcile l request_id actual = elim (lookup request_id l.reservations) [
  | none ↦ err reservation_not_found
  | some r ↦ reconcile_by_status r.status l request_id r actual
]

unfoldable pub reclaim_available : FuseLedger → String → Result LedgerError (FuseLedger × ℤ)
reclaim_available l child_id = or_throw (lookup child_id l.children) unknown_child >>= λ child.
    let reclaimed = available child in
    ok (
      record l {
        children =
            insert child_id
              (record child { authorized_micros = child.authorized_micros -ℤ reclaimed })
              l.children;
      },
      reclaimed,
    )

unfoldable pub parent_unallocated_micros : FuseLedger → ℤ
parent_unallocated_micros l =
    l.root.authorized_micros -ℤ sum_by (λ a. a.authorized_micros) l.children

pub record Snapshot : Type 0 where
  pub mandate_id : String
  pub parent_unallocated_micros : ℤ
  pub root : Account × ℤ
  pub children : Dict (Account × ℤ)

unfoldable pub snapshot : FuseLedger → Snapshot
snapshot l = record {
  mandate_id = l.mandate_id;
  parent_unallocated_micros = parent_unallocated_micros l;
  root = (l.root, available l.root);
  children = map_values (λ a. (a, available a)) l.children;
}
