-- ===== src/Tests/Ledger.antt =====
-- src/core/ledger.ts on a mandate with two children.
use fuse_agent_control_plane.Base.{
  ℤ, pos, ◌+ℤ◌, ◌≤ℤ◌, Option, none, some, List, [], ◌∷◌, String, lookup, insert, ok, ◌≡◌, refl,
  arith, int_laws, AllValues,
}
use fuse_agent_control_plane.Core.Ledger.{
  LedgerConfig, Account, Reservation, FuseLedger, new_account, new_ledger, reserve, reconcile,
  reserved,
}
use fuse_agent_control_plane.Core.Ledger.Runs.{
  Call, reserves, reconciles, reclaims, run, spending_bounded, reserve_again, reserve-reconcile,
}

abbrev two_children : LedgerConfig
two_children = record {
  mandate_id = "m";
  maximum_spend_micros = pos 100;
  children = ("a", pos 60) ∷ ("b", pos 30) ∷ [];
}

abbrev start : FuseLedger
start = record {
  mandate_id = "m";
  root = new_account (pos 100);
  children = ("a", new_account (pos 60)) ∷ ("b", new_account (pos 30)) ∷ [];
  reservations = [];
}

abbrev held_40 : Account → Account
held_40 a = record a { reserved_micros = pos 40 }

abbrev request_1 : Reservation
request_1 = record {
  request_id = "r1";
  child_id = "a";
  maximum_micros = pos 40;
  actual_micros = none;
  status = reserved;
}

abbrev after_1 : FuseLedger
after_1 = record start {
  root = held_40 (new_account (pos 100));
  children = ("a", held_40 (new_account (pos 60))) ∷ ("b", new_account (pos 30)) ∷ [];
  reservations = ("r1", request_1) ∷ [];
}

abbrev some_calls : List Call
some_calls =
    reserves "a" (pos 40) "r1"
    ∷ reserves "a" (pos 40) "r2"
    ∷ reconciles "r1" (pos 25)
    ∷ reclaims "b"
    ∷ []

not_negative : AllValues (λ v. pos 0 ≤ℤ v) two_children.children
not_negative = (omega int_laws, (omega int_laws, tt))

started : new_ledger two_children ≡ ok start
unfolding new_ledger ◌+ℤ◌
started = refl

reserved_1 : reserve start "a" (pos 40) "r1" ≡ ok (after_1, request_1)
unfolding reserve lookup insert fuse_agent_control_plane.Core.Ledger.available
    fuse_agent_control_plane.Base.◌-ℤ◌ ◌+ℤ◌
reserved_1 = refl

spending_bounded_example :
    (pos 0 ≤ℤ (run start some_calls).root.reserved_micros)
    × (pos 0 ≤ℤ (run start some_calls).root.settled_micros)
    × ((run start some_calls).root.reserved_micros +ℤ (run start some_calls).root.settled_micros
        ≤ℤ pos 100)
spending_bounded_example = spending_bounded two_children some_calls not_negative started

reserve_again_example : reserve after_1 "a" (pos 40) "r1" ≡ ok (after_1, request_1)
reserve_again_example = reserve_again start "a" (pos 40) "r1" reserved_1

nothing_reserved : lookup "r1" start.reservations ≡ none
unfolding lookup
nothing_reserved = refl

reserve-reconcile_example :
    (l'' : FuseLedger) × (r' : Reservation) × (reconcile after_1 "r1" (pos 25) ≡ ok (l'', r'))
    × (l''.root.reserved_micros ≡ pos 0)
    × (l''.root.settled_micros ≡ pos 0 +ℤ pos 25)
    × (reconcile l'' "r1" (pos 25) ≡ ok (l'', r'))
    × (child : Account) × (child' : Account) × (lookup "a" start.children ≡ some child)
    × (lookup "a" l''.children ≡ some child')
    × (child'.authorized_micros ≡ child.authorized_micros)
    × (child'.reserved_micros ≡ child.reserved_micros)
    × (child'.settled_micros ≡ child.settled_micros +ℤ pos 25)
reserve-reconcile_example =
    reserve-reconcile start "a" (pos 40) (pos 25) "r1" nothing_reserved reserved_1 (omega int_laws)
      (omega int_laws)
