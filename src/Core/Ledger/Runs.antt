-- ===== src/Core/Ledger/Runs.antt =====
-- What holds of a ledger over any sequence of calls, and of a call that is made again.
use fuse_agent_control_plane.Base.{
  ℤ, pos, ◌+ℤ◌, ◌-ℤ◌, ◌≤ℤ◌, int_laws, parts_of_eq, none, some, List, [], ◌∷◌, String, eq_refl, Dict,
  lookup, lookup-insert_self, Result, ok, err, sum_by, AllValues, ◌≡◌, refl, sym, ◌∙◌, arith, inl,
  inr, Option-cases, subst,
}
use fuse_agent_control_plane.Core.Ledger.{
  LedgerConfig, Account, Reservation, FuseLedger, new_account, map_values, new_ledger, reserve,
  reconcile, reclaim_available, reconciled, hold, settle, new_reservation,
}
use fuse_agent_control_plane.Core.Ledger.Books.{Inv, IsFunded}
use fuse_agent_control_plane.Core.Ledger.Granting.{granted}
use fuse_agent_control_plane.Core.Ledger.Closing.{closed}
use fuse_agent_control_plane.Core.Ledger.Invariant.{
  reserve-Inv, reconcile-Inv, reclaim_available-Inv,
}

sum_by-new_account :
    (f : Account → ℤ) (m : Dict ℤ)
    → ((a : ℤ) → f (new_account a) ≡ pos 0)
    → sum_by f (map_values new_account m) ≡ pos 0
sum_by-new_account f [] z = refl
sum_by-new_account f ((k, v) ∷ m) z =
    omega (int_laws, parts_of_eq (z v), parts_of_eq (sum_by-new_account f m z))

new_account-IsFunded :
    (m : Dict ℤ) → AllValues (λ v. pos 0 ≤ℤ v) m → AllValues IsFunded (map_values new_account m)
new_account-IsFunded [] h = tt
new_account-IsFunded ((k, v) ∷ m) (p, h) =
    ((omega int_laws, omega int_laws, omega int_laws), new_account-IsFunded m h)

new_account-reserved :
    (c : String) (m : Dict ℤ) (a : Account)
    → lookup c (map_values new_account m) ≡ some a
    → a.reserved_micros ≡ pos 0
unfolding lookup
new_account-reserved c [] a e = ground arith
new_account-reserved c ((k, v) ∷ m) a e = ground (arith, new_account-reserved c m a)

-- A new ledger whose allocations are not negative starts with its books in order.
pub new_ledger-Inv :
    (config : LedgerConfig) {l : FuseLedger}
    → AllValues (λ v. pos 0 ≤ℤ v) config.children
    → new_ledger config ≡ ok l
    → Inv l
unfolding new_ledger
new_ledger-Inv config {l} h e =
    let start : FuseLedger = record {
      mandate_id = config.mandate_id;
      root = new_account config.maximum_spend_micros;
      children = map_values new_account config.children;
      reservations = [];
    } in
    let positive : pos 0 ≤ℤ config.maximum_spend_micros = ground arith in
    let same : start ≡ l = ground arith in
    subst Inv same (record {
      root_funded = (omega arith, omega arith, omega int_laws);
      children_funded = new_account-IsFunded config.children h;
      sound = tt;
      reserved_sum = sym (sum_by-new_account (λ a. a.reserved_micros) config.children (λ a. refl));
      settled_sum = sym (sum_by-new_account (λ a. a.settled_micros) config.children (λ a. refl));
      spent_sum = refl;
      held_sum = λ c a f. new_account-reserved c config.children a f;
    })

pub data Call : Type 0 where
  reserves : String → ℤ → String → Call
  reconciles : String → ℤ → Call
  reclaims : String → Call

-- A call that throws leaves the ledger as it was.
abbrev kept : {E A : Type 0} → FuseLedger → Result E (FuseLedger × A) → FuseLedger
kept l (ok (l', a)) = l'
kept l (err e) = l

abbrev pub step : FuseLedger → Call → FuseLedger
step l (reserves c m id) = kept l (reserve l c m id)
step l (reconciles id a) = kept l (reconcile l id a)
step l (reclaims c) = kept l (reclaim_available l c)

unfoldable pub run : FuseLedger → List Call → FuseLedger
run l [] = l
run l (c ∷ cs) = run (step l c) cs

kept-Inv :
    {E A : Type 0} (l : FuseLedger) (m : Result E (FuseLedger × A))
    → Inv l
    → ((l' : FuseLedger) (a : A) → m ≡ ok (l', a) → Inv l')
    → Inv (kept l m)
kept-Inv l (ok (l', a)) v h = h l' a refl
kept-Inv l (err e) v h = v

step-Inv : (l : FuseLedger) (c : Call) → Inv l → Inv (step l c)
step-Inv l (reserves c m id) v =
    kept-Inv l (reserve l c m id) v (λ l' r e. reserve-Inv l c m id v e)
step-Inv l (reconciles id a) v =
    kept-Inv l (reconcile l id a) v (λ l' r e. reconcile-Inv l id a v e)
step-Inv l (reclaims c) v =
    kept-Inv l (reclaim_available l c) v (λ l' r e. reclaim_available-Inv l c v e)

-- Any sequence of calls, those that throw included, keeps the books of a ledger.
pub run-Inv : (l : FuseLedger) (cs : List Call) → Inv l → Inv (run l cs)
unfolding run
run-Inv l [] v = v
run-Inv l (c ∷ cs) v = run-Inv (step l c) cs (step-Inv l c v)

step-root_budget :
    (l : FuseLedger) (c : Call) → (step l c).root.authorized_micros ≡ l.root.authorized_micros
unfolding reserve reconcile reclaim_available
step-root_budget l (reserves c m id) = ground arith
step-root_budget l (reconciles id a) = ground arith
step-root_budget l (reclaims c) = ground arith

run-root_budget :
    (l : FuseLedger) (cs : List Call) → (run l cs).root.authorized_micros ≡ l.root.authorized_micros
unfolding run
run-root_budget l [] = refl
run-root_budget l (c ∷ cs) = run-root_budget (step l c) cs ∙ step-root_budget l c

new_ledger-root :
    (config : LedgerConfig) {l : FuseLedger}
    → new_ledger config ≡ ok l
    → l.root.authorized_micros ≡ config.maximum_spend_micros
unfolding new_ledger
new_ledger-root config e = ground arith

-- Whatever is called on a new ledger whose allocations are not negative, what is reserved and what
-- is settled are never negative and stay together within the root budget it was made with.
pub spending_bounded :
    (config : LedgerConfig) {l : FuseLedger} (cs : List Call)
    → AllValues (λ v. pos 0 ≤ℤ v) config.children
    → new_ledger config ≡ ok l
    → (pos 0 ≤ℤ (run l cs).root.reserved_micros)
      × (pos 0 ≤ℤ (run l cs).root.settled_micros)
      × ((run l cs).root.reserved_micros +ℤ (run l cs).root.settled_micros
          ≤ℤ config.maximum_spend_micros)
spending_bounded config {l} cs h e =
    let v = run-Inv l cs (new_ledger-Inv config h e) in
    let budget = run-root_budget l cs in
    let given = new_ledger-root config e in
    let (a, b, c) = v.root_funded in
    (
      a,
      b,
      subst (λ x. (run l cs).root.reserved_micros +ℤ (run l cs).root.settled_micros ≤ℤ x)
          (budget ∙ given) c,
    )

-- A reservation that is asked for again, with the same child and amount, is answered the same and
-- holds nothing more.
pub reserve_again :
    (l : FuseLedger) (c : String) (m : ℤ) (id : String) {l' : FuseLedger} {r : Reservation}
    → reserve l c m id ≡ ok (l', r)
    → reserve l' c m id ≡ ok (l', r)
unfolding reserve
reserve_again l c m id {l'} {r} e = elim (Option-cases (lookup id l.reservations)) [
  | inr (old, known) ↦ ground (arith)
  | inl fresh ↦
      ground (arith, lookup-insert_self id (new_reservation c m id) l.reservations, eq_refl c)
]

+ℤ-ℤ_cancel : (a b : ℤ) → a +ℤ b -ℤ b ≡ a
+ℤ-ℤ_cancel a b = omega int_laws

-- A reservation that is granted under a new request id can be closed at any cost up to its amount:
-- in the root account and in the child's nothing of it stays reserved, and the cost and no more is
-- settled; closing it again at that cost changes nothing.
pub reserve-reconcile :
    (l : FuseLedger) (c : String) (m a : ℤ) (id : String) {l' : FuseLedger} {r : Reservation}
    → lookup id l.reservations ≡ none
    → reserve l c m id ≡ ok (l', r)
    → pos 0 ≤ℤ a
    → a ≤ℤ m
    → (l'' : FuseLedger) × (r' : Reservation) × (reconcile l' id a ≡ ok (l'', r'))
      × (l''.root.reserved_micros ≡ l.root.reserved_micros)
      × (l''.root.settled_micros ≡ l.root.settled_micros +ℤ a)
      × (reconcile l'' id a ≡ ok (l'', r'))
      × (child : Account) × (child' : Account) × (lookup c l.children ≡ some child)
      × (lookup c l''.children ≡ some child')
      × (child'.authorized_micros ≡ child.authorized_micros)
      × (child'.reserved_micros ≡ child.reserved_micros)
      × (child'.settled_micros ≡ child.settled_micros +ℤ a)
unfolding reserve reconcile
reserve-reconcile l c m a id {l'} {r} fresh e p q = elim (Option-cases (lookup c l.children)) [
  | inl unknown ↦ absurd (ground arith)
  | inr (child, found) ↦
      let same : granted l c m id child ≡ l' = ground arith in
      let request = new_reservation c m id in
      let end = closed (granted l c m id child) id request a (hold m child) in
      let known = lookup-insert_self id request l.reservations in
      let held = lookup-insert_self c (hold m child) l.children in
      let again =
        lookup-insert_self id (record request { actual_micros = some a; status = reconciled })
          (granted l c m id child).reservations in
      (
        end,
        record request { actual_micros = some a; status = reconciled },
        rw (← same) (ground (arith, known, held)),
        +ℤ-ℤ_cancel l.root.reserved_micros m,
        refl,
        ground (arith, again),
        child,
        settle m a (hold m child),
        found,
        lookup-insert_self c (settle m a (hold m child)) (granted l c m id child).children,
        refl,
        +ℤ-ℤ_cancel child.reserved_micros m,
        refl,
      )
]
