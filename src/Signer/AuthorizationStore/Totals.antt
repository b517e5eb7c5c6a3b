-- ===== src/Signer/AuthorizationStore/Totals.antt =====
-- What the signer's limits say of its rows, over any sequence of calls.
use fuse_agent_control_plane.Base.{
  ℤ, pos, ◌+ℤ◌, ◌≤ℤ◌, int_laws, parts_of_eq, ltb_ℤ, eqb_ℤ, eqb_ℤ→eq, +ℤ_zero, false, not, Option,
  none, some, List, [], ◌∷◌, ◌++◌, map, String, ◌==◌, eq_iff, Dict, lookup, insert, lookup-insert,
  ok, throw_if, or_throw, >>-eq-ok, >>=-eq-ok, ok-injective, Bool-cases, if◌then◌else◌, ◌≡◌, refl,
  sym, ap, ◌∙◌, subst, arith, inl, inr,
}
use fuse_agent_control_plane.Signer.AuthorizationStore.{
  Authorization, AuthorityLimit, Store, SignerReservation, ReservationInput, validate_reservation,
  authority_limit_missing, authority_limit_immutable,
}
use fuse_agent_control_plane.Signer.AuthorizationStore.Operations.{
  new_limit, insert_limit, is_open, answer_known, answer_equivalent, new_row, reserve_new,
  reserve_under, known_row, equivalent_row, reserve, update_open,
}

-- The sum of the amounts of an organization's rows.
abbrev pub amounts_of : String → List Authorization → ℤ
amounts_of organization_id [] = pos 0
amounts_of organization_id (row ∷ rows) =
    (if row.organization_id == organization_id then row.amount_atomic else pos 0)
    +ℤ amounts_of organization_id rows

abbrev pub reserved_of : Option AuthorityLimit → ℤ
reserved_of none = pos 0
reserved_of (some limit) = limit.reserved_atomic

abbrev pub maximum_of : Option AuthorityLimit → ℤ
maximum_of none = pos 0
maximum_of (some limit) = limit.maximum_total_atomic

pub record Inv (s : Store) : Type 0 where
  pub totals :
      (organization_id : String)
      → amounts_of organization_id s.authorizations ≡ reserved_of (lookup organization_id s.limits)
  pub capped :
      (organization_id : String)
      → reserved_of (lookup organization_id s.limits)
        ≤ℤ maximum_of (lookup organization_id s.limits)

amounts_of-snoc :
    (o : String) (rows : List Authorization) (row : Authorization)
    → amounts_of o (rows ++ row ∷ [])
      ≡ amounts_of o rows +ℤ (if row.organization_id == o then row.amount_atomic else pos 0)
amounts_of-snoc o [] row = omega int_laws
amounts_of-snoc o (r ∷ rows) row = omega (int_laws, parts_of_eq (amounts_of-snoc o rows row))

-- A change that leaves the organization and the amount of a row leaves the sums.
amounts_of-map :
    (o : String) (f : Authorization → Authorization) (rows : List Authorization)
    → ((row : Authorization)
        → ((f row).organization_id ≡ row.organization_id)
          × ((f row).amount_atomic ≡ row.amount_atomic))
    → amounts_of o (map f rows) ≡ amounts_of o rows
amounts_of-map o f [] h = refl
amounts_of-map o f (row ∷ rows) h = let (a, b) = h row in rw (a, b, amounts_of-map o f rows h)

reserved_of-insert_limit :
    (o : String) (input : ReservationInput) (limits : Dict AuthorityLimit)
    → reserved_of (lookup o (insert_limit input limits)) ≡ reserved_of (lookup o limits)
reserved_of-insert_limit o input limits = ground (
  arith,
  lookup-insert input.organization_id o (new_limit input) limits,
  eq_iff input.organization_id o,
)

maximum_of-insert_limit :
    (o : String) (input : ReservationInput) (limits : Dict AuthorityLimit)
    → pos 0 ≤ℤ input.maximum_total_atomic
    → maximum_of (lookup o limits) ≤ℤ maximum_of (lookup o (insert_limit input limits))
maximum_of-insert_limit o input limits h = ground (
  arith,
  lookup-insert input.organization_id o (new_limit input) limits,
  eq_iff input.organization_id o,
)

insert_limit-Inv :
    (s : Store) (input : ReservationInput)
    → pos 0 ≤ℤ input.maximum_total_atomic
    → Inv s
    → Inv (record s { limits = insert_limit input s.limits })
insert_limit-Inv s input h v = record {
  totals = λ o. v.totals o ∙ sym (reserved_of-insert_limit o input s.limits);
  capped = λ o. omega (
    arith,
    v.capped o,
    parts_of_eq (reserved_of-insert_limit o input s.limits),
    maximum_of-insert_limit o input s.limits h,
  );
}

abbrev raised : ReservationInput → AuthorityLimit → AuthorityLimit
raised input limit = record limit {
  reserved_atomic = limit.reserved_atomic +ℤ input.amount_atomic;
  updated_at = input.now;
}

abbrev with_row : ReservationInput → AuthorityLimit → Store → Store
with_row input limit s = record {
  limits = insert input.organization_id (raised input limit) s.limits;
  authorizations = s.authorizations ++ new_row input ∷ [];
}

with_row-total :
    (input : ReservationInput) (limit : AuthorityLimit) (s : Store) (o : String)
    → lookup input.organization_id s.limits ≡ some limit
    → Inv s
    → amounts_of o (with_row input limit s).authorizations
      ≡ reserved_of (lookup o (with_row input limit s).limits)
with_row-total input limit s o at v = elim (Bool-cases (input.organization_id == o)) [
  | inl here ↦ rw (amounts_of-snoc, lookup-insert, here, v.totals o, ← (eq_iff _ _).0 here, at) refl
  | inr away ↦ rw (amounts_of-snoc, lookup-insert, away, +ℤ_zero) (v.totals o)
]

with_row-capped :
    (input : ReservationInput) (limit : AuthorityLimit) (s : Store) (o : String)
    → limit.maximum_total_atomic ≡ input.maximum_total_atomic
    → ltb_ℤ input.maximum_total_atomic (limit.reserved_atomic +ℤ input.amount_atomic) ≡ false
    → Inv s
    → reserved_of (lookup o (with_row input limit s).limits)
      ≤ℤ maximum_of (lookup o (with_row input limit s).limits)
with_row-capped input limit s o same room v = elim (Bool-cases (input.organization_id == o)) [
  | inl here ↦ rw (lookup-insert, here) (ground (arith, room, same))
  | inr away ↦ rw (lookup-insert, away) (v.capped o)
]

reserve_new-Inv :
    (input : ReservationInput) (limit : AuthorityLimit) (s : Store)
    → lookup input.organization_id s.limits ≡ some limit
    → limit.maximum_total_atomic ≡ input.maximum_total_atomic
    → Inv s
    → Inv (reserve_new input limit s.limits s.authorizations).0
unfolding reserve_new
reserve_new-Inv input limit s at same v =
    elim (Bool-cases
      (ltb_ℤ input.maximum_total_atomic (limit.reserved_atomic +ℤ input.amount_atomic))) [
        | inl full ↦ rw full v
        | inr room ↦ rw room (record {
          totals = λ o. with_row-total input limit s o at v;
          capped = λ o. with_row-capped input limit s o same room v;
        })
      ]

reserve_under-Inv :
    (known equivalent : Option Authorization) (input : ReservationInput) (limit : AuthorityLimit)
    (s : Store) {s' : Store} {answer : SignerReservation}
    → lookup input.organization_id s.limits ≡ some limit
    → limit.maximum_total_atomic ≡ input.maximum_total_atomic
    → Inv s
    → reserve_under known equivalent input limit s.limits s.authorizations ≡ ok (s', answer)
    → Inv s'
unfolding reserve_under
reserve_under-Inv (some row) equivalent input limit s at same v e =
    let (a, _, last) = >>=-eq-ok (answer_known input row) _ e in
    subst Inv (ap (λ (p : Store × SignerReservation). p.0) (ok-injective last)) v
reserve_under-Inv none (some row) input limit s at same v e =
    let (a, _, last) = >>=-eq-ok (answer_equivalent input row) _ e in
    subst Inv (ap (λ (p : Store × SignerReservation). p.0) (ok-injective last)) v
reserve_under-Inv none none input limit s at same v e =
    subst Inv (ap (λ (p : Store × SignerReservation). p.0) (ok-injective e))
      (reserve_new-Inv input limit s at same v)

positive_maximum :
    (date_parse : String → Option ℤ) (input : ReservationInput)
    → validate_reservation date_parse input ≡ ok tt
    → pos 0 ≤ℤ input.maximum_total_atomic
unfolding validate_reservation
positive_maximum date_parse input e = ground arith

-- A reservation that is answered leaves each organization's total the sum of its rows, within its
-- maximum.
pub reserve-Inv :
    (date_parse : String → Option ℤ) (s : Store) (input : ReservationInput) {s' : Store}
    {answer : SignerReservation}
    → Inv s
    → reserve date_parse s input ≡ ok (s', answer)
    → Inv s'
unfolding reserve
reserve-Inv date_parse s input v e =
    let (valid, rest) = >>-eq-ok (validate_reservation date_parse input) _ e in
    let limits = insert_limit input s.limits in
    let (limit, found, last) =
      >>=-eq-ok (or_throw (lookup input.organization_id limits) authority_limit_missing) _ rest in
    let (fixed, done) =
      >>-eq-ok
        (throw_if (not (eqb_ℤ limit.maximum_total_atomic input.maximum_total_atomic))
          authority_limit_immutable)
        _ last in
    reserve_under-Inv (known_row input s.authorizations) (equivalent_row input s.authorizations)
      input limit (record s { limits = limits }) (ground (arith, found))
      (ground (arith, fixed, eqb_ℤ→eq limit.maximum_total_atomic input.maximum_total_atomic))
      (insert_limit-Inv s input (positive_maximum date_parse input valid) v) done

pub update_open-Inv :
    (o id : String) (change : Authorization → Authorization) (s : Store) {s' : Store}
    → ((row : Authorization)
        → ((change row).organization_id ≡ row.organization_id)
          × ((change row).amount_atomic ≡ row.amount_atomic))
    → Inv s
    → update_open o id change s ≡ ok s'
    → Inv s'
unfolding update_open
update_open-Inv o id change s h v e =
    let (_, last) = >>-eq-ok _ _ e in
    subst Inv (ok-injective last) (record {
      totals = λ k.
          amounts_of-map k (λ row. if is_open o id row then change row else row) s.authorizations
            (λ row. ground (arith, h row))
          ∙ v.totals k;
      capped = v.capped;
    })
