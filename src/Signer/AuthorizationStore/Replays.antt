-- ===== src/Signer/AuthorizationStore/Replays.antt =====
-- A reservation that is asked for again.
use Prim.Native.Char.{Char, code}
use fuse_agent_control_plane.Base.{
  ℤ, ◌+ℤ◌, eqb, eqb_ℤ, eqb_ℤ→eq, Bool, true, not, Option, none, some, List, [], ◌∷◌, ◌++◌, find,
  String, eq_refl, Dict, lookup, insert, lookup-insert_self, ok, throw_if, or_throw, >>-eq-ok,
  >>=-eq-ok, Bool-cases, ◌≡◌, refl, subst, arith, inl, inr,
}
use fuse_agent_control_plane.Signer.AuthorizationStore.{
  Authorization, AuthorityLimit, Store, newly_reserved, in_progress, ReservationInput,
  validate_reservation, authority_limit_missing, authority_limit_immutable, lower, lower_char,
  reserved, completed, review, AuthorizationStatus,
}
use fuse_agent_control_plane.Signer.AuthorizationStore.Operations.{
  insert_limit, new_row, reserve_under, reserve, known_row, equivalent_row, answer_row,
  answer_known, answer_equivalent, reserve_new, is_request,
}

find-snoc {ℓ} :
    {A : Type ℓ} (p : A → Bool) (xs : List A) (x : A)
    → find p xs ≡ none
    → p x ≡ true
    → find p (xs ++ x ∷ []) ≡ some x
find-snoc p [] x none_before h = ground arith
find-snoc p (y ∷ xs) x none_before h = ground (arith, find-snoc p xs x)

lower_char-lower_char : (c : Char) → lower_char (lower_char c) ≡ lower_char c
lower_char-lower_char c = elim (Bool-cases (eqb (code c) b'A')) [
  | inl a ↦ rw a refl
  | inr a ↦ elim (Bool-cases (eqb (code c) b'B')) [
    | inl b ↦ rw (a, b) refl
    | inr b ↦ elim (Bool-cases (eqb (code c) b'C')) [
      | inl d ↦ rw (a, b, d) refl
      | inr d ↦ elim (Bool-cases (eqb (code c) b'D')) [
        | inl e ↦ rw (a, b, d, e) refl
        | inr e ↦ elim (Bool-cases (eqb (code c) b'E')) [
          | inl f ↦ rw (a, b, d, e, f) refl
          | inr f ↦ elim (Bool-cases (eqb (code c) b'F')) [
            | inl g ↦ rw (a, b, d, e, f, g) refl
            | inr g ↦ rw (a, b, d, e, f, g) (rw (a, b, d, e, f, g) refl)
          ]
        ]
      ]
    ]
  ]
]

lower-lower : (s : String) → lower (lower s) ≡ lower s
unfolding lower
lower-lower String.[] = refl
lower-lower (String.◌∷◌ c s) = rw (lower_char-lower_char c, lower-lower s) refl

answer_row-new :
    (status : AuthorizationStatus) (signature : Option String)
    → answer_row status signature ≡ ok newly_reserved
    → ⊥
unfolding answer_row
answer_row-new reserved signature e = ground arith
answer_row-new review signature e = ground arith
answer_row-new completed none e = ground arith
answer_row-new completed (some s) e = ground arith

abbrev raised_limit : ReservationInput → AuthorityLimit → AuthorityLimit
raised_limit input limit = record limit {
  reserved_atomic = limit.reserved_atomic +ℤ input.amount_atomic;
  updated_at = input.now;
}

-- What a new reservation found and what it left.
newly_reserved_cases :
    (known equivalent : Option Authorization) (input : ReservationInput) (limit : AuthorityLimit)
    (limits : Dict AuthorityLimit) (rows : List Authorization) {s' : Store}
    → reserve_under known equivalent input limit limits rows ≡ ok (s', newly_reserved)
    → (known ≡ none)
      × (record {
        limits = insert input.organization_id (raised_limit input limit) limits;
        authorizations = rows ++ new_row input ∷ [];
      }
          ≡ s')
unfolding reserve_under answer_known answer_equivalent reserve_new
newly_reserved_cases (some row) equivalent input limit limits rows e =
    absurd (ground (arith, answer_row-new row.status row.signature))
newly_reserved_cases none (some row) input limit limits rows e =
    absurd (ground (arith, answer_row-new row.status row.signature))
newly_reserved_cases none none input limit limits rows e = (refl, ground arith)

eqb_ℤ_refl : (a : ℤ) → eqb_ℤ a a ≡ true
eqb_ℤ_refl a = ground arith

answer_known-new_row :
    (input : ReservationInput) → answer_known input (new_row input) ≡ ok in_progress
unfolding answer_known answer_row
answer_known-new_row input = simp (lower-lower, eq_refl, eqb_ℤ_refl)

is_request-new_row :
    (input : ReservationInput)
    → is_request input.organization_id input.request_id (new_row input) ≡ true
is_request-new_row input = simp eq_refl

abbrev after_new :
    ReservationInput → AuthorityLimit → Dict AuthorityLimit → List Authorization → Store
after_new input limit limits rows = record {
  limits = insert input.organization_id (raised_limit input limit) limits;
  authorizations = rows ++ new_row input ∷ [];
}

insert_limit-known :
    (input : ReservationInput) (limits : Dict AuthorityLimit) {limit : AuthorityLimit}
    → lookup input.organization_id limits ≡ some limit
    → insert_limit input limits ≡ limits
insert_limit-known input limits at = ground (arith, at)

reserve-after_new :
    (date_parse : String → Option ℤ) (input : ReservationInput) (limit : AuthorityLimit)
    (limits : Dict AuthorityLimit) (rows : List Authorization)
    → validate_reservation date_parse input ≡ ok tt
    → limit.maximum_total_atomic ≡ input.maximum_total_atomic
    → known_row input rows ≡ none
    → reserve date_parse (after_new input limit limits rows) input
      ≡ ok (after_new input limit limits rows, in_progress)
unfolding reserve reserve_under
reserve-after_new date_parse input limit limits rows valid fixed fresh =
    let at = lookup-insert_self input.organization_id (raised_limit input limit) limits in
    rw
      (
        valid,
        insert_limit-known input (after_new input limit limits rows).limits at,
        at,
        fixed,
        eqb_ℤ_refl,
        find-snoc (is_request input.organization_id input.request_id) rows (new_row input) fresh
            (is_request-new_row input),
        answer_known-new_row,
      )
      refl

-- A reservation that was newly made, asked for again, is answered as in progress and changes
-- nothing.
pub reserve_twice :
    (date_parse : String → Option ℤ) (s : Store) (input : ReservationInput) {s' : Store}
    → reserve date_parse s input ≡ ok (s', newly_reserved)
    → reserve date_parse s' input ≡ ok (s', in_progress)
unfolding reserve
reserve_twice date_parse s input {s'} e =
    let (valid, rest) = >>-eq-ok (validate_reservation date_parse input) _ e in
    let limits = insert_limit input s.limits in
    let (limit, found, last) =
      >>=-eq-ok (or_throw (lookup input.organization_id limits) authority_limit_missing) _ rest in
    let (fixed, done) =
      >>-eq-ok
        (throw_if (not (eqb_ℤ limit.maximum_total_atomic input.maximum_total_atomic))
          authority_limit_immutable)
        _ last in
    let (fresh, left) =
      newly_reserved_cases (known_row input s.authorizations)
        (equivalent_row input s.authorizations) input limit limits s.authorizations done in
    subst (λ x. reserve date_parse x input ≡ ok (x, in_progress)) left
      (reserve-after_new date_parse input limit limits s.authorizations valid
        (ground (arith, fixed, eqb_ℤ→eq limit.maximum_total_atomic input.maximum_total_atomic))
        fresh)
