-- ===== src/Signer/AuthorizationStore/Operations.antt =====
-- `reserve`, `complete`, `holdForReview` and `getStatus` of src/signer/authorizationStore.ts.
use fuse_agent_control_plane.Base.{
  ℕ, ℤ, pos, ◌+ℤ◌, ltb_ℤ, eqb_ℤ, ltb, eqb, Bool, true, false, ◌&&◌, ◌||◌, not, Option, none, some,
  List, [], ◌∷◌, ◌++◌, map, length, keep, find, String, ◌==◌, is_blank, Dict, lookup, insert,
  Result, ok, err, ◌>>=◌, ◌>>◌, throw_if, or_throw, if◌then◌else◌,
}
use fuse_agent_control_plane.Signer.AuthorizationStore.{
  AuthorizationStatus, reserved, completed, review, Authorization, AuthorityLimit, Store,
  SignerReservation, newly_reserved, in_progress, under_review, budget_exceeded, already_completed,
  ReservationInput, SignerAuthorizationStatus, SignerError, organization_required,
  authority_limit_missing, authority_limit_immutable, idempotency_conflict, signature_missing,
  nonce_conflict, signature_invalid, authorization_not_reserved, review_reason_invalid,
  utf16_length, is_signature, lower, validate_identity, validate_timestamp, validate_reservation,
}

abbrev pub new_limit : ReservationInput → AuthorityLimit
new_limit input = record {
  maximum_total_atomic = input.maximum_total_atomic;
  reserved_atomic = pos 0;
  created_at = input.now;
  updated_at = input.now;
}

-- `INSERT ... ON CONFLICT (organization_id) DO NOTHING`.
abbrev pub insert_limit : ReservationInput → Dict AuthorityLimit → Dict AuthorityLimit
insert_limit input limits = elim (lookup input.organization_id limits) [
  | some limit ↦ limits
  | none ↦ insert input.organization_id (new_limit input) limits
]

abbrev pub is_request : String → String → Authorization → Bool
is_request organization_id request_id row =
    row.organization_id == organization_id && row.request_id == request_id

-- The condition of the second query.
abbrev pub is_equivalent : ReservationInput → Authorization → Bool
is_equivalent input row =
    row.organization_id == input.organization_id
    && (row.fingerprint == input.fingerprint || lower row.nonce == lower input.nonce)

-- What a row that is there already answers; an empty signature counts as missing.
abbrev answer_signature : Option String → Result SignerError SignerReservation
answer_signature none = err signature_missing
answer_signature (some s) = if s == "" then err signature_missing else ok (already_completed s)

unfoldable pub answer_row :
    AuthorizationStatus → Option String → Result SignerError SignerReservation
answer_row completed signature = answer_signature signature
answer_row review signature = ok under_review
answer_row reserved signature = ok in_progress

-- The answer to a request id that is known.
unfoldable pub answer_known :
    ReservationInput → Authorization → Result SignerError SignerReservation
answer_known input row =
    throw_if
      (not (row.caller_id == input.caller_id)
        || not (row.fingerprint == input.fingerprint)
        || not (lower row.nonce == lower input.nonce)
        || not (eqb_ℤ row.amount_atomic input.amount_atomic))
      idempotency_conflict
    >> answer_row row.status row.signature

-- The answer to a new request id whose fingerprint or nonce is known.
unfoldable pub answer_equivalent :
    ReservationInput → Authorization → Result SignerError SignerReservation
answer_equivalent input row =
    throw_if
      (not (row.caller_id == input.caller_id)
        || not (row.fingerprint == input.fingerprint)
        || not (eqb_ℤ row.amount_atomic input.amount_atomic))
      nonce_conflict
    >> answer_row row.status row.signature

abbrev pub new_row : ReservationInput → Authorization
new_row input = record {
  organization_id = input.organization_id;
  caller_id = input.caller_id;
  request_id = input.request_id;
  fingerprint = input.fingerprint;
  nonce = lower input.nonce;
  amount_atomic = input.amount_atomic;
  status = reserved;
  signature = none;
  reason_code = none;
  created_at = input.now;
  updated_at = input.now;
}

-- The row is inserted and the limit's total goes up, if there is room for the amount.
unfoldable pub reserve_new :
    ReservationInput
    → AuthorityLimit
    → Dict AuthorityLimit
    → List Authorization
    → Store × SignerReservation
reserve_new input limit limits rows =
    if ltb_ℤ input.maximum_total_atomic (limit.reserved_atomic +ℤ input.amount_atomic)
    then (record { limits = limits; authorizations = rows }, budget_exceeded)
    else (
      record {
        limits =
            insert input.organization_id
              (record limit {
                reserved_atomic = limit.reserved_atomic +ℤ input.amount_atomic;
                updated_at = input.now;
              })
              limits;
        authorizations = rows ++ new_row input ∷ [];
      },
      newly_reserved,
    )

-- The transaction once the limit is read; `known` and `equivalent` are what the queries found.
unfoldable pub reserve_under :
    Option Authorization
    → Option Authorization
    → ReservationInput
    → AuthorityLimit
    → Dict AuthorityLimit
    → List Authorization
    → Result SignerError (Store × SignerReservation)
reserve_under (some row) equivalent input limit limits rows = answer_known input row >>= λ answer.
    ok (record { limits = limits; authorizations = rows }, answer)
reserve_under none (some row) input limit limits rows = answer_equivalent input row >>= λ answer.
    ok (record { limits = limits; authorizations = rows }, answer)
reserve_under none none input limit limits rows = ok (reserve_new input limit limits rows)

abbrev pub known_row : ReservationInput → List Authorization → Option Authorization
known_row input = find (is_request input.organization_id input.request_id)

abbrev pub equivalent_row : ReservationInput → List Authorization → Option Authorization
equivalent_row input = find (is_equivalent input)

unfoldable pub reserve :
    (String → Option ℤ) → Store → ReservationInput → Result SignerError (Store × SignerReservation)
reserve date_parse store input =
    let limits = insert_limit input store.limits in
    let rows = store.authorizations in
    validate_reservation date_parse input
    >> (or_throw (lookup input.organization_id limits) authority_limit_missing >>= λ limit.
        throw_if (not (eqb_ℤ limit.maximum_total_atomic input.maximum_total_atomic))
          authority_limit_immutable
        >> reserve_under (known_row input rows) (equivalent_row input rows) input limit limits rows)

abbrev pub is_reserved : AuthorizationStatus → Bool
is_reserved reserved = true
is_reserved _ = false

abbrev pub is_review : AuthorizationStatus → Bool
is_review review = true
is_review _ = false

-- The `WHERE` of the two updates.
abbrev pub is_open : String → String → Authorization → Bool
is_open organization_id request_id row =
    is_request organization_id request_id row && is_reserved row.status

-- An `UPDATE`, which throws when it does not change exactly one row. The primary key leaves no
-- more than one to change.
unfoldable pub update_open :
    String → String → (Authorization → Authorization) → Store → Result SignerError Store
update_open organization_id request_id change store =
    throw_if (not (eqb (length (keep (is_open organization_id request_id) store.authorizations)) 1))
      authorization_not_reserved
    >> ok (record store {
      authorizations =
          map (λ row. if is_open organization_id request_id row then change row else row)
            store.authorizations;
    })

unfoldable pub complete :
    (String → Option ℤ) → Store → String → String → String → String → Result SignerError Store
unfolding update_open
complete date_parse store organization_id request_id signature completed_at =
    validate_identity organization_id request_id
    >> throw_if (not (is_signature signature)) signature_invalid
    >> validate_timestamp date_parse completed_at
    >> update_open organization_id request_id
        (λ row. record row {
          status = completed;
          signature = some signature;
          reason_code = none;
          updated_at = completed_at;
        })
        store

unfoldable pub hold_for_review :
    (String → Option ℤ) → Store → String → String → String → String → Result SignerError Store
unfolding update_open
hold_for_review date_parse store organization_id request_id reason_code held_at =
    validate_identity organization_id request_id
    >> throw_if (is_blank reason_code || ltb 128 (utf16_length reason_code)) review_reason_invalid
    >> validate_timestamp date_parse held_at
    >> update_open organization_id request_id
        (λ row. record row {
          status = review;
          reason_code = some reason_code;
          updated_at = held_at;
        })
        store

-- The rows of an organization with a status.
abbrev count_rows : String → (AuthorizationStatus → Bool) → List Authorization → ℕ
count_rows organization_id is_status rows =
    length (keep (λ row. row.organization_id == organization_id && is_status row.status) rows)

unfoldable pub get_status : Store → String → Result SignerError SignerAuthorizationStatus
get_status store organization_id =
    throw_if (is_blank organization_id) organization_required
    >> ok (elim (lookup organization_id store.limits) [
      | none ↦ record {
        reserved_count = 0;
        review_count = 0;
        reserved_atomic = pos 0;
        maximum_total_atomic = pos 0;
      }
      | some limit ↦ record {
        reserved_count = count_rows organization_id is_reserved store.authorizations;
        review_count = count_rows organization_id is_review store.authorizations;
        reserved_atomic = limit.reserved_atomic;
        maximum_total_atomic = limit.maximum_total_atomic;
      }
    ])
