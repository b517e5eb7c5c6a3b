-- ===== src/Signer/AuthorizationStore.antt =====
-- src/signer/authorizationStore.ts, the class PostgresSignerAuthorizationStore. The two tables are
-- the state; an operation is the effect of its transaction, which a thrown error rolls back and
-- the row lock on the organization's limit puts in an order. A query that names no order is taken
-- to give the oldest row first. `Date.parse` is a parameter, `none` where it gives NaN.
pub mod Operations
pub mod Totals
pub mod Runs
pub mod Replays
use Prim.Native.Char.{Char, code}
use fuse_agent_control_plane.Base.{
  ℕ, suc, ◌+◌, ℤ, pos, leb_ℤ, leb, ltb, eqb, Bool, true, false, ◌&&◌, ◌||◌, not, is_some, Option,
  none, some, List, String, ◌==◌, is_blank, Dict, Result, ok, err, ◌>>=◌, ◌>>◌, throw_if,
  if◌then◌else◌,
}

pub data AuthorizationStatus : Type 0 where
  reserved completed review : AuthorizationStatus

-- A row of `signer_authorizations`.
pub record Authorization : Type 0 where
  pub organization_id : String
  pub caller_id : String
  pub request_id : String
  pub fingerprint : String
  pub nonce : String
  pub amount_atomic : ℤ
  pub status : AuthorizationStatus
  pub signature : Option String
  pub reason_code : Option String
  pub created_at : String
  pub updated_at : String

-- A row of `signer_authority_limits`, under its organization's id.
pub record AuthorityLimit : Type 0 where
  pub maximum_total_atomic : ℤ
  pub reserved_atomic : ℤ
  pub created_at : String
  pub updated_at : String

pub record Store : Type 0 where
  pub limits : Dict AuthorityLimit
  pub authorizations : List Authorization

pub data SignerReservation : Type 0 where
  newly_reserved in_progress under_review budget_exceeded : SignerReservation
  already_completed : String → SignerReservation

pub record ReservationInput : Type 0 where
  pub organization_id : String
  pub caller_id : String
  pub request_id : String
  pub fingerprint : String
  pub nonce : String
  pub amount_atomic : ℤ
  pub maximum_total_atomic : ℤ
  pub now : String

pub record SignerAuthorizationStatus : Type 0 where
  pub reserved_count : ℕ
  pub review_count : ℕ
  pub reserved_atomic : ℤ
  pub maximum_total_atomic : ℤ

pub data SignerError : Type 0 where
  organization_required request_id_required caller_invalid fingerprint_invalid : SignerError
  nonce_invalid amount_invalid timestamp_invalid authority_limit_missing : SignerError
  authority_limit_immutable idempotency_conflict signature_missing nonce_conflict : SignerError
  signature_invalid authorization_not_reserved review_reason_invalid : SignerError

-- `s.length`, in UTF-16 units.
unfoldable pub utf16_length : String → ℕ
utf16_length String.[] = 0
utf16_length (String.◌∷◌ c s) = (if ltb 0xffff (code c) then 2 else 1) + utf16_length s

abbrev is_digit : ℕ → Bool
is_digit c = leb b'0' c && leb c b'9'

abbrev is_lower_hex : ℕ → Bool
is_lower_hex c = is_digit c || leb b'a' c && leb c b'f'

abbrev is_hex : ℕ → Bool
is_hex c = is_lower_hex c || leb b'A' c && leb c b'F'

-- So many characters of a kind and no more.
exactly : (ℕ → Bool) → ℕ → String → Bool
exactly kind ℕ.zero String.[] = true
exactly kind ℕ.zero (String.◌∷◌ c s) = false
exactly kind (suc n) String.[] = false
exactly kind (suc n) (String.◌∷◌ c s) = kind (code c) && exactly kind n s

-- The text after `0x`.
after_0x : (String → Bool) → String → Bool
after_0x test String.[] = false
after_0x test (String.◌∷◌ c String.[]) = false
after_0x test (String.◌∷◌ c (String.◌∷◌ d s)) = eqb (code c) b'0' && eqb (code d) b'x' && test s

-- The regular expressions of a fingerprint, a nonce and a signature.
unfoldable pub is_fingerprint : String → Bool
unfolding exactly
is_fingerprint s = exactly is_lower_hex 64 s

unfoldable pub is_nonce : String → Bool
unfolding exactly after_0x
is_nonce s = after_0x (exactly is_hex 64) s

unfoldable pub is_signature : String → Bool
unfolding exactly after_0x
is_signature s = after_0x (exactly is_hex 130) s

abbrev pub lower_char : Char → Char
lower_char c =
    if eqb (code c) b'A'
    then "a"
    else if eqb (code c) b'B'
    then "b"
    else if eqb (code c) b'C'
    then "c"
    else if eqb (code c) b'D'
    then "d"
    else if eqb (code c) b'E'
    then "e"
    else if eqb (code c) b'F'
    then "f"
    else c

-- `toLowerCase` and `LOWER` of a text that has no upper case but that of hexadecimal digits.
unfoldable pub lower : String → String
lower String.[] = ""
lower (String.◌∷◌ c s) = String.◌∷◌ (lower_char c) (lower s)

unfoldable pub validate_identity : String → String → Result SignerError (Unit {0})
validate_identity organization_id request_id =
    throw_if (is_blank organization_id) organization_required
    >> throw_if (is_blank request_id) request_id_required

module _ (date_parse : String → Option ℤ) where
  unfoldable pub validate_timestamp : String → Result SignerError (Unit {0})
  validate_timestamp value = throw_if (not (is_some (date_parse value))) timestamp_invalid

  unfoldable pub validate_reservation : ReservationInput → Result SignerError (Unit {0})
  validate_reservation input =
      validate_identity input.organization_id input.request_id
      >> throw_if (is_blank input.caller_id || ltb 128 (utf16_length input.caller_id))
          caller_invalid
      >> throw_if (not (is_fingerprint input.fingerprint)) fingerprint_invalid
      >> throw_if (not (is_nonce input.nonce)) nonce_invalid
      >> throw_if (leb_ℤ input.amount_atomic (pos 0) || leb_ℤ input.maximum_total_atomic (pos 0))
          amount_invalid
      >> validate_timestamp input.now
