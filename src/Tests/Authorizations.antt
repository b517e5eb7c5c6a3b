-- ===== src/Tests/Authorizations.antt =====
-- src/signer/authorizationStore.ts on two requests of one organization, the second too large.
use fuse_agent_control_plane.Base.{
  ℤ, pos, ◌≤ℤ◌, Option, some, List, [], ◌∷◌, ◌++◌, String, lookup, ok, ◌≡◌, refl,
}
use fuse_agent_control_plane.Signer.AuthorizationStore.{
  Store, ReservationInput, newly_reserved, in_progress, budget_exceeded, AuthorityLimit,
}
use fuse_agent_control_plane.Signer.AuthorizationStore.Operations.{reserve, new_row}
use fuse_agent_control_plane.Signer.AuthorizationStore.Totals.{amounts_of, reserved_of, maximum_of}
use fuse_agent_control_plane.Signer.AuthorizationStore.Runs.{
  Call, reserves, completes, empty_store, run, authority_bounded,
}
use fuse_agent_control_plane.Signer.AuthorizationStore.Replays.{reserve_twice}

abbrev parse_time : String → Option ℤ
parse_time s = some (pos 0)

abbrev input_1 : ReservationInput
input_1 = record {
  organization_id = "o";
  caller_id = "gateway";
  request_id = "r1";
  fingerprint = "00000000000000000000000000000000000000000000000000000000000000ab";
  nonce = "0x00000000000000000000000000000000000000000000000000000000000000AB";
  amount_atomic = pos 70;
  maximum_total_atomic = pos 100;
  now = "now";
}

abbrev input_2 : ReservationInput
input_2 = record input_1 {
  request_id = "r2";
  fingerprint = "00000000000000000000000000000000000000000000000000000000000000cd";
  nonce = "0x00000000000000000000000000000000000000000000000000000000000000CD";
}

abbrev store_1 : Store
store_1 = record {
  limits =
      (
        "o",
        record {
          maximum_total_atomic = pos 100;
          reserved_atomic = pos 70;
          created_at = "now";
          updated_at = "now";
        },
      )
      ∷ [];
  authorizations =
      record (new_row input_1) {
        nonce = "0x00000000000000000000000000000000000000000000000000000000000000ab";
      }
      ∷ [];
}

reserved_first : reserve parse_time empty_store input_1 ≡ ok (store_1, newly_reserved)
unfolding reserve fuse_agent_control_plane.Signer.AuthorizationStore.validate_reservation
    fuse_agent_control_plane.Signer.AuthorizationStore.validate_identity
    fuse_agent_control_plane.Base.is_blank
    fuse_agent_control_plane.Signer.AuthorizationStore.utf16_length
    fuse_agent_control_plane.Signer.AuthorizationStore.is_fingerprint
    fuse_agent_control_plane.Signer.AuthorizationStore.is_nonce
    fuse_agent_control_plane.Signer.AuthorizationStore.validate_timestamp lookup
    fuse_agent_control_plane.Base.insert
    fuse_agent_control_plane.Signer.AuthorizationStore.Operations.reserve_under
    fuse_agent_control_plane.Signer.AuthorizationStore.Operations.reserve_new
    fuse_agent_control_plane.Base.◌+ℤ◌ fuse_agent_control_plane.Signer.AuthorizationStore.lower
reserved_first = refl

second_too_large : reserve parse_time store_1 input_2 ≡ ok (store_1, budget_exceeded)
unfolding reserve fuse_agent_control_plane.Signer.AuthorizationStore.validate_reservation
    fuse_agent_control_plane.Signer.AuthorizationStore.validate_identity
    fuse_agent_control_plane.Base.is_blank
    fuse_agent_control_plane.Signer.AuthorizationStore.utf16_length
    fuse_agent_control_plane.Signer.AuthorizationStore.is_fingerprint
    fuse_agent_control_plane.Signer.AuthorizationStore.is_nonce
    fuse_agent_control_plane.Signer.AuthorizationStore.validate_timestamp lookup
    fuse_agent_control_plane.Signer.AuthorizationStore.Operations.reserve_under
    fuse_agent_control_plane.Signer.AuthorizationStore.lower
    fuse_agent_control_plane.Signer.AuthorizationStore.Operations.reserve_new
    fuse_agent_control_plane.Base.◌+ℤ◌
second_too_large = refl

reserve_twice_example : reserve parse_time store_1 input_1 ≡ ok (store_1, in_progress)
reserve_twice_example = reserve_twice parse_time empty_store input_1 reserved_first

abbrev signer_calls : List Call
signer_calls = reserves input_1 ∷ reserves input_2 ∷ completes "o" "r1" "0x" "now" ∷ []

authority_bounded_example :
    (amounts_of "o" (run parse_time empty_store signer_calls).authorizations
      ≡ reserved_of (lookup "o" (run parse_time empty_store signer_calls).limits))
    × (reserved_of (lookup "o" (run parse_time empty_store signer_calls).limits)
        ≤ℤ maximum_of (lookup "o" (run parse_time empty_store signer_calls).limits))
authority_bounded_example = authority_bounded parse_time signer_calls "o"
