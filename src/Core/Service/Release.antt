-- ===== src/Core/Service/Release.antt =====
-- `releasePaidCompletion` of src/core/service.ts.
use fuse_agent_control_plane.Base.{
  ℤ, pos, ltb_ℤ, Option, none, some, String, lookup, insert, Result, ok, err, if◌then◌else◌,
}
use fuse_agent_control_plane.Core.Circuit.{is_tripped}
use fuse_agent_control_plane.Core.Ledger.{
  FuseLedger, Reservation, LedgerError, reconcile, reclaim_available,
}
use fuse_agent_control_plane.Core.Service.{
  Receipt, ReleasedCompletion, Pending, FuseService, ServiceError, pending_completion_not_found,
  of_ledger,
}

unfoldable pub receipt_of : FuseService → String → Pending → String → ℤ → Receipt
receipt_of s request_id p authorization_hash reclaimed = record {
  request_id = request_id;
  child_id = p.request.child_id;
  payer_wallet = s.payer_wallet;
  input_tokens = p.result.usage.input_tokens;
  output_tokens = p.result.usage.output_tokens;
  cost_micros = p.exact_cost_micros;
  authorization_hash = authorization_hash;
  circuit_state = p.circuit.state;
  circuit_reason = p.circuit.reason;
  reclaimed_micros = if ltb_ℤ (pos 0) reclaimed then some reclaimed else none;
}

abbrev pub released_of : FuseService → String → Pending → String → ℤ → ReleasedCompletion
released_of s request_id p authorization_hash reclaimed = record {
  response = p.result;
  receipt = receipt_of s request_id p authorization_hash reclaimed;
}

-- The end of `releasePaidCompletion`, once the ledger is done with.
unfoldable pub release_with :
    FuseService
    → String
    → Pending
    → String
    → FuseLedger
    → ℤ
    → FuseService × Result ServiceError ReleasedCompletion
unfolding receipt_of
release_with s request_id p authorization_hash ledger reclaimed = (
  record s {
    ledger = ledger;
    pending =
        insert request_id
          (record p { released = some (released_of s request_id p authorization_hash reclaimed) })
          s.pending;
  },
  ok (released_of s request_id p authorization_hash reclaimed),
)

abbrev after_reclaim :
    FuseService
    → String
    → Pending
    → String
    → FuseLedger
    → Result LedgerError (FuseLedger × ℤ)
    → FuseService × Result ServiceError ReleasedCompletion
after_reclaim s request_id p hash ledger (ok (ledger', reclaimed)) =
    release_with s request_id p hash ledger' reclaimed
after_reclaim s request_id p hash ledger (err e) = (record s { ledger = ledger }, err (of_ledger e))

abbrev after_reconcile :
    FuseService
    → String
    → Pending
    → String
    → Result LedgerError (FuseLedger × Reservation)
    → FuseService × Result ServiceError ReleasedCompletion
after_reconcile s request_id p hash (ok (ledger, reservation)) =
    if is_tripped p.circuit.state
    then after_reclaim s request_id p hash ledger (reclaim_available ledger p.request.child_id)
    else release_with s request_id p hash ledger (pos 0)
after_reconcile s request_id p hash (err e) = (s, err (of_ledger e))

unfoldable pub release_pending :
    FuseService
    → String
    → Pending
    → Option ReleasedCompletion
    → String
    → FuseService × Result ServiceError ReleasedCompletion
unfolding release_with
release_pending s request_id p (some released) hash = (s, ok released)
release_pending s request_id p none hash =
    after_reconcile s request_id p hash (reconcile s.ledger request_id (pos p.exact_cost_micros))

abbrev pub release_found :
    FuseService
    → String
    → Option Pending
    → String
    → FuseService × Result ServiceError ReleasedCompletion
release_found s request_id none hash = (s, err pending_completion_not_found)
release_found s request_id (some p) hash = release_pending s request_id p p.released hash

unfoldable pub release_paid_completion :
    FuseService → String → String → FuseService × Result ServiceError ReleasedCompletion
release_paid_completion s request_id hash =
    release_found s request_id (lookup request_id s.pending) hash
