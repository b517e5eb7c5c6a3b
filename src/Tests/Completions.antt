-- ===== src/Tests/Completions.antt =====
-- src/core/pricing.ts and src/core/service.ts on one completion of the service's own demonstration.
use fuse_agent_control_plane.Base.{
  ℕ, ◌*◌, ◌≤◌, ℤ, pos, ◌+ℤ◌, ◌≤ℤ◌, int, int_laws, Option, none, some, lookup, List, [], ◌∷◌, String,
  Result, ok, err, AllValues, ◌≡◌, refl, arith,
}
use fuse_agent_control_plane.Core.Circuit.{
  CircuitConfig, CircuitResult, healthy, allow, allowed, new_circuit,
}
use fuse_agent_control_plane.Core.Ledger.{
  Account, Reservation, reserved, reconciled, LedgerConfig, FuseLedger, new_account, new_ledger,
  reclaim_available,
}
use fuse_agent_control_plane.Core.Pricing.{
  TokenPrice, calculate_cost_micros, calculate_maximum_cost_micros, decimal_to_scaled, ceil_div,
  scale,
}
use fuse_agent_control_plane.Core.Pricing.Bounds.{cost_within_maximum}
use fuse_agent_control_plane.Core.Service.{
  CompletionRequest, ProviderResult, Pending, FuseService, ServiceError, ReleasedCompletion,
  dispatched, amount_to_reserve, begin_completion, finish_completion,
}
use fuse_agent_control_plane.Core.Service.Release.{release_paid_completion}
use fuse_agent_control_plane.Core.Service.Accounts.{complete-release}
use fuse_agent_control_plane.Core.Service.Replays.{release_again}

abbrev demo_price : TokenPrice
demo_price = record { input_usd_per_million = "3.00"; output_usd_per_million = "15.00" }

three_dollars : decimal_to_scaled "3.00" ≡ ok 3000000
unfolding decimal_to_scaled
three_dollars = refl

maximum_of_request :
    calculate_maximum_cost_micros
      (record { input_tokens = int (pos 100); max_output_tokens = int (pos 50) })
      demo_price
    ≡ ok 1050
unfolding calculate_maximum_cost_micros calculate_cost_micros
    fuse_agent_control_plane.Core.Pricing.token_cost_micros decimal_to_scaled ceil_div
maximum_of_request = refl

cost_within_maximum_example :
    (cost : ℕ) × (calculate_cost_micros
        (record { input_tokens = int (pos 100); output_tokens = int (pos 20) })
        demo_price
      ≡ ok cost)
    × (cost ≤ 1050)
cost_within_maximum_example =
    cost_within_maximum 100 20 100 50 demo_price (omega arith) (omega arith) maximum_of_request

abbrev demo_config : LedgerConfig
demo_config = record {
  mandate_id = "demo-mandate";
  maximum_spend_micros = pos 250000;
  children = ("scout", pos 60000) ∷ ("builder", pos 120000) ∷ ("reviewer", pos 50000) ∷ [];
}

abbrev demo_ledger : FuseLedger
demo_ledger = record {
  mandate_id = "demo-mandate";
  root = new_account (pos 250000);
  children =
      ("scout", new_account (pos 60000))
      ∷ ("builder", new_account (pos 120000))
      ∷ ("reviewer", new_account (pos 50000))
      ∷ [];
  reservations = [];
}

abbrev demo_circuit : CircuitConfig
demo_circuit = record { per_call_ceiling_micros = pos 50000; minimum_spike_delta_micros = pos 1 }

abbrev demo : FuseService
demo = record {
  ledger = demo_ledger;
  price = demo_price;
  payer_wallet = "0xDemoParentWallet";
  circuits = ("scout", new_circuit demo_circuit) ∷ [];
  pending = [];
}

abbrev demo_request : CompletionRequest
demo_request = record {
  request_id = "r1";
  child_id = "scout";
  model = "gpt";
  input_tokens = int (pos 100);
  max_output_tokens = int (pos 50);
  messages = [];
}

abbrev demo_result : ProviderResult
demo_result = record {
  id = "p1";
  content = "done";
  usage = record { input_tokens = int (pos 100); output_tokens = int (pos 20) };
  provider_cost_usd = none;
  provider_model = none;
}

abbrev begun : FuseService
begun = (begin_completion demo demo_request).0

abbrev finished : FuseService
finished = (finish_completion begun demo_request demo_result).0

no_reservation : lookup "r1" demo_ledger.reservations ≡ none
unfolding lookup
no_reservation = refl

amount_known : amount_to_reserve demo demo_request ≡ ok 1050
unfolding release_paid_completion fuse_agent_control_plane.Base.lookup finish_completion
    calculate_cost_micros fuse_agent_control_plane.Core.Pricing.token_cost_micros decimal_to_scaled
    begin_completion fuse_agent_control_plane.Core.Service.amount_to_reserve new_circuit
    calculate_maximum_cost_micros fuse_agent_control_plane.Core.Ledger.reserve ceil_div
    fuse_agent_control_plane.Core.Ledger.available fuse_agent_control_plane.Base.◌-ℤ◌
    fuse_agent_control_plane.Core.Circuit.evaluate fuse_agent_control_plane.Base.insert
    fuse_agent_control_plane.Core.Service.Release.release_pending fuse_agent_control_plane.Base.◌*ℤ◌
    ◌+ℤ◌ fuse_agent_control_plane.Core.Circuit.is_spike
    fuse_agent_control_plane.Core.Circuit.record_cost reclaim_available
    fuse_agent_control_plane.Core.Ledger.reconcile
    fuse_agent_control_plane.Core.Service.finish_evaluated
    fuse_agent_control_plane.Core.Service.Release.receipt_of
    fuse_agent_control_plane.Core.Service.Release.release_with
amount_known = refl

first_half : begin_completion demo demo_request ≡ (begun, ok dispatched)
unfolding release_paid_completion fuse_agent_control_plane.Base.lookup finish_completion
    calculate_cost_micros fuse_agent_control_plane.Core.Pricing.token_cost_micros decimal_to_scaled
    begin_completion fuse_agent_control_plane.Core.Service.amount_to_reserve new_circuit
    calculate_maximum_cost_micros fuse_agent_control_plane.Core.Ledger.reserve ceil_div
    fuse_agent_control_plane.Core.Ledger.available fuse_agent_control_plane.Base.◌-ℤ◌
    fuse_agent_control_plane.Core.Circuit.evaluate fuse_agent_control_plane.Base.insert
    fuse_agent_control_plane.Core.Service.Release.release_pending fuse_agent_control_plane.Base.◌*ℤ◌
    ◌+ℤ◌ fuse_agent_control_plane.Core.Circuit.is_spike
    fuse_agent_control_plane.Core.Circuit.record_cost reclaim_available
    fuse_agent_control_plane.Core.Ledger.reconcile
    fuse_agent_control_plane.Core.Service.finish_evaluated
    fuse_agent_control_plane.Core.Service.Release.receipt_of
    fuse_agent_control_plane.Core.Service.Release.release_with
first_half = refl

second_half : finish_completion begun demo_request demo_result ≡ (finished, ok 600)
unfolding release_paid_completion fuse_agent_control_plane.Base.lookup finish_completion
    calculate_cost_micros fuse_agent_control_plane.Core.Pricing.token_cost_micros decimal_to_scaled
    begin_completion fuse_agent_control_plane.Core.Service.amount_to_reserve new_circuit
    calculate_maximum_cost_micros fuse_agent_control_plane.Core.Ledger.reserve ceil_div
    fuse_agent_control_plane.Core.Ledger.available fuse_agent_control_plane.Base.◌-ℤ◌
    fuse_agent_control_plane.Core.Circuit.evaluate fuse_agent_control_plane.Base.insert
    fuse_agent_control_plane.Core.Service.Release.release_pending fuse_agent_control_plane.Base.◌*ℤ◌
    ◌+ℤ◌ fuse_agent_control_plane.Core.Circuit.is_spike
    fuse_agent_control_plane.Core.Circuit.record_cost reclaim_available
    fuse_agent_control_plane.Core.Ledger.reconcile
    fuse_agent_control_plane.Core.Service.finish_evaluated
    fuse_agent_control_plane.Core.Service.Release.receipt_of
    fuse_agent_control_plane.Core.Service.Release.release_with
second_half = refl

complete-release_example :
    (s' : FuseService) × (answer : ReleasedCompletion) × (child child' : Account)
    × (release_paid_completion finished "r1" "0xpaid" ≡ (s', ok answer))
    × (answer.receipt.cost_micros ≡ 600)
    × (s'.ledger.root.reserved_micros ≡ pos 0)
    × (s'.ledger.root.settled_micros ≡ pos 0 +ℤ pos 600)
    × (lookup "scout" demo_ledger.children ≡ some child)
    × (lookup "scout" s'.ledger.children ≡ some child')
    × (child'.reserved_micros ≡ child.reserved_micros)
    × (child'.settled_micros ≡ child.settled_micros +ℤ pos 600)
complete-release_example =
    complete-release demo demo_request demo_result "0xpaid" no_reservation amount_known first_half
      second_half (omega arith)

abbrev held : Account → Account
held a = record a { reserved_micros = pos 1050 }

abbrev paid_for : Account → Account
paid_for a = record a { settled_micros = pos 600 }

abbrev reservation : Reservation
reservation = record {
  request_id = "r1";
  child_id = "scout";
  maximum_micros = pos 1050;
  actual_micros = none;
  status = reserved;
}

abbrev allowed_at_600 : CircuitResult
allowed_at_600 = record {
  state = healthy;
  decision = allow;
  reason = allowed;
  current_cost_micros = pos 600;
  baseline_cost_micros = some (pos 600);
  ratio = some (pos 600, pos 600);
  consecutive_violations = 0;
}

abbrev waiting : Pending
waiting = record {
  request = demo_request;
  result = demo_result;
  exact_cost_micros = 600;
  circuit = allowed_at_600;
  released = none;
}

abbrev waiting_service : FuseService
waiting_service = record demo {
  ledger = record demo_ledger {
    root = held (new_account (pos 250000));
    children = ("scout", held (new_account (pos 60000))) ∷ [];
    reservations = ("r1", reservation) ∷ [];
  };
  pending = ("r1", waiting) ∷ [];
}

abbrev paid_completion : ReleasedCompletion
paid_completion = record {
  response = demo_result;
  receipt = record {
    request_id = "r1";
    child_id = "scout";
    payer_wallet = "0xDemoParentWallet";
    input_tokens = int (pos 100);
    output_tokens = int (pos 20);
    cost_micros = 600;
    authorization_hash = "0xpaid";
    circuit_state = healthy;
    circuit_reason = allowed;
    reclaimed_micros = none;
  };
}

abbrev paid_service : FuseService
paid_service = record demo {
  ledger = record demo_ledger {
    root = paid_for (new_account (pos 250000));
    children = ("scout", paid_for (new_account (pos 60000))) ∷ [];
    reservations =
        ("r1", record reservation { actual_micros = some (pos 600); status = reconciled }) ∷ [];
  };
  pending = ("r1", record waiting { released = some paid_completion }) ∷ [];
}

first_release :
    release_paid_completion waiting_service "r1" "0xpaid" ≡ (paid_service, ok paid_completion)
unfolding release_paid_completion fuse_agent_control_plane.Base.lookup
    fuse_agent_control_plane.Core.Service.Release.release_pending
    fuse_agent_control_plane.Core.Ledger.reconcile fuse_agent_control_plane.Base.◌-ℤ◌ ◌+ℤ◌
    fuse_agent_control_plane.Base.insert
first_release = refl

release_again_example :
    release_paid_completion paid_service "r1" "0xother" ≡ (paid_service, ok paid_completion)
release_again_example = release_again waiting_service "r1" "0xpaid" "0xother" first_release
