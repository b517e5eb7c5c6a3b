-- ===== src/Tests/Circuit.antt =====
-- src/core/circuit.ts on concrete costs.
use fuse_agent_control_plane.Base.{
  ℤ, pos, Bool, true, false, List, [], ◌∷◌, ok, none, some, ◌≡◌, refl, ltb_ℤ, inl, inr, ◌⊎◌,
}
use fuse_agent_control_plane.Core.Circuit.{
  CircuitState, elevated, allow, allowed, CircuitConfig, CircuitResult, BranchCircuit, is_tripped,
  is_spike, new_circuit, evaluate, run,
}
use fuse_agent_control_plane.Core.Circuit.Trips.{
  must_trip, run_trips, IsConsistent, evaluate-new_circuit,
}

abbrev test_config : CircuitConfig
test_config = record { per_call_ceiling_micros = pos 1000; minimum_spike_delta_micros = pos 20 }

abbrev spiking_costs : List ℤ
spiking_costs = pos 10 ∷ pos 50 ∷ pos 300 ∷ pos 5 ∷ []

abbrev elevated_circuit : BranchCircuit
elevated_circuit = record {
  state = elevated;
  previous_cost_micros = some (pos 50);
  consecutive_violations = 1;
  config = test_config;
}

elevated_circuit-IsConsistent : IsConsistent elevated_circuit
elevated_circuit-IsConsistent = record { healthy_zero = λ e. cc; elevated_one = λ e. refl }

two_spikes_trip : is_tripped (run (new_circuit test_config) spiking_costs).state ≡ true
unfolding run new_circuit evaluate is_spike fuse_agent_control_plane.Base.◌*ℤ◌
    fuse_agent_control_plane.Base.◌-ℤ◌
two_spikes_trip = refl

one_spike_recovers :
    is_tripped (run (new_circuit test_config) (pos 10 ∷ pos 50 ∷ pos 60 ∷ [])).state ≡ false
unfolding run new_circuit evaluate is_spike fuse_agent_control_plane.Base.◌*ℤ◌
    fuse_agent_control_plane.Base.◌-ℤ◌
one_spike_recovers = refl

run_trips_example :
    is_tripped (run (new_circuit test_config) spiking_costs).state
    ≡ must_trip test_config spiking_costs
run_trips_example = run_trips test_config spiking_costs

abbrev circuit_at_60 : BranchCircuit
circuit_at_60 = record elevated_circuit {
  state = CircuitState.healthy;
  previous_cost_micros = some (pos 60);
  consecutive_violations = 0;
}

abbrev result_at_60 : CircuitResult
result_at_60 = record {
  state = CircuitState.healthy;
  decision = allow;
  reason = allowed;
  current_cost_micros = pos 60;
  baseline_cost_micros = some (pos 50);
  ratio = some (pos 60, pos 50);
  consecutive_violations = 0;
}

evaluate_at_60 : evaluate elevated_circuit (pos 60) ≡ ok (circuit_at_60, result_at_60)
unfolding evaluate is_spike fuse_agent_control_plane.Base.◌*ℤ◌
evaluate_at_60 = refl

abbrev first_circuit : BranchCircuit
first_circuit = record (new_circuit test_config) { previous_cost_micros = some (pos 10) }

abbrev first_result : CircuitResult
first_result = record {
  state = CircuitState.healthy;
  decision = allow;
  reason = allowed;
  current_cost_micros = pos 10;
  baseline_cost_micros = some (pos 10);
  ratio = some (pos 10, pos 10);
  consecutive_violations = 0;
}

first_evaluation : evaluate (new_circuit test_config) (pos 10) ≡ ok (first_circuit, first_result)
unfolding evaluate new_circuit is_spike
first_evaluation = refl

evaluate-new_circuit_example :
    (first_result.baseline_cost_micros ≡ some (pos 10))
    × (first_circuit.previous_cost_micros ≡ some (pos 10))
evaluate-new_circuit_example = evaluate-new_circuit test_config (pos 10) refl first_evaluation
