-- ===== src/Core/Circuit.antt =====
-- src/core/circuit.ts, the class BranchCircuit. A method returns the new circuit with its result,
-- or the error that it throws.
pub mod Trips
use fuse_agent_control_plane.Base.{
  ℕ, ◌+◌, ℤ, pos, ◌*ℤ◌, ◌-ℤ◌, ltb_ℤ, leb_ℤ, leb, Bool, true, false, ◌&&◌, Option, none, some, List,
  [], ◌∷◌, Result, ok, err, ◌>>=◌, ◌>>◌, throw_if, if◌then◌else◌,
}

pub data CircuitState : Type 0 where
  healthy elevated tripped : CircuitState

pub data CircuitReason : Type 0 where
  allowed absolute_call_limit repeated_cost_acceleration : CircuitReason

pub data Decision : Type 0 where
  allow trip : Decision

pub data CircuitError : Type 0 where
  branch_tripped : CircuitError

-- `ratio` is a quotient of two floats in the code; here it is the pair of integers divided.
pub record CircuitResult : Type 0 where
  pub state : CircuitState
  pub decision : Decision
  pub reason : CircuitReason
  pub current_cost_micros : ℤ
  pub baseline_cost_micros : Option ℤ
  pub ratio : Option (ℤ × ℤ)
  pub consecutive_violations : ℕ

pub record CircuitStateSnapshot : Type 0 where
  pub state : CircuitState
  pub consecutive_violations : ℕ
  pub previous_cost_micros : Option ℤ

pub record CircuitConfig : Type 0 where
  pub per_call_ceiling_micros : ℤ
  pub minimum_spike_delta_micros : ℤ

pub record BranchCircuit : Type 0 where
  pub state : CircuitState
  pub previous_cost_micros : Option ℤ
  pub consecutive_violations : ℕ
  pub config : CircuitConfig

abbrev pub is_tripped : CircuitState → Bool
is_tripped tripped = true
is_tripped _ = false

unfoldable pub new_circuit : CircuitConfig → BranchCircuit
new_circuit c = record {
  state = healthy;
  previous_cost_micros = none;
  consecutive_violations = 0;
  config = c;
}

unfoldable pub from_state : CircuitConfig → CircuitStateSnapshot → BranchCircuit
unfolding new_circuit
from_state c s = record (new_circuit c) {
  state = s.state;
  consecutive_violations = s.consecutive_violations;
  previous_cost_micros = s.previous_cost_micros;
}

unfoldable pub snapshot : BranchCircuit → CircuitStateSnapshot
snapshot b = record {
  state = b.state;
  consecutive_violations = b.consecutive_violations;
  previous_cost_micros = b.previous_cost_micros;
}

unfoldable pub assert_open : BranchCircuit → Result CircuitError (Unit {0})
assert_open b = throw_if (is_tripped b.state) branch_tripped

-- A default parameter takes the place of an argument that is `undefined`.
abbrev default_to : Option ℤ → Option ℤ → Option ℤ
default_to none d = d
default_to (some v) d = some v

abbrev ratio_of : ℤ → Option ℤ → Option (ℤ × ℤ)
ratio_of current none = none
ratio_of current (some base) = if ltb_ℤ (pos 0) base then some (current, base) else none

-- The private method `result`, on the circuit as it stands when it is called.
pub result : BranchCircuit → ℤ → Decision → CircuitReason → Option ℤ → CircuitResult
result b current d r baseline =
    let base = default_to baseline b.previous_cost_micros in
    record {
      state = b.state;
      decision = d;
      reason = r;
      current_cost_micros = current;
      baseline_cost_micros = base;
      ratio = ratio_of current base;
      consecutive_violations = b.consecutive_violations;
    }

-- `isSpike` of `evaluate`.
unfoldable pub is_spike : CircuitConfig → Option ℤ → ℤ → Bool
is_spike c none current = false
is_spike c (some base) current =
    leb_ℤ (base *ℤ pos 4) current && leb_ℤ c.minimum_spike_delta_micros (current -ℤ base)

-- The state that `evaluate` leaves behind after a call under the ceiling.
unfoldable pub record_cost : BranchCircuit → ℤ → BranchCircuit
record_cost b current =
    if is_spike b.config b.previous_cost_micros current
    then record b {
      previous_cost_micros = some current;
      consecutive_violations = b.consecutive_violations + 1;
      state = if leb 2 (b.consecutive_violations + 1) then tripped else elevated;
    }
    else record b {
      previous_cost_micros = some current;
      consecutive_violations = 0;
      state = healthy;
    }

unfoldable pub evaluate : BranchCircuit → ℤ → Result CircuitError (BranchCircuit × CircuitResult)
unfolding record_cost result
evaluate b current =
    throw_if (is_tripped b.state) branch_tripped
    >> (let over = record b { state = tripped } in
        let closed = record_cost b current in
        if ltb_ℤ b.config.per_call_ceiling_micros current
        then ok (over, result over current trip absolute_call_limit none)
        else ok (
            if is_tripped closed.state
            then (
              closed,
              result closed current trip repeated_cost_acceleration b.previous_cost_micros,
            )
            else (closed, result closed current allow allowed b.previous_cost_micros)))

-- The circuit after a call; one that throws leaves it alone.
abbrev pub after :
    BranchCircuit → Result CircuitError (BranchCircuit × CircuitResult) → BranchCircuit
after b (ok (b', r)) = b'
after b (err e) = b

unfoldable pub run : BranchCircuit → List ℤ → BranchCircuit
run b [] = b
run b (c ∷ cs) = run (after b (evaluate b c)) cs
