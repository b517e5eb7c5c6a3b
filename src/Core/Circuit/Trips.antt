-- ===== src/Core/Circuit/Trips.antt =====
-- When a circuit trips, and what stays true of it.
use fuse_agent_control_plane.Base.{
  ℤ, ltb_ℤ, ◌≡◌, refl, ap, ◌∙◌, Bool, true, false, ◌&&◌, ◌||◌, some, List, [], ◌∷◌, ok, arith, ◌⊎◌,
  if◌then◌else◌,
}
use fuse_agent_control_plane.Core.Circuit.{
  CircuitConfig, CircuitResult, BranchCircuit, healthy, elevated, tripped, allow, trip, is_tripped,
  new_circuit, from_state, snapshot, is_spike, evaluate, after, run,
}

-- The state tells how many violations stand in a row.
pub record IsConsistent (b : BranchCircuit) : Type 0 where
  pub healthy_zero : b.state ≡ healthy → b.consecutive_violations ≡ 0
  pub elevated_one : b.state ≡ elevated → b.consecutive_violations ≡ 1

-- A call keeps the state and the violation counter of a circuit consistent.
evaluate-IsConsistent :
    (b : BranchCircuit) (c : ℤ) → IsConsistent b → IsConsistent (after b (evaluate b c))
unfolding evaluate
evaluate-IsConsistent b c h = ground arith

-- An evaluation that is allowed leaves the circuit closed and was under the ceiling; one that
-- trips leaves it tripped, for the ceiling or for a second spike in a row.
evaluate_outcome :
    (b : BranchCircuit) (c : ℤ) {b' : BranchCircuit} {r : CircuitResult}
    → IsConsistent b
    → evaluate b c ≡ ok (b', r)
    → (r.decision ≡ allow)
        × (is_tripped b'.state ≡ false)
        × (ltb_ℤ b.config.per_call_ceiling_micros c ≡ false)
      ⊎ (r.decision ≡ trip)
        × (b'.state ≡ tripped)
        × ((ltb_ℤ b.config.per_call_ceiling_micros c ≡ true)
            ⊎ (b.state ≡ elevated) × (is_spike b.config b.previous_cost_micros c ≡ true))
unfolding evaluate
evaluate_outcome b c h e = ground arith

-- Specification over the list of costs alone.
module _ (config : CircuitConfig) where
  abbrev pub is_over : ℤ → Bool
  is_over c = ltb_ℤ config.per_call_ceiling_micros c

  abbrev pub spikes_next : ℤ → List ℤ → Bool
  spikes_next a [] = false
  spikes_next a (b ∷ rest) = is_spike config (some a) b

  abbrev pub accelerates : ℤ → List ℤ → Bool
  accelerates a [] = false
  accelerates a (b ∷ rest) = is_spike config (some a) b && spikes_next b rest

  -- Some cost is over the ceiling, or two in a row spike.
  abbrev pub must_trip : List ℤ → Bool
  must_trip [] = false
  must_trip (a ∷ rest) = is_over a || accelerates a rest || must_trip rest

run_tripped : (b : BranchCircuit) (cs : List ℤ) → b.state ≡ tripped → run b cs ≡ b
unfolding run evaluate
run_tripped b [] h = refl
run_tripped b (c ∷ cs) h =
    let stays : after b (evaluate b c) ≡ b = rw (h, evaluate) in rw stays (run_tripped b cs h)

-- The circuit between two calls, whose last call spiked or not, and cost `a`.
abbrev between : CircuitConfig → Bool → ℤ → BranchCircuit
between config spiked a = record {
  state = if spiked then elevated else healthy;
  previous_cost_micros = some a;
  consecutive_violations = if spiked then 1 else 0;
  config = config;
}

abbrev shut_down : BranchCircuit → BranchCircuit
shut_down b = record b { state = tripped }

abbrev second_spike : CircuitConfig → ℤ → BranchCircuit
second_spike config c = record (between config true c) {
  state = tripped;
  consecutive_violations = 2;
}

abbrev next_circuit : BranchCircuit → ℤ → BranchCircuit
next_circuit b c = after b (evaluate b c)

next-between :
    (config : CircuitConfig) (spiked : Bool) (a c : ℤ)
    → next_circuit (between config spiked a) c ≡ (
        if is_over config c
        then shut_down (between config spiked a)
        else if is_spike config (some a) c
        then (if spiked then second_spike config c else between config true c)
        else between config false c)
unfolding evaluate
next-between config true a c = ground arith
next-between config false a c = ground arith

trips_after :
    {b b' : BranchCircuit} (cs : List ℤ)
    → b ≡ b'
    → is_tripped (run b cs).state ≡ is_tripped (run b' cs).state
trips_after cs e = ap (λ b. is_tripped (run b cs).state) e

run-between :
    (config : CircuitConfig) (spiked : Bool) (a : ℤ) (cs : List ℤ)
    → is_tripped (run (between config spiked a) cs).state ≡ (
        (if spiked then spikes_next config a cs else accelerates config a cs)
        || must_trip config cs)
unfolding run
run-between config true a [] = refl
run-between config false a [] = refl
run-between config true a (c ∷ cs) =
    trips_after cs (next-between config true a c)
    ∙ ground (
      arith,
      run_tripped (shut_down (between config true a)) cs refl,
      run_tripped (second_spike config c) cs refl,
      run-between config false c cs,
    )
run-between config false a (c ∷ cs) =
    trips_after cs (next-between config false a c)
    ∙ ground (
      arith,
      run_tripped (shut_down (between config false a)) cs refl,
      run-between config true c cs,
      run-between config false c cs,
    )

next-new :
    (config : CircuitConfig) (c : ℤ)
    → next_circuit (new_circuit config) c
      ≡ (if is_over config c then shut_down (new_circuit config) else between config false c)
unfolding evaluate new_circuit is_spike
next-new config c = ground arith

-- A new circuit trips on a list of costs exactly when one is over the ceiling or two in a row are
-- spikes, each of the cost before it.
pub run_trips :
    (config : CircuitConfig) (cs : List ℤ)
    → is_tripped (run (new_circuit config) cs).state ≡ must_trip config cs
unfolding run
run_trips config [] = unfold new_circuit in refl
run_trips config (c ∷ cs) =
    trips_after cs (next-new config c)
    ∙ ground
        (arith, run_tripped (shut_down (new_circuit config)) cs refl, run-between config false c cs)

-- What a store keeps of a circuit is all of it: the circuit made from its snapshot is the same.
pub from_state-snapshot : (b : BranchCircuit) → from_state b.config (snapshot b) ≡ b
unfolding from_state snapshot
from_state-snapshot b = refl

-- The first evaluation of a new circuit, if its cost is not over the ceiling, names its own cost as
-- the baseline, though there is no cost before it.
pub evaluate-new_circuit :
    (config : CircuitConfig) (c : ℤ) {b : BranchCircuit} {r : CircuitResult}
    → ltb_ℤ config.per_call_ceiling_micros c ≡ false
    → evaluate (new_circuit config) c ≡ ok (b, r)
    → (r.baseline_cost_micros ≡ some c) × (b.previous_cost_micros ≡ some c)
unfolding evaluate new_circuit is_spike
evaluate-new_circuit config c h e = ground arith
