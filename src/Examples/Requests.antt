-- ===== src/Examples/Requests.antt =====
-- The validation and the simulator at the circuit of Examples/Compile.
use sim_core.Prelude.{◌≡◌, refl, true, [], ◌∷◌, none, arith}
use sim_core.Validation.Report.{is_valid}
use sim_core.Validation.Nets.{check_nets}
use sim_core.Validation.Circuit.{check_components, validate_circuit}
use sim_core.Validation.Sound.{IsAccepted, validate_circuit-IsAccepted}
use sim_core.Registry.{simulate_with_control}
use sim_core.Registry.Chosen.{IsAnswer, simulate_with_control-IsAnswer}
use sim_core.Registry.Digital.{
  digital_engine, IsDigitalOutcome, simulate_with_control-IsDigitalOutcome,
}
use sim_core.Examples.Digital.{halves, quiet}
use sim_core.Examples.Compile.{casts, inverted, request}

valid : is_valid (validate_circuit halves inverted) ≡ true
unfolding is_valid validate_circuit check_components check_nets
valid = refl

validate_circuit-IsAccepted_example : IsAccepted halves inverted
validate_circuit-IsAccepted_example = validate_circuit-IsAccepted halves inverted valid

simulate_with_control-IsAnswer_example :
    IsAnswer halves
      (digital_engine casts 1_000_001 none ∷ [])
      request
      quiet
      (simulate_with_control halves (digital_engine casts 1_000_001 none ∷ []) request quiet)
simulate_with_control-IsAnswer_example =
    simulate_with_control-IsAnswer halves (digital_engine casts 1_000_001 none ∷ []) request quiet

simulate_with_control-IsDigitalOutcome_example :
    IsDigitalOutcome casts request
      (simulate_with_control halves (digital_engine casts 1_000_001 none ∷ []) request quiet)
simulate_with_control-IsDigitalOutcome_example =
    simulate_with_control-IsDigitalOutcome casts 1_000_001 none request quiet (omega arith)
