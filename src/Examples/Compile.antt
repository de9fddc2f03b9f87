-- ===== src/Examples/Compile.antt =====
-- The compiler and the digital engine of src/digital.rs at a concrete circuit: a constant level, an
-- inverter with a delay of 2 ps and a sink.
use sim_core.Prelude.{ℕ, ◌*◌, ◌%◌, ◌==◌, ◌≡◌, refl, String, false, [], ◌∷◌, none, arith}
use sim_core.Prelude.Int.{ℤ, pos, negsuc}
use sim_core.Prelude.Map.{string_key, pair_key}
use sim_core.Prelude.Result.{ok}
use sim_core.Float.{Casts}
use sim_core.Logic.{high, unknown, inverter}
use sim_core.Primitive.{constant, gate, sink}
use sim_core.Circuit.{
  Circuit, Pin, NetEndpoint, digital_domain, input_pin, output_pin, PinDirection, number, text,
}
use sim_core.Analysis.{Analysis, SimulationRequest}
use sim_core.Prelude.Trim.{trim}
use sim_core.Program.{DigitalProgram}
use sim_core.Program.Parameters.{required_logic_value, optional_non_negative_seconds}
use sim_core.Program.Compile.{compile, net_ids, no_nets, EndpointNets, endpoint_net_map}
use sim_core.Program.Compile.Wired.{IsWired, EachCompiled}
use sim_core.Program.Compile.Steps.{compile-IsWired}
use sim_core.Program.Compile.Sound.{IsSound, compile-IsSound}
use sim_core.Program.Compile.Endpoints.{Joins, all_endpoints, endpoint_net_map-Joins}
use sim_core.Prelude.Loop.{Returns}
use sim_core.Engine.{run_engine}
use sim_core.Engine.Recorded.{Recorded, run_engine-Recorded}
use sim_core.Engine.Simulate.{simulate_digital}
use sim_core.Engine.Simulate.Answers.{Answers, IsResult, simulate_digital-Answers}
use sim_core.Examples.Digital.{halves, quiet}

abbrev halves_of : ℤ → ℕ
halves_of (pos n) = 2 * n
halves_of (negsuc n) = 0

abbrev pub casts : Casts halves
casts = record { of_integer = halves_of; one = 2; half = 1; is_whole = λ a. a % 2 == 0 }

abbrev pin : String → PinDirection → Pin
pin id direction = record { id = id; name = id; domain = digital_domain; direction = direction }

abbrev at : String → String → NetEndpoint
at component id = record { component = component; pin = id }

abbrev pub inverted : Circuit ℕ
inverted = record {
  schema_version = 1;
  title = none;
  components =
      record {
        id = "src";
        kind = "logic_input";
        pins = pin "out" output_pin ∷ [];
        parameters = ("value", text " High ") ∷ [];
      }
      ∷ record {
        id = "inv";
        kind = "not_gate";
        pins = pin "in" input_pin ∷ pin "out" output_pin ∷ [];
        parameters = ("delay", number 4) ∷ [];
      }
      ∷ record {
        id = "led";
        kind = "logic_output";
        pins = pin "in" input_pin ∷ [];
        parameters = [];
      }
      ∷ [];
  nets =
      record { id = "a"; label = none; endpoints = at "src" "out" ∷ at "inv" "in" ∷ [] }
      ∷ record { id = "y"; label = none; endpoints = at "inv" "out" ∷ at "led" "in" ∷ [] }
      ∷ [];
  models = [];
}

abbrev pub request : SimulationRequest ℕ
request = record { circuit = inverted; analysis = Analysis.digital_transient 200; probes = [] }

abbrev program : DigitalProgram ℕ
program = record {
  components =
      record {
        primitive = constant high;
        input_nets = [];
        output_nets = ("out", "a") ∷ [];
        delay = 0;
        initial_scalar = unknown;
        initial_vector = [];
      }
      ∷ record {
        primitive = gate inverter;
        input_nets = ("in", "a") ∷ [];
        output_nets = ("out", "y") ∷ [];
        delay = 4;
        initial_scalar = unknown;
        initial_vector = [];
      }
      ∷ record {
        primitive = sink;
        input_nets = ("in", "y") ∷ [];
        output_nets = [];
        delay = 0;
        initial_scalar = unknown;
        initial_vector = [];
      }
      ∷ [];
  dependents = ("a", 1 ∷ []) ∷ ("y", 2 ∷ []) ∷ [];
  net_drivers =
      ("a", record { component = 0; output = 0 } ∷ [])
      ∷ ("y", record { component = 1; output = 0 } ∷ [])
      ∷ [];
  nets = "a" ∷ "y" ∷ [];
  probes = record { signal = "net:a"; net = "a" } ∷ record { signal = "net:y"; net = "y" } ∷ [];
}

compiled : compile casts request ≡ ok program
unfolding compile required_logic_value trim optional_non_negative_seconds
compiled = refl

simulate_digital-Answers_example :
    Answers (IsResult request) (simulate_digital casts 1_000_001 quiet request)
simulate_digital-Answers_example =
    simulate_digital-Answers casts 1_000_001 quiet request (omega arith)

compile-IsSound_example : IsSound program
compile-IsSound_example = compile-IsSound casts request compiled

run_engine-Recorded_example :
    Returns
      (Recorded halves program (compile-IsSound casts request compiled))
      (run_engine halves 1_000_001 quiet program 200)
run_engine-Recorded_example =
    run_engine-Recorded halves program (compile-IsSound casts request compiled) 1_000_001 quiet 200
      (omega arith)

compile-IsWired_example :
    IsWired program.components program.dependents program.net_drivers
    × (program.nets ≡ net_ids inverted)
    × (no_nets program.nets ≡ false)
    × ((en : EndpointNets) × (endpoint_net_map inverted ≡ ok en)
        × EachCompiled casts en inverted.components program.components)
compile-IsWired_example = compile-IsWired casts request compiled

endpoint_net_map-Joins_example : Joins (all_endpoints inverted.nets) (endpoint_net_map inverted)
endpoint_net_map-Joins_example = endpoint_net_map-Joins inverted
