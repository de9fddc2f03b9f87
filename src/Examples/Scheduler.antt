-- ===== src/Examples/Scheduler.antt =====
-- The scheduler of src/cosim.rs on two nodes, the output of one linked to the input of the other.
use mathlib.Core.Option.{some-injective}
use sim_core.Prelude.{
  ℕ, suc, ◌+◌, ◌≡◌, refl, ◌↔◌, ◌≢◌, String, not, List, [], ◌∷◌, none, some, min, arith, All,
}
use sim_core.Prelude.Map.{keys, string_key}
use sim_core.Prelude.Loop.{Returns}
use sim_core.Prelude.Result.{ok, Ensures}
use sim_core.Logic.{LogicValue, low, high, logic_eq}
use sim_core.Circuit.{digital_domain, input_pin, output_pin}
use sim_core.CoSim.{
  CoSimulationPort, CoSimulationValue, CoSimulationConfig, CoSimulationLink, digital, analog,
  Backend, endpoint_key,
}
use sim_core.CoSim.Ports.{validate_ports, CoSimulationScheduler, Fleet}
use sim_core.CoSim.Ports.Valid.{ValidPorts, validate_ports-ValidPorts}
use sim_core.CoSim.Links.{validated_links, sort}
use sim_core.CoSim.Links.Valid.{ValidLink, SingleDriver, validated_links-ValidLink}
use sim_core.CoSim.Settle.{settle_links}
use sim_core.CoSim.Settle.Cycles.{Settles, settle_links-Settles}
use sim_core.CoSim.Record.{Signals, recorded_digital, record_signals}
use sim_core.CoSim.Record.Histories.{AllTidy, AllShow, record_signals-AllShow}
use sim_core.CoSim.Run.{RunState, next_time, macro_step, run}
use sim_core.CoSim.Lawful.{Lawful}
use sim_core.CoSim.Run.Lawful.{next_time-ok}
use sim_core.CoSim.Report.{report}
use sim_core.CoSim.Report.Shape.{IsReport, report-IsReport}
use sim_core.CoSim.Run.Target.{IsTarget, next_time-IsTarget}
use sim_core.CoSim.Run.Steps.{Running, macro_step-Running}
use sim_core.CoSim.Run.Whole.{Finished, run-Finished}
use sim_core.Examples.Digital.{halves, quiet}

-- A node repeats its input at its output.
record Node : Type 0 where
  name : String
  time : ℕ
  level : LogicValue

abbrev node_ports : List CoSimulationPort
node_ports =
    record { name = "in"; domain = digital_domain; direction = input_pin; unit = none }
    ∷ record { name = "out"; domain = digital_domain; direction = output_pin; unit = none }
    ∷ []

abbrev level_of : CoSimulationValue ℕ → LogicValue → LogicValue
level_of (digital v) old = v
level_of (analog x) old = old

abbrev nodes : Backend halves Node
nodes = record {
  id = λ n. n.name;
  ports = λ n. node_ports;
  current_time = λ n. n.time;
  initialize = λ control instant n. ok (record n { time = 0 });
  next_event_time = λ n. some (n.time + 7);
  advance_to = λ control instant target n. ok (record n { time = target });
  read_output = λ port n. ok (digital n.level);
  write_input = λ control instant port time value n. ok (
    record n { level = level_of value n.level },
    not (logic_eq n.level (level_of value n.level)),
  );
}

abbrev node : String → LogicValue → Node
node name level = record { name = name; time = 0; level = level }

abbrev fleet : Fleet Node
fleet = ("a", node "a" high) ∷ ("b", node "b" low) ∷ []

abbrev link : CoSimulationLink
link = record {
  source = record { participant = "a"; port = "out" };
  target = record { participant = "b"; port = "in" };
}

abbrev config : CoSimulationConfig
config = record { stop = 20; max_step = 10; max_delta_cycles = 4; max_steps = 8 }

abbrev scheduler : CoSimulationScheduler Node
scheduler = record { config = config; participants = fleet; links = link ∷ [] }

validate_ports-ValidPorts_example : (validate_ports node_ports ≡ ok tt) ↔ ValidPorts node_ports
validate_ports-ValidPorts_example = validate_ports-ValidPorts node_ports

validated_links-ValidLink_example : (validated_links halves nodes scheduler ≡ ok (link ∷ [])) ↔ (
    (scheduler.participants ≢ [])
    × (link ∷ [] ≡ sort scheduler.links)
    × All (ValidLink halves nodes scheduler.participants) (link ∷ [])
    × SingleDriver halves nodes (link ∷ []))
validated_links-ValidLink_example = validated_links-ValidLink halves nodes scheduler (link ∷ [])

settle_links-Settles_example :
    Ensures
      (Settles halves nodes quiet 0 0 4 (link ∷ []) fleet)
      (settle_links halves nodes 4 quiet 0 0 (link ∷ []) fleet)
settle_links-Settles_example = settle_links-Settles halves nodes 4 quiet 0 0 (link ∷ []) fleet

next_time-IsTarget_example :
    Ensures
      (IsTarget halves nodes 0 (min (0 + config.max_step) config.stop) fleet)
      (next_time halves nodes config fleet 0)
next_time-IsTarget_example =
    next_time-IsTarget halves nodes config fleet 0 (omega arith) (omega arith) (omega arith)

abbrev recorded : Signals ℕ
recorded =
    (
      record { participant = "a"; port = "out" },
      recorded_digital "a.out" (record { time = 0; value = high } ∷ []),
    )
    ∷ []

record_signals-AllShow_example :
    Ensures
      (λ after.
        AllTidy halves nodes after
        × AllShow halves nodes fleet after
        × (keys after ≡ keys recorded))
      (record_signals halves nodes 0 fleet recorded)
record_signals-AllShow_example = record_signals-AllShow halves nodes 0 fleet recorded (tt, tt)

abbrev settled : RunState halves nodes
settled = record {
  participants = fleet;
  recorder = [];
  stats = record { macro_steps = 0; delta_cycles = 0; participant_advances = 0 };
  now = 0;
  instant = 0;
}

settled-Running : Running halves nodes config ("a" ∷ "b" ∷ []) settled
settled-Running = record {
  same_ids = refl;
  together = (refl, (refl, tt));
  tidy = tt;
  shown = tt;
  in_time = omega arith;
  in_steps = omega arith;
  advances = refl;
  cycles = omega arith;
}

macro_step-Running_example :
    Ensures
      (λ s. Running halves nodes config ("a" ∷ "b" ∷ []) s × (s.stats.macro_steps ≡ suc 0))
      (macro_step halves nodes config quiet (link ∷ []) settled)
macro_step-Running_example =
    macro_step-Running halves nodes config quiet (link ∷ []) ("a" ∷ "b" ∷ []) settled (omega arith)
      (omega arith) (omega arith) settled-Running

run-Finished_example :
    Returns (Finished halves nodes config ("a" ∷ "b" ∷ [])) (run halves nodes 9 quiet scheduler)
run-Finished_example = run-Finished halves nodes 9 quiet scheduler (omega arith) (omega arith)

nodes-Lawful : Lawful halves nodes (λ n. Unit)
nodes-Lawful = record {
  starts = λ control instant n. (tt, refl);
  advances = λ control instant target n live. (tt, refl);
  writes = λ control instant port time value n live. (tt, refl);
  announces = λ n live w e. omega (arith, some-injective (n.time + 7) _ e);
}

next_time-ok_example :
    (t : ℕ) × (next_time halves nodes config fleet 0 ≡ ok t)
    × IsTarget halves nodes 0 (min (0 + config.max_step) config.stop) fleet t
next_time-ok_example =
    next_time-ok halves nodes (λ n. Unit) nodes-Lawful config fleet 0 (omega arith) (omega arith)
      (omega arith) (tt, (tt, tt)) (refl, (refl, tt))

report-IsReport_example :
    Returns
      (IsReport halves nodes config
        (keys scheduler.participants)
        (run halves nodes 9 quiet scheduler))
      (report halves nodes 9 quiet scheduler)
report-IsReport_example = report-IsReport halves nodes 9 quiet scheduler (omega arith) (omega arith)
