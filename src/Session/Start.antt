-- ===== src/Session/Start.antt =====
-- How a session of src/digital.rs starts: `schedule_clock`, `schedule_initial` and `new`.
pub mod Queue
pub mod Opening
pub mod Calm
use mathlib.Core.Option
use sim_core.Prelude.{
  ℕ, zero, suc, ◌+◌, String, Bool, true, false, not, str_eq, List, [], ◌∷◌, Option, none, some, any,
  length, get_elem?, map, if◌then◌else◌, or_default,
}
use sim_core.Prelude.Loop.{Round, halt, again, loop}
use sim_core.Prelude.Map.{lookup, insert, contains, string_key}
use sim_core.Prelude.Result.{Result, ok, err, fail, reject, ok_or, ◌>>=◌, ◌>>◌}
use sim_core.Control.{ExecutionControl, check_execution}
use sim_core.Float.{Float}
use sim_core.Logic.{LogicValue, low, high, unknown, high_impedance, is_known, logic_eq}
use sim_core.Logic.Resolve.{DriverKey, driver_key}
use sim_core.Primitive.{
  DigitalPrimitive, CompiledDigitalComponent, RuntimeState, NetValues, for_component,
  initial_outputs, constant, clock,
}
use sim_core.Events.{Agenda, schedule_output}
use sim_core.Program.{DigitalProgram, drivers_of}
use sim_core.Session.{DigitalSession, DriverValues}

pub record ClockState (F : Type 0) : Type 0 where
  pub time : F
  pub value : LogicValue
  pub agenda : Agenda F
  pub instant : ℕ

module _ (fl : Float) where
  open fl use {F, zero_time, add, mul, one_minus, lt}

  -- One round of the loop of `schedule_clock`: the next edge.
  unfoldable pub clock_round :
      ExecutionControl → ℕ → F → F → F → ClockState F → Result (Round (ClockState F))
  clock_round control component stop high_duration low_duration c =
      if not (lt c.time stop) then ok (halt c) else (do
        check_execution control c.instant
        let is_high = logic_eq c.value high
        let time = add c.time (if is_high then high_duration else low_duration)
        let value = if is_high then low else high
        if lt stop time then ok (halt (record c { instant = c.instant + 1 })) else (do
          agenda ← schedule_output fl time component 0 value c.agenda
          ok (
              again
                (record { time = time; value = value; agenda = agenda; instant = c.instant + 1 }))))

  -- The loop, once the initial level is scheduled.
  clock_from :
      ℕ
      → ExecutionControl
      → ℕ
      → F
      → F
      → F
      → LogicValue
      → ℕ
      → Result (Agenda F)
      → Option (Result (ClockState F))
  unfolding clock_round loop
  clock_from fuel control component stop high_duration low_duration initial instant (err e) =
      some (err e)
  clock_from fuel control component stop high_duration low_duration initial instant (ok agenda) =
      loop fuel (clock_round control component stop high_duration low_duration)
        (record { time = zero_time; value = initial; agenda = agenda; instant = instant })

  first_level : ℕ → LogicValue → Agenda F → Result (Agenda F)
  first_level component initial agenda = do
    reject (not (is_known initial)) "digital_invalid_clock"
    schedule_output fl zero_time component 0 initial agenda

  -- `schedule_clock`.
  unfoldable pub schedule_clock :
      ℕ
      → ExecutionControl
      → ℕ
      → F
      → F
      → F
      → LogicValue
      → Agenda F
      → ℕ
      → Option (Result (ClockState F))
  unfolding clock_from first_level
  schedule_clock fuel control component stop period duty_cycle initial agenda instant =
      clock_from fuel control component stop (mul period duty_cycle)
        (mul period (one_minus duty_cycle)) initial instant (first_level component initial agenda)

  schedule_each : ℕ → ℕ → List LogicValue → Agenda F → Result (Agenda F)
  schedule_each component output [] agenda = ok agenda
  schedule_each component output (value ∷ values) agenda = do
    agenda' ← schedule_output fl zero_time component output value agenda
    schedule_each component (suc output) values agenda'

  -- The queue with the first events of the components so far, and the instant reached.
  abbrev pub Started : Type 0
  Started = Agenda F × ℕ

  at_instant : ℕ → Result (Agenda F) → Option (Result Started)
  at_instant instant (ok agenda) = some (ok (agenda, instant))
  at_instant instant (err e) = some (err e)

  clock_started : Result (ClockState F) → Result Started
  clock_started (ok c) = ok (c.agenda, c.instant)
  clock_started (err e) = err e

  -- One component of `schedule_initial`. A primitive that stores nothing has no initial outputs.
  unfoldable pub schedule_component :
      ℕ
      → ExecutionControl
      → F
      → ℕ
      → ℕ
      → RuntimeState
      → DigitalPrimitive F
      → Started
      → Option (Result Started)
  unfolding schedule_each at_instant clock_started
  schedule_component fuel control stop index outputs state (constant value) (agenda, instant) =
      at_instant instant (schedule_output fl zero_time index 0 value agenda)
  schedule_component fuel control stop index outputs state (clock period duty_cycle initial)
        (agenda, instant) =
      Option.map clock_started
        (schedule_clock fuel control index stop period duty_cycle initial agenda instant)
  schedule_component fuel control stop index outputs state primitive (agenda, instant) =
      at_instant instant (schedule_each index 0 (initial_outputs primitive outputs state) agenda)

  -- `schedule_initial`, from component `index` on.
  unfoldable pub schedule_initial :
      ℕ
      → ExecutionControl
      → F
      → ℕ
      → List (CompiledDigitalComponent F)
      → List RuntimeState
      → Started
      → Option (Result Started)
  unfolding schedule_component
  schedule_initial fuel control stop index [] states started = some (ok started)
  schedule_initial fuel control stop index (c ∷ components) states started =
      elim (schedule_component fuel control stop index (length c.output_nets)
        (or_default (get_elem? states index) (for_component c)) c.primitive started) [
          | none ↦ none
          | some (err e) ↦ some (err e)
          | some (ok started') ↦
              schedule_initial fuel control stop (suc index) components states started'
        ]

  -- Every driver of the program starts released, and every net unknown.
  released : List DriverKey → DriverValues → DriverValues
  released [] values = values
  released (d ∷ ds) values = released ds (insert d high_impedance values)

  unfoldable pub released_drivers : List (String × List DriverKey) → DriverValues → DriverValues
  unfolding released
  released_drivers [] values = values
  released_drivers ((net, ds) ∷ drivers) values = released_drivers drivers (released ds values)

  unfoldable pub unknown_nets : List String → NetValues → NetValues
  unknown_nets [] values = values
  unknown_nets (net ∷ nets) values = unknown_nets nets (insert net unknown values)

  mem_net : String → List String → Bool
  mem_net net = any (λ n. str_eq n net)

  has_driver : List DriverKey → Bool
  has_driver [] = false
  has_driver (d ∷ ds) = true

  unfoldable pub check_inputs : DigitalProgram F → List String → Result (Unit {0})
  unfolding mem_net has_driver
  check_inputs program [] = ok tt
  check_inputs program (net ∷ nets) = do
    reject (not (mem_net net program.nets)) "digital_cosim_binding_invalid"
    reject (has_driver (drivers_of program net)) "digital_cosim_input_driven"
    check_inputs program nets

  abbrev pub empty_agenda : Agenda F
  empty_agenda = record { queue = []; sequence = 0; scheduled_events = 0 }

  begin : DigitalProgram F → F → List String → Result Started → Result (DigitalSession F)
  unfolding released_drivers unknown_nets
  begin program stop inputs (err e) = err e
  begin program stop inputs (ok (agenda, instant)) = ok (record {
    program = program;
    stop = stop;
    current_time = 0;
    net_values = unknown_nets program.nets [];
    driver_values = released_drivers program.net_drivers [];
    runtime_states = map for_component program.components;
    agenda = agenda;
    processed_events = 0;
    external_inputs = inputs;
    instant = instant;
  })

  -- `DigitalParticipantSession::new`, for a program that has been compiled.
  unfoldable pub new :
      ℕ → ExecutionControl → DigitalProgram F → F → List String → Option (Result (DigitalSession F))
  unfolding check_inputs schedule_initial begin
  new fuel control program stop inputs = elim (check_inputs program inputs) [
    | err e ↦ some (err e)
    | ok u ↦ Option.map (begin program stop inputs) (
        schedule_initial fuel control stop 0 program.components
          (map for_component program.components) (empty_agenda, 0))
  ]
