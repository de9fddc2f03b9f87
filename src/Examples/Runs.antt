-- ===== src/Examples/Runs.antt =====
-- A session that a scheduler drives, and a whole run, of src/digital.rs at concrete inputs.
use sim_core.Prelude.{
  List, Bool-cases, inr, subst, ◌≤◌, ◌<◌, some, ℕ, ◌≡◌, refl, false, [], ◌∷◌, arith, inl, inl,
}
use sim_core.Prelude.Loop.{Returns}
use sim_core.Prelude.Result.{Ensures}
use sim_core.Float.{Tolerant}
use sim_core.Logic.{low, high, unknown, high_impedance}
use sim_core.Session.Participant.{advance_to, write_external, next_event_time}
use sim_core.Session.Participant.Contract.{Usable, Ready, next_event_time-Later}
use sim_core.CoSim.Lawful.{Lawful}
use sim_core.Waveform.{EndsAt}
use sim_core.Engine.{EngineState, engine_batch}
use sim_core.Engine.Faithful.{Faithful, Sound, engine_batch-Sound}
use sim_core.Program.{drivers_of}
use sim_core.Program.Compile.Wired.{IsWired, outputs_on, inputs_on, each_from}
use sim_core.Session.Participant.Idle.{
  Resting, IsWritten, advance_to-Resting, write_external-IsWritten,
}
use sim_core.Prelude.Map.{lookup, string_key, same}
use sim_core.Prelude.Trim.{trim, is_empty}
use sim_core.Circuit.{input_pin, output_pin}
use sim_core.CoSim.Ports.Valid.{ValidPorts}
use sim_core.Adapter.Offered.{new_participant-ValidPorts}
use sim_core.Adapter.{DigitalCoSimulationBinding, new_participant, digital_backend}
use sim_core.Adapter.Contract.{Live, digital_backend-Lawful}
use sim_core.Examples.Digital.{
  halves, halves_order, halves_later, waiting-Timely, driver, at_two, inverters, waiting, quiet,
}

halves_tolerant : Tolerant halves
halves_tolerant = record { half_tick_later = λ t u h. ground arith }

waiting-Usable : Usable halves waiting
waiting-Usable = record {
  within = omega arith;
  balanced = record {
    counted = refl;
    numbered = refl;
    limited = omega arith;
    fresh = (omega arith, tt);
  };
}

waiting-Ready : Ready halves waiting
waiting-Ready = record { usable = waiting-Usable; quiet = refl }

waiting-next : next_event_time halves waiting ≡ some 2
unfolding next_event_time
waiting-next = refl

waiting-Resting : Resting halves halves_order halves_later waiting
waiting-Resting = record { usable = waiting-Usable; timely = waiting-Timely; none_due = (refl, tt) }

advance_to-Resting_example :
    Returns
      (λ s.
        Resting halves halves_order halves_later s
        × (s.current_time ≡ 10)
        × (waiting.current_time ≤ s.current_time))
      (advance_to halves 1_000_001 quiet 10 waiting)
advance_to-Resting_example =
    advance_to-Resting halves halves_order halves_later 1_000_001 quiet 10 waiting (omega arith)
      waiting-Usable waiting-Timely

inverters-IsWired : IsWired inverters.components inverters.dependents inverters.net_drivers
unfolding lookup outputs_on inputs_on each_from
inverters-IsWired = record {
  drivers_on = λ net. elim (Bool-cases (same net "y")) [
    | inl here ↦ rw here refl
    | inr apart ↦ rw apart refl
  ];
  dependents_on = λ net. elim (Bool-cases (same net "a")) [
    | inl here ↦ rw here refl
    | inr apart ↦ rw apart refl
  ];
}

a-undriven : drivers_of inverters "a" ≡ []
unfolding lookup
a-undriven = refl

write_external-IsWritten_example :
    Returns
      (IsWritten halves halves_order halves_later waiting "a" high)
      (write_external halves 1_000_001 quiet "a" 0 high waiting)
write_external-IsWritten_example =
    write_external-IsWritten halves halves_order halves_later 1_000_001 quiet "a" 0 high waiting
      (omega arith) inverters-IsWired a-undriven waiting-Resting

next_event_time-Later_example : waiting.current_time < 2
next_event_time-Later_example =
    next_event_time-Later halves waiting halves_tolerant (omega arith) waiting-Ready waiting-next

digital_backend-Lawful_example : Lawful halves (digital_backend halves) (Live halves)
digital_backend-Lawful_example = digital_backend-Lawful halves halves_tolerant

-- The inverter's output is about to go high.
abbrev running : EngineState ℕ
running = record {
  net_values = ("a", low) ∷ ("y", unknown) ∷ [];
  histories =
      ("a", record { time = 0; value = low } ∷ [])
      ∷ ("y", record { time = 0; value = unknown } ∷ [])
      ∷ [];
  driver_values = (driver, high_impedance) ∷ [];
  runtime_states = record { q = unknown; bits = []; previous_clock = unknown } ∷ [];
  agenda = record { queue = at_two ∷ []; sequence = 1; scheduled_events = 1 };
  processed_events = 0;
  instant = 0;
}

running-Faithful : Faithful running.histories running.net_values
unfolding lookup
running-Faithful net history e = elim (Bool-cases (same net "a")) [
  | inl a ↦
      let told : record { time = 0; value = low } ∷ [] ≡ history = ground arith in
      rw a (subst (EndsAt low) told (record { time = 0; value = low }, refl, refl))
  | inr not_a ↦ elim (Bool-cases (same net "y")) [
    | inl y ↦
        let told : record { time = 0; value = unknown } ∷ [] ≡ history = ground arith in
        rw (not_a, y)
          (subst (EndsAt unknown) told (record { time = 0; value = unknown }, refl, refl))
    | inr not_y ↦ absurd (ground arith)
  ]
]

engine_batch-Sound_example :
    Ensures
      (λ s. Sound halves s × (0 < s.processed_events))
      (engine_batch halves quiet inverters 200 at_two [] running)
engine_batch-Sound_example =
    engine_batch-Sound halves quiet inverters 200 at_two [] running refl (record {
      faithful = running-Faithful;
      balanced = waiting-Usable.balanced;
      within = omega arith;
    })

abbrev bindings : List DigitalCoSimulationBinding
bindings =
    record { port = "in"; net = "a"; direction = input_pin }
    ∷ record { port = "out"; net = "y"; direction = output_pin }
    ∷ []

new_participant-ValidPorts_example :
    Ensures
      (λ p. ValidPorts p.ports × (is_empty (trim p.id) ≡ false))
      (new_participant "logic" inverters 200 bindings)
new_participant-ValidPorts_example = new_participant-ValidPorts "logic" inverters 200 bindings
