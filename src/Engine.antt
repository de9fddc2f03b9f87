-- ===== src/Engine.antt =====
-- `DigitalEngine::run` of src/digital.rs: a whole run, with the history of every net. It starts as a
-- session does, and evaluates components as a session does.
pub mod Calm
pub mod Simulate
pub mod Faithful
pub mod Whole
pub mod Recorded
use mathlib.Core.Option
use sim_core.Prelude.{
  ℕ, ◌+◌, ◌*◌, ◌-◌, ◌^◌, min, String, Bool, true, false, not, ◌&&◌, List, [], ◌∷◌, ◌++◌, Option,
  none, some, length, map, ltb, ◌==◌, if◌then◌else◌, or_default,
}
use sim_core.Prelude.Map.{lookup, insert, replace, extend, string_key, nat_key}
use sim_core.Prelude.Loop.{Round, halt, again, loop}
use sim_core.Prelude.Result.{Result, ok, err, fail, reject, ok_or, ◌>>=◌, ◌>>◌}
use sim_core.Control.{ExecutionControl, validate_policy, check_execution}
use sim_core.Float.{Float}
use sim_core.Logic.{LogicValue, unknown, logic_eq}
use sim_core.Waveform.{DigitalTransition, last, set_last}
use sim_core.Primitive.{RuntimeState, NetValues, for_component}
use sim_core.Events.{ScheduledEvent, Agenda, max_digital_events, take_same}
use sim_core.Program.{DigitalProgram, dependents_of}
use sim_core.Session.{DriverValues, apply_events, net_change, evaluate_all}
use sim_core.Session.Start.{schedule_initial, unknown_nets, released_drivers, empty_agenda}

abbrev pub Histories : Type 0 → Type 0
Histories F = List (String × List (DigitalTransition F))

-- The variables of the loop of `run`.
pub record EngineState (F : Type 0) : Type 0 where
  pub net_values : NetValues
  pub histories : Histories F
  pub driver_values : DriverValues
  pub runtime_states : List RuntimeState
  pub agenda : Agenda F
  pub processed_events : ℕ
  pub instant : ℕ

-- The number of transitions in all histories.
transitions_of : {F : Type 0} → Histories F → ℕ
transitions_of [] = 0
transitions_of ((net, history) ∷ histories) = length history + transitions_of histories

-- `enforce_transition_budget`; a transition counts as 24 bytes.
unfoldable pub enforce_transition_budget :
    {F : Type 0} → Histories F → ExecutionControl → Result (Unit {0})
unfolding transitions_of
enforce_transition_budget histories control =
    reject
      (not (control.policy.max_output_bytes == 0)
        && ltb control.policy.max_output_bytes (min (transitions_of histories * 24) (2 ^ 64 - 1)))
      "execution_resource_limit"

module _ (fl : Float) where
  open fl use {F, zero_time, lt, same_bits}

  -- The end of `push_transition`, where the last transition is of another instant, if there is one.
  unfoldable pub push_transition :
      List (DigitalTransition F) → F → LogicValue → List (DigitalTransition F)
  unfolding set_last
  push_transition transitions time value = elim (last transitions) [
    | none ↦ transitions ++ record { time = time; value = value } ∷ []
    | some t ↦
        if same_bits t.time time
        then set_last (record t { value = value }) transitions
        else if logic_eq t.value value
        then transitions
        else transitions ++ record { time = time; value = value } ∷ []
  ]

  -- What the loop over the affected nets changes: the nets, the histories, and the components to evaluate.
  abbrev pub Settling : Type 0
  Settling = NetValues × Histories F × List ℕ

  unfoldable pub record_net :
      ExecutionControl
      → DigitalProgram F
      → F
      → String
      → Option LogicValue
      → Settling
      → Result Settling
  unfolding push_transition enforce_transition_budget
  record_net control program time net none state = ok state
  record_net control program time net (some value) (net_values, histories, affected) = do
    history ← ok_or (lookup net histories) "panic"
    let histories' = replace net (push_transition history time value) histories
    enforce_transition_budget histories' control
    ok (insert net value net_values, histories', extend (dependents_of program net) affected)

  unfoldable pub record_nets :
      ExecutionControl
      → DigitalProgram F
      → F
      → DriverValues
      → List String
      → Settling
      → Result Settling
  unfolding record_net
  record_nets control program time driver_values [] state = ok state
  record_nets control program time driver_values (net ∷ nets) state = do
    state' ←
        record_net control program time net (net_change program driver_values state.0 net) state
    record_nets control program time driver_values nets state'

  -- The body of the loop, for an event that is not after the stop time.
  unfoldable pub engine_batch :
      ExecutionControl
      → DigitalProgram F
      → F
      → ScheduledEvent F
      → List (ScheduledEvent F)
      → EngineState F
      → Result (EngineState F)
  unfolding record_nets
  engine_batch control program stop first queue s = do
    let taken = take_same fl first.time queue
    let batch = first ∷ taken.0
    let processed = s.processed_events + length batch
    reject (ltb max_digital_events processed) "execution_resource_limit"
    (driver_values, affected_nets) ← apply_events program batch s.driver_values []
    settled ←
        record_nets control program first.time driver_values affected_nets
          (s.net_values, s.histories, [])
    (states, agenda) ←
        evaluate_all fl program stop first.time settled.0 settled.2 s.runtime_states
          (record (s.agenda) { queue = taken.1 })
    ok (record s {
      net_values = settled.0;
      histories = settled.1;
      driver_values = driver_values;
      runtime_states = states;
      agenda = agenda;
      processed_events = processed;
    })

  -- One round of the loop. The event that ends it has left the queue.
  unfoldable pub serve_event :
      ExecutionControl
      → DigitalProgram F
      → F
      → List (ScheduledEvent F)
      → EngineState F
      → Result (Round (EngineState F))
  unfolding engine_batch
  serve_event control program stop [] s = ok (halt s)
  serve_event control program stop (first ∷ queue) s = do
    check_execution control s.instant
    let now = record s { instant = s.instant + 1 }
    if lt stop first.time
        then ok (halt (record now { agenda = record (s.agenda) { queue = queue } }))
        else (do s' ← engine_batch control program stop first queue now; ok (again s'))

  unfoldable pub engine_round :
      ExecutionControl → DigitalProgram F → F → EngineState F → Result (Round (EngineState F))
  unfolding serve_event
  engine_round control program stop s = serve_event control program stop s.agenda.queue s

  -- Every net starts with an unknown level at time zero.
  unfoldable pub initial_histories : List String → Histories F → Histories F
  initial_histories [] histories = histories
  initial_histories (net ∷ nets) histories =
      initial_histories nets
        (insert net (record { time = zero_time; value = unknown } ∷ []) histories)

  engine_start : DigitalProgram F → Agenda F → ℕ → EngineState F
  unfolding initial_histories
  engine_start program agenda instant = record {
    net_values = unknown_nets fl program.nets [];
    histories = initial_histories program.nets [];
    driver_values = released_drivers fl program.net_drivers [];
    runtime_states = map for_component program.components;
    agenda = agenda;
    processed_events = 0;
    instant = instant;
  }

  unfoldable pub engine_allowed : ExecutionControl → Result (Unit {0})
  engine_allowed control = do
    validate_policy control.policy
    reject (control.is_cancelled 0) "execution_cancelled"

  -- `run` on a compiled program, up to its waveforms; `none` means that the fuel ran out.
  unfoldable pub run_engine :
      ℕ → ExecutionControl → DigitalProgram F → F → Option (Result (EngineState F))
  unfolding engine_round engine_start loop
  run_engine fuel control program stop = elim (engine_allowed control) [
    | err e ↦ some (err e)
    | ok u ↦
        elim (schedule_initial fl fuel control stop 0 program.components
          (map for_component program.components) (empty_agenda fl, 1)) [
            | none ↦ none
            | some (err e) ↦ some (err e)
            | some (ok (agenda, instant)) ↦
                loop fuel (engine_round control program stop) (engine_start program agenda instant)
          ]
  ]
