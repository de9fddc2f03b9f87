-- ===== src/Session.antt =====
-- `DigitalParticipantSession` of src/digital.rs: the incremental run of a digital program. The
-- batch step and the evaluation of components are those of `DigitalEngine::run` too. After an error
-- the program gives the run up, so the state is then dropped.
pub mod Safe
pub mod Participant
pub mod Start
pub mod Schedule
pub mod Batch
pub mod Inputs
pub mod Ledger
pub mod Rounds
pub mod Due
use sim_core.Prelude.{
  ℕ, zero, suc, ◌+◌, String, Bool, true, false, not, ◌||◌, List, [], ◌∷◌, ◌++◌, Option, none, some,
  length, get_elem?, set, or_default, ltb, leb, ◌==◌, if◌then◌else◌, is_some,
}
use sim_core.Prelude.Map.{lookup, insert, insert_key, extend, contains, string_key, nat_key}
use sim_core.Prelude.Result.{Result, ok, err, fail, reject, ok_or, ◌>>=◌, ◌>>◌}
use sim_core.Prelude.Loop.{Round, halt, again, loop}
use sim_core.Control.{ExecutionControl, check_execution}
use sim_core.Float.{Float}
use sim_core.Logic.{LogicValue, low, high, unknown, high_impedance, logic_eq, is_known}
use sim_core.Logic.Resolve.{DriverKey, driver_key, resolve_net}
use sim_core.Primitive.{CompiledDigitalComponent, RuntimeState, NetValues, Evaluation, evaluate}
use sim_core.Events.{ScheduledEvent, Agenda, max_digital_events, schedule_output, take_same}
use sim_core.Program.{DigitalProgram, drivers_of, dependents_of, output_net}

abbrev pub DriverValues : Type 0
DriverValues = List (DriverKey × LogicValue)

pub record DigitalSession (F : Type 0) : Type 0 where
  pub program : DigitalProgram F
  pub stop : F
  pub current_time : ℕ
  pub net_values : NetValues
  pub driver_values : DriverValues
  pub runtime_states : List RuntimeState
  pub agenda : Agenda F
  pub processed_events : ℕ
  pub external_inputs : List String
  -- How often the run has consulted its control.
  pub instant : ℕ

-- The nets of drivers that an event changes.
unfoldable pub mark_net :
    {F : Type 0}
    → DigitalProgram F
    → LogicValue
    → ScheduledEvent F
    → List String
    → Result (List String)
mark_net program previous e affected =
    if logic_eq previous e.value
    then ok affected
    else (do net ← output_net program e.driver; ok (insert_key net affected))

-- The loop over a batch: the drivers take their values in turn.
unfoldable pub apply_events :
    {F : Type 0}
    → DigitalProgram F
    → List (ScheduledEvent F)
    → DriverValues
    → List String
    → Result (DriverValues × List String)
unfolding mark_net
apply_events program [] driver_values affected = ok (driver_values, affected)
apply_events program (e ∷ batch) driver_values affected = do
  affected' ←
      mark_net program (or_default (lookup e.driver driver_values) high_impedance) e affected
  apply_events program batch (insert e.driver e.value driver_values) affected'

-- The new value of a net, if it has changed.
unfoldable pub net_change :
    {F : Type 0} → DigitalProgram F → DriverValues → NetValues → String → Option LogicValue
net_change program driver_values net_values net =
    let resolved = resolve_net (drivers_of program net) driver_values in
    if logic_eq resolved (or_default (lookup net net_values) unknown) then none else some resolved

-- One affected net: its new value, and the components that read it, if it has changed.
unfoldable pub settle_net :
    {F : Type 0}
    → DigitalProgram F
    → String
    → Option LogicValue
    → NetValues × List ℕ
    → NetValues × List ℕ
settle_net program net none state = state
settle_net program net (some value) (net_values, affected) =
    (insert net value net_values, extend (dependents_of program net) affected)

-- The loop over the affected nets.
unfoldable pub settle_nets :
    {F : Type 0}
    → DigitalProgram F
    → DriverValues
    → List String
    → NetValues × List ℕ
    → NetValues × List ℕ
unfolding net_change settle_net
settle_nets program driver_values [] state = state
settle_nets program driver_values (net ∷ nets) state =
    settle_nets program driver_values nets
      (settle_net program net (net_change program driver_values state.0 net) state)

module _ (fl : Float) where
  open fl use {F, half_tick, add, lt, le, as_seconds}

  -- The loop over the outputs of one component, with its `break` at the last connected output.
  unfoldable pub schedule_values :
      F → F → ℕ → ℕ → ℕ → List LogicValue → Agenda F → Result (Agenda F)
  schedule_values stop time component outputs output [] agenda = ok agenda
  schedule_values stop time component outputs output (value ∷ values) agenda =
      if leb outputs output then ok agenda else (do
        agenda' ←
            if le time stop
            then schedule_output fl time component output value agenda
            else ok agenda
        schedule_values stop time component outputs (suc output) values agenda')

  unfoldable pub schedule_outputs :
      F
      → F
      → ℕ
      → CompiledDigitalComponent F
      → Option (List LogicValue)
      → Agenda F
      → Result (Agenda F)
  unfolding schedule_values
  schedule_outputs stop time index component none agenda = ok agenda
  schedule_outputs stop time index component (some values) agenda =
      schedule_values stop (add time component.delay) index (length component.output_nets) 0 values
        agenda

  -- The loop of `evaluate_components`.
  unfoldable pub evaluate_all :
      DigitalProgram F
      → F
      → F
      → NetValues
      → List ℕ
      → List RuntimeState
      → Agenda F
      → Result (List RuntimeState × Agenda F)
  unfolding schedule_outputs
  evaluate_all program stop time net_values [] states agenda = ok (states, agenda)
  evaluate_all program stop time net_values (index ∷ indices) states agenda = do
    component ← ok_or (get_elem? program.components index) "panic"
    state ← ok_or (get_elem? states index) "panic"
    let evaluation = evaluate component net_values state
    agenda' ← schedule_outputs stop time index component evaluation.0 agenda
    evaluate_all program stop time net_values indices (set states index evaluation.1) agenda'

  unfoldable pub evaluate_components :
      ExecutionControl → List ℕ → F → DigitalSession F → Result (DigitalSession F)
  unfolding evaluate_all
  evaluate_components control indices time s = do
    check_execution control s.instant
    (states, agenda) ←
        evaluate_all s.program s.stop time s.net_values indices s.runtime_states s.agenda
    ok (record s { runtime_states = states; agenda = agenda; instant = s.instant + 1 })

  -- The body of the loop of `process_until`, on the event that it pops.
  unfoldable pub process_batch :
      ExecutionControl
      → ScheduledEvent F
      → List (ScheduledEvent F)
      → DigitalSession F
      → Result (DigitalSession F)
  unfolding apply_events settle_nets evaluate_components
  process_batch control first queue s = do
    let taken = take_same fl first.time queue
    let batch = first ∷ taken.0
    let processed = s.processed_events + length batch
    reject (ltb max_digital_events processed) "execution_resource_limit"
    (driver_values, affected_nets) ← apply_events s.program batch s.driver_values []
    let settled = settle_nets s.program driver_values affected_nets (s.net_values, [])
    evaluate_components control settled.1 first.time (record s {
      agenda = record (s.agenda) { queue = taken.1 };
      processed_events = processed;
      driver_values = driver_values;
      net_values = settled.0;
    })

  -- One round of the loop of `process_until`: the next event decides whether there is a batch to
  -- process.
  unfoldable pub serve :
      ExecutionControl
      → F
      → List (ScheduledEvent F)
      → DigitalSession F
      → Result (Round (DigitalSession F))
  unfolding process_batch
  serve control target [] s = ok (halt s)
  serve control target (first ∷ queue) s =
      if lt (add target half_tick) first.time
      then ok (halt s)
      else (do s' ← process_batch control first queue s; ok (again s'))

  unfoldable pub round : ExecutionControl → F → DigitalSession F → Result (Round (DigitalSession F))
  unfolding serve
  round control target s = do
    check_execution control s.instant
    serve control target s.agenda.queue (record s { instant = s.instant + 1 })

  -- `process_until`; `none` means that the fuel ran out.
  unfoldable pub process_until :
      ℕ → ExecutionControl → F → DigitalSession F → Option (Result (DigitalSession F))
  unfolding round loop
  process_until fuel control target s = loop fuel (round control target) s
