-- ===== src/Adapter.antt =====
-- `DigitalCoSimulationParticipant` of src/digital.rs: a digital program as a participant of the
-- scheduler of src/cosim.rs. The program is what `DigitalProgram::compile` gives for its request.
pub mod Contract
pub mod Offered
use sim_core.Prelude.{
  ℕ, suc, ◌++◌, String, Bool, true, false, not, ◌&&◌, ◌||◌, str_eq, List, [], ◌∷◌, Option, none,
  some, any, is_some,
}
use sim_core.Prelude.Map.{lookup, insert, extend, values, string_key}
use sim_core.Prelude.Result.{Result, ok, err, fail, reject, ok_or, ◌>>=◌, ◌>>◌}
use sim_core.Prelude.Trim.{trim, is_empty}
use sim_core.Control.{ExecutionControl, validate_policy}
use sim_core.Float.{Float}
use sim_core.Events.{max_digital_events}
use sim_core.Logic.{LogicValue}
use sim_core.Program.{DigitalProgram, drivers_of}
use sim_core.Session.{DigitalSession}
use sim_core.Session.Start.{new}
use sim_core.Session.Participant.{advance_to, write_external, read_net, next_event_time}
use sim_core.Circuit.{PinDirection, input_pin, output_pin, digital_domain}
use sim_core.CoSim.{CoSimulationPort, CoSimulationValue, digital, analog, Backend}

pub record DigitalCoSimulationBinding : Type 0 where
  pub port : String
  pub net : String
  pub direction : PinDirection

pub record DigitalCoSimulationParticipant (F : Type 0) : Type 0 where
  pub id : String
  pub ports : List CoSimulationPort
  pub program : DigitalProgram F
  pub stop : F
  pub bindings : List (String × DigitalCoSimulationBinding)
  pub session : Option (DigitalSession F)

abbrev is_input : PinDirection → Bool
is_input input_pin = true
is_input _ = false

abbrev is_output : PinDirection → Bool
is_output output_pin = true
is_output _ = false

has_driver : {A : Type 0} → List A → Bool
has_driver [] = false
has_driver (d ∷ ds) = true

-- The tests of one binding, up to that for duplicates.
check_binding : {F : Type 0} → DigitalProgram F → DigitalCoSimulationBinding → Result (Unit {0})
unfolding has_driver
check_binding program b = do
  reject (is_empty (trim b.port) || is_empty (trim b.net)) "digital_cosim_binding_invalid"
  reject (not (any (λ net. str_eq net b.net) program.nets)) "digital_cosim_binding_invalid"
  reject (not (is_input b.direction || is_output b.direction)) "digital_cosim_binding_invalid"
  reject (is_input b.direction && has_driver (drivers_of program b.net))
      "digital_cosim_input_driven"

abbrev Bound : Type 0
Bound = List CoSimulationPort × List (String × DigitalCoSimulationBinding)

-- The loop over the bindings.
bind_all : {F : Type 0} → DigitalProgram F → List DigitalCoSimulationBinding → Bound → Result Bound
unfolding check_binding
bind_all program [] bound = ok bound
bind_all program (b ∷ bindings) (ports, by_name) = do
  check_binding program b
  reject (is_some (lookup b.port by_name)) "digital_cosim_binding_duplicate"
  bind_all program bindings (
    ports
        ++ record { name = b.port; domain = digital_domain; direction = b.direction; unit = none }
          ∷ [],
    insert b.port b by_name,
  )

no_ports : List CoSimulationPort → Bool
no_ports [] = true
no_ports (p ∷ ps) = false

-- `DigitalCoSimulationParticipant::new`.
unfoldable pub new_participant :
    {F : Type 0}
    → String
    → DigitalProgram F
    → F
    → List DigitalCoSimulationBinding
    → Result (DigitalCoSimulationParticipant F)
unfolding bind_all no_ports
new_participant id program stop bindings = do
  reject (is_empty (trim id)) "digital_cosim_participant_invalid"
  bound ← bind_all program bindings ([], [])
  reject (no_ports bound.0) "digital_cosim_binding_missing"
  ok (record {
    id = id;
    ports = bound.0;
    program = program;
    stop = stop;
    bindings = bound.1;
    session = none;
  })

-- The nets of the input bindings, as a set.
input_nets_of : List DigitalCoSimulationBinding → List String
input_nets_of [] = []
input_nets_of (b ∷ bindings) =
    let rest = input_nets_of bindings in
    elim (is_input b.direction) [ true ↦ b.net ∷ rest | false ↦ rest ]

-- Fuel for the event limit, which is enough for every loop of a session.
abbrev pub event_fuel : ℕ
event_fuel = suc max_digital_events

abbrev returned {ℓ} : {A : Type ℓ} → Option (Result A) → Result A
returned none = fail "out_of_fuel"
returned (some r) = r

module _ (fl : Float) where
  open fl use {F}

  abbrev pub Participant : Type 0
  Participant = DigitalCoSimulationParticipant F

  abbrev keep_session : Participant → DigitalSession F → Participant
  keep_session p s = record p { session = some s }

  time_of : Option (DigitalSession F) → ℕ
  time_of none = 0
  time_of (some s) = s.current_time

  next_of : Option (DigitalSession F) → Option ℕ
  next_of none = none
  next_of (some s) = next_event_time fl s

  -- `initialize`. A session counts the instants of its checks from its own start.
  unfoldable pub initialize : ExecutionControl → ℕ → Participant → Result Participant
  unfolding input_nets_of
  initialize control instant p = do
    validate_policy control.policy
    reject (control.is_cancelled instant) "execution_cancelled"
    let inputs = extend (input_nets_of (values p.bindings)) []
    session ← returned (new fl event_fuel control p.program p.stop inputs)
    session' ← returned (advance_to fl event_fuel control 0 session)
    ok (keep_session p session')

  unfoldable pub advance : ExecutionControl → ℕ → ℕ → Participant → Result Participant
  advance control instant target p = do
    session ← ok_or p.session "digital_cosim_not_initialized"
    session' ← returned (advance_to fl event_fuel control target session)
    ok (keep_session p session')

  unfoldable pub read_output : String → Participant → Result (CoSimulationValue F)
  read_output port p = do
    binding ← ok_or (lookup port p.bindings) "digital_cosim_port_missing"
    reject (not (is_output binding.direction)) "digital_cosim_port_direction"
    session ← ok_or p.session "digital_cosim_not_initialized"
    level ← read_net fl binding.net session
    ok (digital level)

  level_of : CoSimulationValue F → Result LogicValue
  level_of (digital level) = ok level
  level_of (analog x) = fail "digital_cosim_domain_mismatch"

  unfoldable pub write_input :
      ExecutionControl
      → ℕ
      → String
      → ℕ
      → CoSimulationValue F
      → Participant
      → Result (Participant × Bool)
  unfolding level_of
  write_input control instant port time value p = do
    binding ← ok_or (lookup port p.bindings) "digital_cosim_port_missing"
    reject (not (is_input binding.direction)) "digital_cosim_port_direction"
    level ← level_of value
    session ← ok_or p.session "digital_cosim_not_initialized"
    written ← returned (write_external fl event_fuel control binding.net time level session)
    ok (keep_session p written.0, written.1)

  -- `impl CoSimulationParticipant for DigitalCoSimulationParticipant`.
  unfoldable pub digital_backend : Backend fl Participant
  unfolding time_of next_of initialize advance read_output write_input
  digital_backend = record {
    id = λ p. p.id;
    ports = λ p. p.ports;
    current_time = λ p. time_of p.session;
    initialize = initialize;
    next_event_time = λ p. next_of p.session;
    advance_to = advance;
    read_output = read_output;
    write_input = write_input;
  }
