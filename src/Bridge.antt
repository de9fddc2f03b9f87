-- ===== src/Bridge.antt =====
-- The converters of src/cosim_bridge.rs between digital and analog ports, as participants of the
-- scheduler of src/cosim.rs.
pub mod Contract
pub mod Schmitt
use sim_core.Prelude.{
  ℕ, String, Bool, true, false, not, ◌||◌, str_eq, List, [], ◌∷◌, Option, none, some, ltb, ◌==◌,
  if◌then◌else◌,
}
use sim_core.Prelude.Result.{Result, ok, err, fail, reject, ◌>>=◌, ◌>>◌}
use sim_core.Prelude.Trim.{trim, is_empty}
use sim_core.Circuit.{volt, PinDirection, input_pin, output_pin, digital_domain, analog_domain}
use sim_core.Control.{ExecutionControl, validate_policy}
use sim_core.CoSim.{CoSimulationPort, CoSimulationValue, digital, analog, Backend}
use sim_core.Float.{Float}
use sim_core.Logic.{LogicValue, low, high, is_known, logic_eq}

-- `validate_id`, `check_control` and `require_current_time`.
unfoldable pub validate_id : String → String → Result (Unit {0})
unfolding trim
validate_id id code = reject (is_empty (trim id)) code

unfoldable pub check_control : ExecutionControl → ℕ → Result (Unit {0})
unfolding validate_policy
check_control control instant = do
  validate_policy control.policy
  reject (control.is_cancelled instant) "execution_cancelled"

unfoldable pub require_current_time : ℕ → ℕ → String → Result (Unit {0})
require_current_time current requested code = reject (not (requested == current)) code

digital_port : String → PinDirection → CoSimulationPort
digital_port name direction = record {
  name = name;
  domain = digital_domain;
  direction = direction;
  unit = none;
}

voltage_port : String → PinDirection → CoSimulationPort
voltage_port name direction = record {
  name = name;
  domain = analog_domain;
  direction = direction;
  unit = some volt;
}

pub record DacCoSimulationParticipant (F : Type 0) : Type 0 where
  pub id : String
  pub ports : List CoSimulationPort
  pub current_time : ℕ
  pub low_voltage : F
  pub high_voltage : F
  pub input : LogicValue
  pub output : F

pub record AdcCoSimulationParticipant (F : Type 0) : Type 0 where
  pub id : String
  pub ports : List CoSimulationPort
  pub current_time : ℕ
  pub low_threshold : F
  pub high_threshold : F
  pub input : F
  pub output : LogicValue

module _ (fl : Float) where
  open fl use {F, zero_time, lt, le, same_bits, is_finite}

  abbrev pub Dac : Type 0
  Dac = DacCoSimulationParticipant F

  abbrev pub Adc : Type 0
  Adc = AdcCoSimulationParticipant F

  -- The test of both constructors: not finite, or out of order.
  unfoldable pub is_bad_window : F → F → Bool
  is_bad_window lower upper = not (is_finite lower) || not (is_finite upper) || le upper lower

  unfoldable pub new_dac : String → F → F → Result Dac
  unfolding validate_id is_bad_window digital_port voltage_port
  new_dac id low_voltage high_voltage = do
    validate_id id "dac_cosim_participant_invalid"
    reject (is_bad_window low_voltage high_voltage) "dac_cosim_voltage_invalid"
    ok (record {
      id = id;
      ports = digital_port "digital_in" input_pin ∷ voltage_port "analog_out" output_pin ∷ [];
      current_time = 0;
      low_voltage = low_voltage;
      high_voltage = high_voltage;
      input = low;
      output = low_voltage;
    })

  unfoldable pub initialize_dac : ExecutionControl → ℕ → Dac → Result Dac
  unfolding check_control
  initialize_dac control instant p = do
    check_control control instant
    ok (record p { current_time = 0; input = low; output = p.low_voltage })

  unfoldable pub advance_dac : ExecutionControl → ℕ → ℕ → Dac → Result Dac
  unfolding check_control
  advance_dac control instant target p = do
    check_control control instant
    reject (ltb target p.current_time) "dac_cosim_time_invalid"
    ok (record p { current_time = target })

  unfoldable pub read_dac : String → Dac → Result (CoSimulationValue F)
  read_dac port p = do
    reject (not (str_eq port "analog_out")) "dac_cosim_port_missing"
    ok (analog p.output)

  voltage_of : LogicValue → Dac → F
  voltage_of value p = if logic_eq value high then p.high_voltage else p.low_voltage

  -- The end of `write_input`, for a digital value.
  take_level : CoSimulationValue F → Dac → Result (Dac × Bool)
  unfolding voltage_of is_known
  take_level (analog x) p = fail "dac_cosim_domain_mismatch"
  take_level (digital value) p = do
    reject (not (is_known value)) "dac_cosim_two_state_input"
    if logic_eq value p.input
        then ok (p, false)
        else ok (record p { input = value; output = voltage_of value p }, true)

  unfoldable pub write_dac :
      ExecutionControl → ℕ → String → ℕ → CoSimulationValue F → Dac → Result (Dac × Bool)
  unfolding check_control require_current_time take_level
  write_dac control instant port time value p = do
    check_control control instant
    reject (not (str_eq port "digital_in")) "dac_cosim_port_missing"
    require_current_time p.current_time time "dac_cosim_time_invalid"
    take_level value p

  -- A converter announces no events: the trait's default.
  abbrev pub dac_backend : Backend fl Dac
  dac_backend = record {
    id = λ p. p.id;
    ports = λ p. p.ports;
    current_time = λ p. p.current_time;
    initialize = initialize_dac;
    next_event_time = λ p. none;
    advance_to = advance_dac;
    read_output = read_dac;
    write_input = write_dac;
  }

  unfoldable pub classify_adc : F → LogicValue → F → F → LogicValue
  classify_adc value previous low_threshold high_threshold =
      if le value low_threshold then low else if le high_threshold value then high else previous

  unfoldable pub new_adc : String → F → F → Result Adc
  unfolding validate_id is_bad_window digital_port voltage_port classify_adc
  new_adc id low_threshold high_threshold = do
    validate_id id "adc_cosim_participant_invalid"
    reject (is_bad_window low_threshold high_threshold) "adc_cosim_threshold_invalid"
    ok (record {
      id = id;
      ports = voltage_port "analog_in" input_pin ∷ digital_port "digital_out" output_pin ∷ [];
      current_time = 0;
      low_threshold = low_threshold;
      high_threshold = high_threshold;
      input = zero_time;
      output = classify_adc zero_time low low_threshold high_threshold;
    })

  unfoldable pub initialize_adc : ExecutionControl → ℕ → Adc → Result Adc
  unfolding check_control classify_adc
  initialize_adc control instant p = do
    check_control control instant
    ok (record p {
      current_time = 0;
      input = zero_time;
      output = classify_adc zero_time low p.low_threshold p.high_threshold;
    })

  unfoldable pub advance_adc : ExecutionControl → ℕ → ℕ → Adc → Result Adc
  unfolding check_control
  advance_adc control instant target p = do
    check_control control instant
    reject (ltb target p.current_time) "adc_cosim_time_invalid"
    ok (record p { current_time = target })

  unfoldable pub read_adc : String → Adc → Result (CoSimulationValue F)
  read_adc port p = do
    reject (not (str_eq port "digital_out")) "adc_cosim_port_missing"
    ok (digital p.output)

  unfoldable pub take_voltage : CoSimulationValue F → Adc → Result (Adc × Bool)
  unfolding classify_adc
  take_voltage (digital v) p = fail "adc_cosim_domain_mismatch"
  take_voltage (analog x) p = do
    reject (not (is_finite x)) "adc_cosim_value_invalid"
    if same_bits p.input x
        then ok (p, false)
        else ok (
          record p { input = x; output = classify_adc x p.output p.low_threshold p.high_threshold },
          true,
        )

  unfoldable pub write_adc :
      ExecutionControl → ℕ → String → ℕ → CoSimulationValue F → Adc → Result (Adc × Bool)
  unfolding check_control require_current_time take_voltage
  write_adc control instant port time value p = do
    check_control control instant
    reject (not (str_eq port "analog_in")) "adc_cosim_port_missing"
    require_current_time p.current_time time "adc_cosim_time_invalid"
    take_voltage value p

  abbrev pub adc_backend : Backend fl Adc
  adc_backend = record {
    id = λ p. p.id;
    ports = λ p. p.ports;
    current_time = λ p. p.current_time;
    initialize = initialize_adc;
    next_event_time = λ p. none;
    advance_to = advance_adc;
    read_output = read_adc;
    write_input = write_adc;
  }
