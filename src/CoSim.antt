-- ===== src/CoSim.antt =====
-- The data of src/cosim.rs: time, ports, values, links, the configuration, and what the scheduler may
-- ask of a participant. Times are `u64` picoseconds.
pub mod Lawful
pub mod Ports
pub mod Links
pub mod Settle
pub mod Record
pub mod Run
pub mod Report
use sim_core.Prelude.{
  then_with, ℕ, ◌+◌, ◌-◌, ◌^◌, min, String, Ordering, compare, Bool, true, false, not, List, Option,
  none, some, ◌==◌, ◌≡◌, refl, arith,
}
use sim_core.Prelude.Map.{Key, string_key}
use sim_core.Prelude.Result.{Result, ok, err, reject, ◌>>=◌, ◌>>◌}
use sim_core.Circuit.{
  UnitOf, unit_code, SignalDomain, analog_domain, digital_domain, PinDirection, input_pin,
  output_pin, bidirectional,
}
use sim_core.Control.{ExecutionControl}
use sim_core.Float.{Float}
use sim_core.Logic.{LogicValue}

pub record CoSimulationPort : Type 0 where
  pub name : String
  pub domain : SignalDomain
  pub direction : PinDirection
  pub unit : Option UnitOf

pub data CoSimulationValue (F : Type 0) : Type 0 where
  digital : LogicValue → CoSimulationValue F
  analog : F → CoSimulationValue F

pub record CoSimulationEndpoint : Type 0 where
  pub participant : String
  pub port : String

pub record CoSimulationLink : Type 0 where
  pub source : CoSimulationEndpoint
  pub target : CoSimulationEndpoint

pub record CoSimulationConfig : Type 0 where
  pub stop : ℕ
  pub max_step : ℕ
  pub max_delta_cycles : ℕ
  pub max_steps : ℕ

pub record CoSimulationStats : Type 0 where
  pub macro_steps : ℕ
  pub delta_cycles : ℕ
  pub participant_advances : ℕ

-- `CoSimulationTime::saturating_add`.
unfoldable pub saturating_add : ℕ → ℕ → ℕ
saturating_add a b = min (a + b) (2 ^ 64 - 1)

-- `CoSimulationConfig::validate`.
unfoldable pub validate_config : CoSimulationConfig → Result (Unit {0})
validate_config c = do
  reject (c.stop == 0) "cosim_config_invalid"
  reject (c.max_step == 0) "cosim_config_invalid"
  reject (c.max_delta_cycles == 0) "cosim_config_invalid"
  reject (c.max_steps == 0) "cosim_config_invalid"

abbrev pub domain_of : {F : Type 0} → CoSimulationValue F → SignalDomain
domain_of (digital v) = digital_domain
domain_of (analog x) = analog_domain

abbrev pub same_unit : Option UnitOf → Option UnitOf → Bool
same_unit none none = true
same_unit (some u) (some v) = unit_code u == unit_code v
same_unit _ _ = false

-- A port that the scheduler reads, and one that it writes.
abbrev pub gives : PinDirection → Bool
gives output_pin = true
gives bidirectional = true
gives _ = false

abbrev pub takes : PinDirection → Bool
takes input_pin = true
takes bidirectional = true
takes _ = false

-- The derived `Ord` of endpoints and links: field by field.
abbrev pub endpoint_order : CoSimulationEndpoint → CoSimulationEndpoint → Ordering
endpoint_order a b =
    then_with (string_key.order a.participant b.participant) (string_key.order a.port b.port)

abbrev pub link_order : CoSimulationLink → CoSimulationLink → Ordering
link_order a b = then_with (endpoint_order a.source b.source) (endpoint_order a.target b.target)

pub endpoint_order_refl : (a : CoSimulationEndpoint) → endpoint_order a a ≡ Ordering.eq
endpoint_order_refl a =
    ground (arith, string_key.order_refl a.participant, string_key.order_refl a.port)

pub endpoint_order_eq : (a b : CoSimulationEndpoint) → endpoint_order a b ≡ Ordering.eq → a ≡ b
endpoint_order_eq a b h =
    ground
      (arith, string_key.order_eq a.participant b.participant, string_key.order_eq a.port b.port)

instance abbrev pub endpoint_key : Key CoSimulationEndpoint
endpoint_key = record {
  order = endpoint_order;
  order_refl = endpoint_order_refl;
  order_eq = endpoint_order_eq;
}

-- `CoSimulationParticipant`: the operations of a backend whose state is `P`. An error that one returns
-- is passed on with its code and retry flag (`participant_error` changes its message alone).
pub record Backend (fl : Float) (P : Type 0) : Type 0 where
  pub id : P → String
  pub ports : P → List CoSimulationPort
  pub current_time : P → ℕ
  pub initialize : ExecutionControl → ℕ → P → Result P
  pub next_event_time : P → Option ℕ
  pub advance_to : ExecutionControl → ℕ → ℕ → P → Result P
  pub read_output : String → P → Result (CoSimulationValue (fl.F))
  pub write_input :
      ExecutionControl → ℕ → String → ℕ → CoSimulationValue (fl.F) → P → Result (P × Bool)

-- `CoSimulationValue::validate`.
unfoldable pub validate_value : (fl : Float) → CoSimulationValue (fl.F) → Result (Unit {0})
validate_value fl (digital v) = ok tt
validate_value fl (analog x) = reject (not (fl.is_finite x)) "cosim_value_invalid"
