-- ===== src/Circuit.antt =====
-- The circuit as the client describes it: src/circuit.rs, src/model.rs, src/units.rs and
-- src/analysis.rs. The ids of components, pins, nets and models are texts; `F` is the type of `f64`.
use sim_core.Prelude.{ℕ, String, Bool, str_eq, List, [], ◌∷◌, ◌++◌, Option, none, ◌==◌, any}
use sim_core.Prelude.Int.{ℤ}
use sim_core.Prelude.Map.{insert, string_key}

-- `Unit` of src/units.rs.
pub data UnitOf : Type 0 where
  volt ampere ohm farad henry hertz second siemens watt dimensionless : UnitOf

pub data SignalDomain : Type 0 where
  analog_domain digital_domain mixed_domain reference_domain : SignalDomain

pub data PinDirection : Type 0 where
  input_pin output_pin bidirectional passive : PinDirection

-- The derived equalities.
abbrev pub domain_code : SignalDomain → ℕ
domain_code analog_domain = 0
domain_code digital_domain = 1
domain_code mixed_domain = 2
domain_code reference_domain = 3

abbrev pub same_domain : SignalDomain → SignalDomain → Bool
same_domain a b = domain_code a == domain_code b

abbrev pub direction_code : PinDirection → ℕ
direction_code input_pin = 0
direction_code output_pin = 1
direction_code bidirectional = 2
direction_code passive = 3

abbrev pub same_direction : PinDirection → PinDirection → Bool
same_direction a b = direction_code a == direction_code b

abbrev pub unit_code : UnitOf → ℕ
unit_code volt = 0
unit_code ampere = 1
unit_code ohm = 2
unit_code farad = 3
unit_code henry = 4
unit_code hertz = 5
unit_code second = 6
unit_code siemens = 7
unit_code watt = 8
unit_code dimensionless = 9

pub record Quantity (F : Type 0) : Type 0 where
  pub value : F
  pub unit : UnitOf

pub data ParameterValue (F : Type 0) : Type 0 where
  boolean : Bool → ParameterValue F
  integer : ℤ → ParameterValue F
  number : F → ParameterValue F
  text : String → ParameterValue F
  quantity : Quantity F → ParameterValue F

pub record Pin : Type 0 where
  pub id : String
  pub name : String
  pub domain : SignalDomain
  pub direction : PinDirection

pub record Component (F : Type 0) : Type 0 where
  pub id : String
  pub kind : String
  pub pins : List Pin
  pub parameters : List (String × ParameterValue F)

pub record NetEndpoint : Type 0 where
  pub component : String
  pub pin : String

pub record Net : Type 0 where
  pub id : String
  pub label : Option String
  pub endpoints : List NetEndpoint

pub data ModelLanguage : Type 0 where
  spice verilog system_verilog : ModelLanguage

pub data ModelKind : Type 0 where
  device subcircuit module_model : ModelKind

pub record ModelDefinition : Type 0 where
  pub id : String
  pub language : ModelLanguage
  pub kind : ModelKind
  pub entry : String
  pub source : String

pub record Circuit (F : Type 0) : Type 0 where
  pub schema_version : ℕ
  pub title : Option String
  pub components : List (Component F)
  pub nets : List Net
  pub models : List ModelDefinition

-- `CIRCUIT_SCHEMA_VERSION`.
abbrev pub circuit_schema_version : ℕ
circuit_schema_version = 1

-- `Component::new` with `with_pin` and `with_parameter`, and `Net::new` with `connect`.
unfoldable pub new_component : {F : Type 0} → String → String → Component F
new_component id kind = record { id = id; kind = kind; pins = []; parameters = [] }

unfoldable pub with_pin : {F : Type 0} → Pin → Component F → Component F
with_pin pin c = record c { pins = c.pins ++ pin ∷ [] }

unfoldable pub with_parameter : {F : Type 0} → String → ParameterValue F → Component F → Component F
unfolding insert
with_parameter key value c = record c { parameters = insert key value c.parameters }

unfoldable pub new_net : String → Net
new_net id = record { id = id; label = none; endpoints = [] }

unfoldable pub connect_endpoint : NetEndpoint → Net → Net
connect_endpoint endpoint net = record net { endpoints = net.endpoints ++ endpoint ∷ [] }

-- `Circuit::new` with its builders.
module _ {F : Type 0} where
  unfoldable pub new_circuit : Circuit F
  new_circuit = record {
    schema_version = circuit_schema_version;
    title = none;
    components = [];
    nets = [];
    models = [];
  }

  unfoldable pub with_component : Component F → Circuit F → Circuit F
  with_component c circuit = record circuit { components = circuit.components ++ c ∷ [] }

  unfoldable pub with_net : Net → Circuit F → Circuit F
  with_net net circuit = record circuit { nets = circuit.nets ++ net ∷ [] }

  unfoldable pub with_model : ModelDefinition → Circuit F → Circuit F
  with_model model circuit = record circuit { models = circuit.models ++ model ∷ [] }

-- `component.pins.iter().any(|pin| pin.id == name)`.
abbrev pub is_pin : String → Pin → Bool
is_pin name pin = str_eq pin.id name

abbrev pub has_pin : {F : Type 0} → Component F → String → Bool
has_pin c name = any (is_pin name) c.pins
