-- ===== src/Program/Compile.antt =====
-- `DigitalProgram::compile` of src/digital.rs, with what it calls.
pub mod Wired
pub mod Steps
pub mod Calm
pub mod Probes
pub mod Sound
pub mod Shape
pub mod Endpoints
use sim_core.Prelude.{
  ℕ, suc, ◌++◌, String, Bool, true, false, not, ◌||◌, List, [], ◌∷◌, Option, none, some, length,
  find, map, is_some, or_default,
}
use sim_core.Prelude.Map.{lookup, insert, values, string_key, pair_key}
use sim_core.Prelude.Result.{Result, ok, err, fail, reject, ok_or, ◌>>=◌, ◌>>◌}
use sim_core.Prelude.Text.{prefixed}
use sim_core.Float.{Float, Casts}
use sim_core.Analysis.{Analysis, Probe, SimulationRequest}
use sim_core.Circuit.{
  PinDirection, input_pin, output_pin, digital_domain, same_domain, same_direction, is_pin,
  Component, NetEndpoint, Net, Circuit,
}
use sim_core.Logic.{LogicValue, unknown}
use sim_core.Logic.Resolve.{DriverKey}
use sim_core.Primitive.{
  DigitalPrimitive, constant, clock, sink, d_latch, sr_latch, d_flip_flop, jk_flip_flop,
  t_flip_flop, sr_flip_flop, register, counter, CompiledDigitalComponent,
}
use sim_core.Program.{CompiledProbe, DigitalProgram}
use sim_core.Program.Design.{component_design}
use sim_core.Program.Parameters.{
  component_error, reject_component, optional_logic_value, optional_non_negative_seconds,
  initial_vector,
}

-- The net of an endpoint: a component and its pin.
abbrev pub EndpointNets : Type 0
EndpointNets = List ((String × String) × String)

abbrev pub endpoint_of : NetEndpoint → String × String
endpoint_of e = (e.component, e.pin)

-- The inner loop of `endpoint_net_map`. An insertion that finds a value ends in an error.
join_endpoints : String → List NetEndpoint → EndpointNets → Result EndpointNets
unfolding lookup insert
join_endpoints net [] endpoint_net = ok endpoint_net
join_endpoints net (e ∷ endpoints) endpoint_net = do
  reject (is_some (lookup (endpoint_of e) endpoint_net)) "digital_endpoint_on_multiple_nets"
  join_endpoints net endpoints (insert (endpoint_of e) net endpoint_net)

join_nets : List Net → EndpointNets → Result EndpointNets
unfolding join_endpoints
join_nets [] endpoint_net = ok endpoint_net
join_nets (net ∷ nets) endpoint_net = do
  endpoint_net' ← join_endpoints net.id net.endpoints endpoint_net
  join_nets nets endpoint_net'

unfoldable pub endpoint_net_map : {F : Type 0} → Circuit F → Result EndpointNets
unfolding join_nets
endpoint_net_map circuit = join_nets circuit.nets []

module _ {F : Type 0} where
  unfoldable pub require_pin : Component F → String → PinDirection → Result (Unit {0})
  require_pin c pin direction = do
    found ← ok_or (find (is_pin pin) c.pins) component_error
    reject_component (not (same_domain found.domain digital_domain))
    reject_component (not (same_direction found.direction direction))

  unfoldable pub require_connected_net : Component F → String → EndpointNets → Result String
  require_connected_net c pin endpoint_net = ok_or (lookup (c.id, pin) endpoint_net) component_error

  -- The loops over the pins.
  connect_inputs :
      Component F
      → EndpointNets
      → List String
      → List (String × String)
      → Result (List (String × String))
  unfolding require_pin require_connected_net
  connect_inputs c endpoint_net [] nets = ok nets
  connect_inputs c endpoint_net (pin ∷ pins) nets = do
    require_pin c pin input_pin
    net ← require_connected_net c pin endpoint_net
    connect_inputs c endpoint_net pins (insert pin net nets)

  connect_outputs :
      Component F
      → EndpointNets
      → List String
      → List (String × String)
      → Result (List (String × String))
  unfolding require_pin require_connected_net
  connect_outputs c endpoint_net [] nets = ok nets
  connect_outputs c endpoint_net (pin ∷ pins) nets = do
    require_pin c pin output_pin
    net ← require_connected_net c pin endpoint_net
    connect_outputs c endpoint_net pins (nets ++ (pin, net) ∷ [])

  scalar_of : DigitalPrimitive F → Component F → Result LogicValue
  scalar_of d_latch c = do v ← optional_logic_value c "initial"; ok (or_default v unknown)
  scalar_of sr_latch c = do v ← optional_logic_value c "initial"; ok (or_default v unknown)
  scalar_of (d_flip_flop edge) c = do
    v ← optional_logic_value c "initial"
    ok (or_default v unknown)
  scalar_of (jk_flip_flop edge) c = do
    v ← optional_logic_value c "initial"
    ok (or_default v unknown)
  scalar_of (t_flip_flop edge) c = do
    v ← optional_logic_value c "initial"
    ok (or_default v unknown)
  scalar_of (sr_flip_flop edge) c = do
    v ← optional_logic_value c "initial"
    ok (or_default v unknown)
  scalar_of _ c = ok unknown

module _ {fl : Float} (casts : Casts fl) where
  open fl use {F, zero_time, lt, le, is_finite}

  delay_in : Component F → Result F
  delay_in c = do
    delay ← optional_non_negative_seconds casts c "delay"
    ok (or_default delay zero_time)

  delay_of : DigitalPrimitive F → Component F → Result F
  unfolding delay_in
  delay_of (constant value) c = ok zero_time
  delay_of (clock period duty initial) c = ok zero_time
  delay_of sink c = ok zero_time
  delay_of _ c = delay_in c

  vector_of : DigitalPrimitive F → Component F → Result (List LogicValue)
  vector_of (register width edge) c = initial_vector casts c width
  vector_of (counter width edge) c = initial_vector casts c width
  vector_of _ c = ok []

  unfoldable pub compile_component :
      Component F → EndpointNets → Result (CompiledDigitalComponent F)
  unfolding component_design connect_inputs connect_outputs delay_of scalar_of vector_of
  compile_component c endpoint_net = do
    d ← component_design casts c
    inputs ← connect_inputs c endpoint_net d.input_pins []
    outputs ← connect_outputs c endpoint_net d.output_pins []
    delay ← delay_of d.primitive c
    scalar ← scalar_of d.primitive c
    vector ← vector_of d.primitive c
    ok (record {
      primitive = d.primitive;
      input_nets = inputs;
      output_nets = outputs;
      delay = delay;
      initial_scalar = scalar;
      initial_vector = vector;
    })

-- `map.entry(net).or_default().push(x)`.
unfoldable pub push_entry :
    {A : Type 0} → String → A → List (String × List A) → List (String × List A)
unfolding lookup insert
push_entry net x m = insert net (or_default (lookup net m) [] ++ x ∷ []) m

-- The loops over the nets of a component.
add_dependents : ℕ → List String → List (String × List ℕ) → List (String × List ℕ)
unfolding push_entry
add_dependents index [] m = m
add_dependents index (net ∷ nets) m = add_dependents index nets (push_entry net index m)

add_drivers :
    ℕ → ℕ → List (String × String) → List (String × List DriverKey) → List (String × List DriverKey)
unfolding push_entry
add_drivers index output [] m = m
add_drivers index output ((pin, net) ∷ outputs) m =
    add_drivers index (suc output) outputs
      (push_entry net (record { component = index; output = output }) m)

-- The variables of the loop over the components.
pub record Wiring (F : Type 0) : Type 0 where
  pub components : List (CompiledDigitalComponent F)
  pub dependents : List (String × List ℕ)
  pub net_drivers : List (String × List DriverKey)

abbrev pub no_wiring : {F : Type 0} → Wiring F
no_wiring = record { components = []; dependents = []; net_drivers = [] }

unfoldable pub wire : {F : Type 0} → CompiledDigitalComponent F → Wiring F → Wiring F
unfolding add_dependents add_drivers
wire c w =
    let index = length w.components in
    record {
      components = w.components ++ c ∷ [];
      dependents = add_dependents index (values c.input_nets) w.dependents;
      net_drivers = add_drivers index 0 c.output_nets w.net_drivers;
    }

-- `compile_probe` and `compile_probes`.
unfoldable pub compile_probe : Probe → EndpointNets → Result CompiledProbe
unfolding prefixed
compile_probe probe endpoint_net = do
  net ← ok_or (lookup (endpoint_of probe.endpoint) endpoint_net) "digital_unknown_probe"
  ok (record { signal = or_default probe.alias (prefixed "net:" net); net = net })

compile_each : List Probe → EndpointNets → Result (List CompiledProbe)
unfolding compile_probe
compile_each [] endpoint_net = ok []
compile_each (probe ∷ probes) endpoint_net = do
  compiled ← compile_probe probe endpoint_net
  rest ← compile_each probes endpoint_net
  ok (compiled ∷ rest)

net_probe : Net → CompiledProbe
unfolding prefixed
net_probe net = record { signal = prefixed "net:" net.id; net = net.id }

unfoldable pub compile_probes :
    {F : Type 0} → List Probe → Circuit F → EndpointNets → Result (List CompiledProbe)
unfolding compile_each net_probe
compile_probes [] circuit endpoint_net = ok (map net_probe circuit.nets)
compile_probes probes circuit endpoint_net = compile_each probes endpoint_net

abbrev pub net_ids : {F : Type 0} → Circuit F → List String
net_ids circuit = map (λ net. net.id) circuit.nets

abbrev pub no_nets : List String → Bool
no_nets [] = true
no_nets (net ∷ nets) = false

module _ {fl : Float} (casts : Casts fl) where
  open fl use {F, zero_time, le, is_finite}

  -- The loop over the components.
  unfoldable pub wire_all : EndpointNets → List (Component F) → Wiring F → Result (Wiring F)
  unfolding compile_component wire
  wire_all endpoint_net [] w = ok w
  wire_all endpoint_net (c ∷ components) w = do
    compiled ← compile_component casts c endpoint_net
    wire_all endpoint_net components (wire compiled w)

  compile_until : F → SimulationRequest F → Result (DigitalProgram F)
  unfolding endpoint_net_map wire_all compile_probes
  compile_until stop request = do
    reject (not (is_finite stop) || le stop zero_time) "digital_invalid_analysis"
    endpoint_net ← endpoint_net_map request.circuit
    w ← wire_all endpoint_net request.circuit.components no_wiring
    reject (no_nets (net_ids request.circuit)) "digital_no_nets"
    probes ← compile_probes request.probes request.circuit endpoint_net
    ok (record {
      components = w.components;
      dependents = w.dependents;
      net_drivers = w.net_drivers;
      nets = net_ids request.circuit;
      probes = probes;
    })

  compile_as : Analysis F → SimulationRequest F → Result (DigitalProgram F)
  unfolding compile_until
  compile_as (Analysis.digital_transient stop) request = compile_until stop request
  compile_as _ request = fail "digital_unsupported_analysis"

  -- `DigitalProgram::compile`.
  unfoldable pub compile : SimulationRequest F → Result (DigitalProgram F)
  unfolding compile_as
  compile request = compile_as request.analysis request
