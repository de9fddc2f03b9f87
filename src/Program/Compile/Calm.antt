-- ===== src/Program/Compile/Calm.antt =====
-- `DigitalProgram::compile` of src/digital.rs does not panic.
use sim_core.Prelude.{String, List, [], ◌∷◌}
use sim_core.Prelude.Map.{insert, string_key, pair_key}
use sim_core.Prelude.Safe.{Calm, value, Calm-bind, calm}
use sim_core.Float.{Float, Casts}
use sim_core.Analysis.{Analysis, Probe, SimulationRequest}
use sim_core.Circuit.{PinDirection, input_pin, output_pin, Component, NetEndpoint, Net, Circuit}
use sim_core.Primitive.{
  DigitalPrimitive, constant, clock, sink, d_latch, sr_latch, d_flip_flop, jk_flip_flop,
  t_flip_flop, sr_flip_flop, register, counter,
}
use sim_core.Program.Design.{
  DigitalKind, logic_input, digital_clock, data_flip_flop, jk, toggling, set_reset_flip_flop,
  register_bank, counter_bank, design_of, component_design,
}
use sim_core.Program.Parameters.Calm.{
  optional_logic_value-Calm, required_logic_value-Calm, edge_kind-Calm, component_width-Calm,
  initial_vector-Calm, required_positive_seconds-Calm, optional_non_negative_seconds-Calm,
  duty_cycle-Calm,
}
use sim_core.Program.Compile.{
  EndpointNets, endpoint_of, join_endpoints, join_nets, endpoint_net_map, require_pin,
  require_connected_net, connect_inputs, connect_outputs, scalar_of, delay_of, vector_of,
  compile_component, Wiring, wire, wire_all, compile_probe, compile_each, compile_probes,
  compile_until, compile_as, compile,
}

join_endpoints-Calm :
    (net : String) (endpoints : List NetEndpoint) (m : EndpointNets)
    → Calm (join_endpoints net endpoints m)
unfolding join_endpoints
join_endpoints-Calm net [] m = search calm
join_endpoints-Calm net (e ∷ endpoints) m =
    search (calm, join_endpoints-Calm net endpoints (insert (endpoint_of e) net m))

join_nets-Calm : (nets : List Net) (m : EndpointNets) → Calm (join_nets nets m)
unfolding join_nets
join_nets-Calm [] m = search calm
join_nets-Calm (net ∷ nets) m =
    Calm-bind (join_endpoints-Calm net.id net.endpoints m) (λ m'. join_nets-Calm nets m')

module _ {F : Type 0} (c : Component F) (endpoint_net : EndpointNets) where
  require_pin-Calm : (pin : String) (direction : PinDirection) → Calm (require_pin c pin direction)
  unfolding require_pin
  require_pin-Calm pin direction = search calm

  require_connected_net-Calm : (pin : String) → Calm (require_connected_net c pin endpoint_net)
  unfolding require_connected_net
  require_connected_net-Calm pin = search calm

  connect_inputs-Calm :
      (pins : List String) (nets : List (String × String))
      → Calm (connect_inputs c endpoint_net pins nets)
  unfolding connect_inputs
  connect_inputs-Calm [] nets = search calm
  connect_inputs-Calm (pin ∷ pins) nets =
      Calm-bind (require_pin-Calm pin input_pin)
        (λ u. Calm-bind (require_connected_net-Calm pin) (λ net. connect_inputs-Calm pins _))

  connect_outputs-Calm :
      (pins : List String) (nets : List (String × String))
      → Calm (connect_outputs c endpoint_net pins nets)
  unfolding connect_outputs
  connect_outputs-Calm [] nets = search calm
  connect_outputs-Calm (pin ∷ pins) nets =
      Calm-bind (require_pin-Calm pin output_pin)
        (λ u. Calm-bind (require_connected_net-Calm pin) (λ net. connect_outputs-Calm pins _))

scalar_of-Calm : {F : Type 0} (p : DigitalPrimitive F) (c : Component F) → Calm (scalar_of p c)
unfolding scalar_of
scalar_of-Calm d_latch c = search (calm, optional_logic_value-Calm)
scalar_of-Calm sr_latch c = search (calm, optional_logic_value-Calm)
scalar_of-Calm (d_flip_flop edge) c = search (calm, optional_logic_value-Calm)
scalar_of-Calm (jk_flip_flop edge) c = search (calm, optional_logic_value-Calm)
scalar_of-Calm (t_flip_flop edge) c = search (calm, optional_logic_value-Calm)
scalar_of-Calm (sr_flip_flop edge) c = search (calm, optional_logic_value-Calm)
scalar_of-Calm _ c = search calm

module _ {fl : Float} (casts : Casts fl) where
  open fl use {F}

  design_of-Calm : (kind : DigitalKind) (c : Component F) → Calm (design_of casts kind c)
  unfolding design_of
  design_of-Calm logic_input c = search (calm, required_logic_value-Calm)
  design_of-Calm digital_clock c =
      search (calm, required_positive_seconds-Calm, duty_cycle-Calm, optional_logic_value-Calm)
  design_of-Calm data_flip_flop c = search (calm, edge_kind-Calm)
  design_of-Calm jk c = search (calm, edge_kind-Calm)
  design_of-Calm toggling c = search (calm, edge_kind-Calm)
  design_of-Calm set_reset_flip_flop c = search (calm, edge_kind-Calm)
  design_of-Calm register_bank c = search (calm, component_width-Calm, edge_kind-Calm)
  design_of-Calm counter_bank c = search (calm, component_width-Calm, edge_kind-Calm)
  design_of-Calm _ c = search calm

  component_design-Calm : (c : Component F) → Calm (component_design casts c)
  unfolding component_design
  component_design-Calm c = search (calm, design_of-Calm)

  delay_of-Calm : (p : DigitalPrimitive F) (c : Component F) → Calm (delay_of casts p c)
  unfolding delay_of
  delay_of-Calm (constant v) c = search calm
  delay_of-Calm (clock period duty initial) c = search calm
  delay_of-Calm sink c = search calm
  delay_of-Calm _ c = search (calm, optional_non_negative_seconds-Calm)

  vector_of-Calm : (p : DigitalPrimitive F) (c : Component F) → Calm (vector_of casts p c)
  unfolding vector_of
  vector_of-Calm (register width edge) c = initial_vector-Calm casts c width
  vector_of-Calm (counter width edge) c = initial_vector-Calm casts c width
  vector_of-Calm _ c = search calm

  compile_component-Calm :
      (c : Component F) (endpoint_net : EndpointNets)
      → Calm (compile_component casts c endpoint_net)
  unfolding compile_component
  compile_component-Calm c endpoint_net = Calm-bind (component_design-Calm c) (λ d.
      Calm-bind (connect_inputs-Calm c endpoint_net d.input_pins []) (λ inputs.
        Calm-bind (connect_outputs-Calm c endpoint_net d.output_pins []) (λ outputs.
          Calm-bind (delay_of-Calm d.primitive c) (λ delay.
            Calm-bind (scalar_of-Calm d.primitive c)
              (λ scalar. Calm-bind (vector_of-Calm d.primitive c) (λ vector. value _))))))

  wire_all-Calm :
      (endpoint_net : EndpointNets) (cs : List (Component F)) (w : Wiring F)
      → Calm (wire_all casts endpoint_net cs w)
  unfolding wire_all
  wire_all-Calm endpoint_net [] w = search calm
  wire_all-Calm endpoint_net (c ∷ cs) w =
      Calm-bind (compile_component-Calm c endpoint_net)
        (λ d. wire_all-Calm endpoint_net cs (wire d w))

compile_each-Calm :
    (probes : List Probe) (endpoint_net : EndpointNets) → Calm (compile_each probes endpoint_net)
unfolding compile_each compile_probe
compile_each-Calm [] endpoint_net = search calm
compile_each-Calm (probe ∷ probes) endpoint_net =
    search (calm, compile_each-Calm probes endpoint_net)

compile_probes-Calm :
    {F : Type 0} (probes : List Probe) (circuit : Circuit F) (endpoint_net : EndpointNets)
    → Calm (compile_probes probes circuit endpoint_net)
unfolding compile_probes
compile_probes-Calm [] circuit endpoint_net = search calm
compile_probes-Calm (probe ∷ probes) circuit endpoint_net =
    compile_each-Calm (probe ∷ probes) endpoint_net

module _ {fl : Float} (casts : Casts fl) where
  open fl use {F}

  compile_until-Calm :
      (stop : F) (request : SimulationRequest F) → Calm (compile_until casts stop request)
  unfolding compile_until endpoint_net_map
  compile_until-Calm stop request =
      search (calm, join_nets-Calm, wire_all-Calm, compile_probes-Calm) depth 12

  compile_as-Calm :
      (analysis : Analysis F) (request : SimulationRequest F)
      → Calm (compile_as casts analysis request)
  unfolding compile_as
  compile_as-Calm (Analysis.digital_transient stop) request = compile_until-Calm stop request
  compile_as-Calm _ request = search calm

  -- Compiling a request gives a program or an error that is no panic.
  pub compile-Calm : (request : SimulationRequest F) → Calm (compile casts request)
  unfolding compile
  compile-Calm request = compile_as-Calm request.analysis request
