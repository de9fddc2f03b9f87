-- ===== src/Program/Compile/Shape.antt =====
-- The components that `compile_component` of src/digital.rs makes.
use sim_core.Prelude.{
  ℕ, zero, suc, ◌+◌, ◌≤◌, ◌≡◌, refl, ap, subst, String, true, List, [], ◌∷◌, ◌++◌, length,
  length-append, All-append, arith, inl, inr, Option-cases,
}
use sim_core.Prelude.Map.{
  lookup, insert, contains, string_key, pair_key, AllValues, lookup-AllValues, insert-AllValues,
}
use sim_core.Prelude.Result.{Ensures, Ensures-bind, Ensures-after, Ensures-imp, ok_or}
use sim_core.Float.{Float, Casts}
use sim_core.Circuit.{Component, input_pin, output_pin}
use sim_core.Logic.{LogicValue}
use sim_core.Primitive.{
  DigitalPrimitive, demux2, decoder2_to_4, d_latch, sr_latch, d_flip_flop, jk_flip_flop,
  t_flip_flop, sr_flip_flop, register, counter, sink, CompiledDigitalComponent,
}
use sim_core.Program.Design.{
  Design, pins_from, optional_pins, storage_design, design_of, component_design, gate_design, kinds,
  DigitalKind, logic_input, digital_clock, logic_output, logic_gate, tri_state_buffer, multiplexer,
  demultiplexer, decoder, data_latch, set_reset_latch, data_flip_flop, jk, toggling,
  set_reset_flip_flop, register_bank, counter_bank,
}
use sim_core.Program.Parameters.{
  component_width, required_logic_value, optional_logic_value, required_positive_seconds,
  duty_cycle, edge_kind,
}
use sim_core.Program.Parameters.Bounds.{IsWidth, component_width-IsWidth, initial_vector-length}
use sim_core.Program.Compile.{
  EndpointNets, compile_component, connect_inputs, connect_outputs, require_pin,
  require_connected_net, delay_of, scalar_of, vector_of,
}

-- The number of outputs that a primitive has, and what it stores.
abbrev pub OutputsOf : {F : Type 0} → DigitalPrimitive F → ℕ → Type 0
OutputsOf sink n = n ≡ 0
OutputsOf demux2 n = n ≡ 2
OutputsOf decoder2_to_4 n = n ≡ 4
OutputsOf d_latch n = (1 ≤ n) × (n ≤ 2)
OutputsOf sr_latch n = (1 ≤ n) × (n ≤ 2)
OutputsOf (d_flip_flop edge) n = (1 ≤ n) × (n ≤ 2)
OutputsOf (jk_flip_flop edge) n = (1 ≤ n) × (n ≤ 2)
OutputsOf (t_flip_flop edge) n = (1 ≤ n) × (n ≤ 2)
OutputsOf (sr_flip_flop edge) n = (1 ≤ n) × (n ≤ 2)
OutputsOf (register width edge) n = (n ≡ width) × IsWidth width
OutputsOf (counter width edge) n = (n ≡ width) × IsWidth width
OutputsOf _ n = n ≡ 1

abbrev pub StoredBy : {F : Type 0} → DigitalPrimitive F → List LogicValue → Type 0
StoredBy (register width edge) bits = length bits ≡ width
StoredBy (counter width edge) bits = length bits ≡ width
StoredBy _ bits = bits ≡ []

abbrev pub OnNets : List String → List (String × String) → Type 0
OnNets nets = AllValues λ net. contains net nets ≡ true

-- A component of a program with the nets `nets`.
pub record IsShaped {F : Type 0} (nets : List String) (c : CompiledDigitalComponent F)
    : Type 0 where
  pub outputs : OutputsOf c.primitive (length c.output_nets)
  pub stored : StoredBy c.primitive c.initial_vector
  pub inputs_on_nets : OnNets nets c.input_nets
  pub outputs_on_nets : OnNets nets c.output_nets

length-pins_from : (prefix : String) (bit count : ℕ) → length (pins_from prefix bit count) ≡ count
unfolding pins_from
length-pins_from prefix bit zero = refl
length-pins_from prefix bit (suc count) = ap suc (length-pins_from prefix (suc bit) count)

-- A design whose outputs are those of its primitive.
abbrev Fits : {F : Type 0} → Design F → Type 0
Fits d = OutputsOf d.primitive (length d.output_pins)

module _ {F : Type 0} where
  nq_outputs :
      (c : Component F)
      → (1 ≤ length ("q" ∷ optional_pins c ("nq" ∷ [])))
        × (length ("q" ∷ optional_pins c ("nq" ∷ [])) ≤ 2)
  unfolding optional_pins
  nq_outputs c = ground arith

module _ {fl : Float} (casts : Casts fl) where
  open fl use {F}

  design_of-Fits : (kind : DigitalKind) (c : Component F) → Ensures Fits (design_of casts kind c)
  unfolding design_of
  design_of-Fits logic_input c =
      Ensures-after Fits (required_logic_value c "value") _ (λ value read. refl)
  design_of-Fits digital_clock c =
      Ensures-after Fits (required_positive_seconds casts c "period") _ (λ period read.
        Ensures-after Fits (duty_cycle casts c) _ (λ duty read.
          Ensures-after Fits (optional_logic_value c "initial") _ (λ initial read. refl)))
  design_of-Fits logic_output c = refl
  design_of-Fits (logic_gate kind) c = unfold gate_design in refl
  design_of-Fits tri_state_buffer c = refl
  design_of-Fits multiplexer c = refl
  design_of-Fits demultiplexer c = refl
  design_of-Fits decoder c = length-pins_from "y" 0 4
  design_of-Fits data_latch c = unfold storage_design in nq_outputs c
  design_of-Fits set_reset_latch c = unfold storage_design in nq_outputs c
  design_of-Fits data_flip_flop c =
      Ensures-after Fits (edge_kind c) _ (λ edge read. unfold storage_design in nq_outputs c)
  design_of-Fits jk c =
      Ensures-after Fits (edge_kind c) _ (λ edge read. unfold storage_design in nq_outputs c)
  design_of-Fits toggling c =
      Ensures-after Fits (edge_kind c) _ (λ edge read. unfold storage_design in nq_outputs c)
  design_of-Fits set_reset_flip_flop c =
      Ensures-after Fits (edge_kind c) _ (λ edge read. unfold storage_design in nq_outputs c)
  design_of-Fits register_bank c =
      Ensures-bind IsWidth Fits (component_width casts c) _ (component_width-IsWidth casts c)
        (λ width w.
          Ensures-after Fits (edge_kind c) _ (λ edge read. (length-pins_from "q" 0 width, w)))
  design_of-Fits counter_bank c =
      Ensures-bind IsWidth Fits (component_width casts c) _ (component_width-IsWidth casts c)
        (λ width w.
          Ensures-after Fits (edge_kind c) _ (λ edge read. (length-pins_from "q" 0 width, w)))

-- The endpoints of a circuit are on its nets.
abbrev pub Known : List String → EndpointNets → Type 0
Known nets = AllValues λ net. contains net nets ≡ true

module _ {F : Type 0} (nets : List String) (c : Component F) (endpoint_net : EndpointNets)
    (known : Known nets endpoint_net) where
  abbrev IsOn : String → Type 0
  IsOn net = contains net nets ≡ true

  require_connected_net-IsOn :
      (pin : String) → Ensures IsOn (require_connected_net c pin endpoint_net)
  unfolding require_connected_net
  require_connected_net-IsOn pin = elim (Option-cases (lookup (c.id, pin) endpoint_net)) [
    | inl missing ↦ rw missing tt
    | inr (net, found) ↦ rw found (lookup-AllValues IsOn (c.id, pin) endpoint_net known found)
  ]

  connect_inputs-OnNets :
      (pins : List String) (on : List (String × String))
      → OnNets nets on
      → Ensures (OnNets nets) (connect_inputs c endpoint_net pins on)
  unfolding connect_inputs
  connect_inputs-OnNets [] on all = all
  connect_inputs-OnNets (pin ∷ pins) on all =
      Ensures-after (OnNets nets) (require_pin c pin input_pin) _ (λ u checked.
        Ensures-bind IsOn (OnNets nets) (require_connected_net c pin endpoint_net) _
          (require_connected_net-IsOn pin)
          (λ net is_on.
            connect_inputs-OnNets pins (insert pin net on)
              (insert-AllValues IsOn pin net on is_on all)))

  abbrev Connected : List String → List (String × String) → List (String × String) → Type 0
  Connected pins before after = OnNets nets after × (length after ≡ length before + length pins)

  connect_outputs-Connected :
      (pins : List String) (on : List (String × String))
      → OnNets nets on
      → Ensures (Connected pins on) (connect_outputs c endpoint_net pins on)
  unfolding connect_outputs
  connect_outputs-Connected [] on all = (all, omega arith)
  connect_outputs-Connected (pin ∷ pins) on all =
      Ensures-after (Connected (pin ∷ pins) on) (require_pin c pin output_pin) _ (λ u checked.
        Ensures-bind IsOn (Connected (pin ∷ pins) on) (require_connected_net c pin endpoint_net) _
          (require_connected_net-IsOn pin)
          (λ net is_on.
            Ensures-imp (Connected pins (on ++ (pin, net) ∷ [])) (Connected (pin ∷ pins) on)
              (connect_outputs c endpoint_net pins (on ++ (pin, net) ∷ []))
              (λ r h. (h.0, omega (arith, h.1, length-append on ((pin, net) ∷ []))))
              (connect_outputs-Connected pins (on ++ (pin, net) ∷ [])
                (All-append (λ entry. IsOn entry.1) on ((pin, net) ∷ []) all (is_on, tt)))))

module _ {fl : Float} (casts : Casts fl) where
  open fl use {F}

  component_design-Fits : (c : Component F) → Ensures Fits (component_design casts c)
  unfolding component_design
  component_design-Fits c =
      Ensures-after Fits (ok_or (lookup c.kind kinds) "digital_unsupported_component") _
        (λ kind found. design_of-Fits casts kind c)

  vector_of-StoredBy :
      (p : DigitalPrimitive F) (c : Component F) → Ensures (StoredBy p) (vector_of casts p c)
  unfolding vector_of
  vector_of-StoredBy (register width edge) c = initial_vector-length casts c width
  vector_of-StoredBy (counter width edge) c = initial_vector-length casts c width
  vector_of-StoredBy _ c = refl

  pub compile_component-IsShaped :
      (nets : List String) (c : Component F) (endpoint_net : EndpointNets)
      → Known nets endpoint_net
      → Ensures (IsShaped nets) (compile_component casts c endpoint_net)
  unfolding compile_component
  compile_component-IsShaped nets c endpoint_net known =
      Ensures-bind Fits (IsShaped nets) (component_design casts c) _ (component_design-Fits c)
        (λ d fits.
          Ensures-bind (OnNets nets) (IsShaped nets) (connect_inputs c endpoint_net d.input_pins [])
            _ (connect_inputs-OnNets nets c endpoint_net known d.input_pins [] tt)
            (λ inputs on.
              Ensures-bind (Connected nets c endpoint_net known d.output_pins []) (IsShaped nets)
                (connect_outputs c endpoint_net d.output_pins []) _
                (connect_outputs-Connected nets c endpoint_net known d.output_pins [] tt)
                (λ outputs out.
                  Ensures-after (IsShaped nets) (delay_of casts d.primitive c) _ (λ delay read.
                    Ensures-after (IsShaped nets) (scalar_of d.primitive c) _ (λ scalar read.
                      Ensures-bind (StoredBy d.primitive) (IsShaped nets)
                        (vector_of casts d.primitive c) _ (vector_of-StoredBy d.primitive c)
                        (λ vector stored. record {
                          outputs = subst (OutputsOf d.primitive) (omega (arith, out.1)) fits;
                          stored = stored;
                          inputs_on_nets = on;
                          outputs_on_nets = out.0;
                        }))))))
