-- ===== src/Program/Design.antt =====
-- The primitives that `compile_component` of src/digital.rs makes of a component's kind: their pins
-- and their parameters.
use sim_core.Prelude.{ℕ, zero, suc, String, List, [], ◌∷◌, ◌++◌, or_default, if◌then◌else◌}
use sim_core.Prelude.Decimal.{numbered}
use sim_core.Prelude.Map.{lookup, string_key}
use sim_core.Prelude.Result.{Result, ok, ok_or, ◌>>=◌}
use sim_core.Float.{Float, Casts}
use sim_core.Circuit.{Component, has_pin}
use sim_core.Logic.{low, GateKind, buffer, inverter, and, or, xor, nand, nor, xnor}
use sim_core.Primitive.{
  DigitalPrimitive, constant, clock, gate, tri_state, mux2, demux2, decoder2_to_4, d_latch,
  sr_latch, d_flip_flop, jk_flip_flop, t_flip_flop, sr_flip_flop, register, counter, sink,
}
use sim_core.Program.Parameters.{
  required_logic_value, optional_logic_value, required_positive_seconds, duty_cycle, edge_kind,
  component_width,
}

pub data DigitalKind : Type 0 where
  logic_input digital_clock logic_output : DigitalKind
  logic_gate : GateKind → DigitalKind
  tri_state_buffer multiplexer demultiplexer decoder data_latch set_reset_latch : DigitalKind
  data_flip_flop jk toggling set_reset_flip_flop register_bank counter_bank : DigitalKind

-- The texts of the `match` on a component's kind.
abbrev pub kinds : List (String × DigitalKind)
kinds =
    ("logic_input", logic_input)
    ∷ ("digital_clock", digital_clock)
    ∷ ("logic_output", logic_output)
    ∷ ("buffer", logic_gate buffer)
    ∷ ("not_gate", logic_gate inverter)
    ∷ ("and_gate", logic_gate and)
    ∷ ("or_gate", logic_gate or)
    ∷ ("xor_gate", logic_gate xor)
    ∷ ("nand_gate", logic_gate nand)
    ∷ ("nor_gate", logic_gate nor)
    ∷ ("xnor_gate", logic_gate xnor)
    ∷ ("tri_state_buffer", tri_state_buffer)
    ∷ ("mux2", multiplexer)
    ∷ ("demux2", demultiplexer)
    ∷ ("decoder2_to_4", decoder)
    ∷ ("d_latch", data_latch)
    ∷ ("sr_latch", set_reset_latch)
    ∷ ("d_flip_flop", data_flip_flop)
    ∷ ("jk_flip_flop", jk)
    ∷ ("t_flip_flop", toggling)
    ∷ ("sr_flip_flop", set_reset_flip_flop)
    ∷ ("register", register_bank)
    ∷ ("counter", counter_bank)
    ∷ []

-- The variables of `compile_component` after the `match`.
pub record Design (F : Type 0) : Type 0 where
  pub primitive : DigitalPrimitive F
  pub input_pins : List String
  pub output_pins : List String

gate_inputs : GateKind → List String
gate_inputs buffer = "in" ∷ []
gate_inputs inverter = "in" ∷ []
gate_inputs _ = "a" ∷ "b" ∷ []

-- `format!("{prefix}{bit}")` for the bits from `bit` on.
unfoldable pub pins_from : String → ℕ → ℕ → List String
unfolding numbered
pins_from prefix bit zero = []
pins_from prefix bit (suc count) = numbered prefix bit ∷ pins_from prefix (suc bit) count

module _ {F : Type 0} where
  abbrev pub design : DigitalPrimitive F → List String → List String → Design F
  design p inputs outputs = record { primitive = p; input_pins = inputs; output_pins = outputs }

  -- `gate_primitive`.
  unfoldable pub gate_design : GateKind → Design F
  unfolding gate_inputs
  gate_design kind = design (gate kind) (gate_inputs kind) ("out" ∷ [])

  -- `append_optional_inputs` and `append_optional_outputs`, which are alike.
  unfoldable pub optional_pins : Component F → List String → List String
  optional_pins c [] = []
  optional_pins c (name ∷ names) =
      if has_pin c name then name ∷ optional_pins c names else optional_pins c names

  -- A latch or flip-flop.
  unfoldable pub storage_design : Component F → DigitalPrimitive F → List String → Design F
  unfolding optional_pins
  storage_design c p inputs =
      design p (inputs ++ optional_pins c ("set" ∷ "reset" ∷ []))
        ("q" ∷ optional_pins c ("nq" ∷ []))

module _ {fl : Float} (casts : Casts fl) where
  open fl use {F}

  -- The arms of the `match`.
  unfoldable pub design_of : DigitalKind → Component F → Result (Design F)
  unfolding gate_design storage_design optional_pins pins_from
  design_of logic_input c = do
    value ← required_logic_value c "value"
    ok (design (constant value) [] ("out" ∷ []))
  design_of digital_clock c = do
    period ← required_positive_seconds casts c "period"
    duty ← duty_cycle casts c
    initial ← optional_logic_value c "initial"
    ok (design (clock period duty (or_default initial low)) [] ("out" ∷ []))
  design_of logic_output c = ok (design sink ("in" ∷ []) [])
  design_of (logic_gate kind) c = ok (gate_design kind)
  design_of tri_state_buffer c = ok (design tri_state ("in" ∷ "enable" ∷ []) ("out" ∷ []))
  design_of multiplexer c = ok (design mux2 ("a" ∷ "b" ∷ "sel" ∷ []) ("out" ∷ []))
  design_of demultiplexer c = ok (design demux2 ("in" ∷ "sel" ∷ []) ("a" ∷ "b" ∷ []))
  design_of decoder c = ok (design decoder2_to_4 ("a" ∷ "b" ∷ "enable" ∷ []) (pins_from "y" 0 4))
  design_of data_latch c = ok (storage_design c d_latch ("d" ∷ "enable" ∷ []))
  design_of set_reset_latch c = ok (storage_design c sr_latch ("s" ∷ "r" ∷ []))
  design_of data_flip_flop c = do
    edge ← edge_kind c
    ok (storage_design c (d_flip_flop edge) ("d" ∷ "clk" ∷ []))
  design_of jk c = do
    edge ← edge_kind c
    ok (storage_design c (jk_flip_flop edge) ("j" ∷ "k" ∷ "clk" ∷ []))
  design_of toggling c = do
    edge ← edge_kind c
    ok (storage_design c (t_flip_flop edge) ("t" ∷ "clk" ∷ []))
  design_of set_reset_flip_flop c = do
    edge ← edge_kind c
    ok (storage_design c (sr_flip_flop edge) ("s" ∷ "r" ∷ "clk" ∷ []))
  design_of register_bank c = do
    width ← component_width casts c
    edge ← edge_kind c
    ok (
        design (register width edge)
          (pins_from "d" 0 width ++ "clk" ∷ optional_pins c ("enable" ∷ "reset" ∷ []))
          (pins_from "q" 0 width))
  design_of counter_bank c = do
    width ← component_width casts c
    edge ← edge_kind c
    ok (
        design (counter width edge) ("clk" ∷ optional_pins c ("enable" ∷ "reset" ∷ []))
          (pins_from "q" 0 width))

  unfoldable pub component_design : Component F → Result (Design F)
  unfolding design_of
  component_design c = do
    kind ← ok_or (lookup c.kind kinds) "digital_unsupported_component"
    design_of kind c
