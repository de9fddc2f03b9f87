-- ===== src/Primitive/Storage.antt =====
-- What the storage primitives of src/digital.rs keep, and when.
use sim_core.Prelude.{ℕ, true, false, ◌≡◌, refl, List, arith, length}
use sim_core.Logic.{
  LogicValue, unknown, logic_eq, logic_buffer, EdgeKind, is_edge, sr_next, buffer, inverter,
}
use sim_core.Bus.{increment_bits}
use sim_core.Primitive.{
  DigitalPrimitive, gate, d_latch, sr_latch, d_flip_flop, jk_flip_flop, t_flip_flop, sr_flip_flop,
  register, counter, RuntimeState, Inputs, buffered, evaluate_inputs, evaluate, inputs_of,
  CompiledDigitalComponent, NetValues, latch, clocked_vector, data_bits,
}

is_edge-same : (v : LogicValue) (edge : EdgeKind) → is_edge v v edge ≡ false
unfolding is_edge
is_edge-same v edge = ground arith

edge_known :
    (previous current : LogicValue) (edge : EdgeKind)
    → is_edge previous current edge ≡ true
    → logic_eq current unknown ≡ false
unfolding is_edge
edge_known previous current edge h = ground arith

pub logic_buffer-twice : (v : LogicValue) → logic_buffer (logic_buffer v) ≡ logic_buffer v
unfolding logic_buffer
logic_buffer-twice v = ground arith

latch-twice : (e q d : LogicValue) → latch e (latch e q d) d ≡ latch e q d
unfolding latch
latch-twice e q d = ground arith

sr_next-twice : (q s r : LogicValue) → sr_next (sr_next q s r) s r ≡ sr_next q s r
unfolding sr_next
sr_next-twice q s r = ground arith

module _ (i : Inputs) (state : RuntimeState) (width : ℕ) (edge : EdgeKind) where
  vector-twice :
      (loaded later : List LogicValue)
      → let bits = clocked_vector width edge i state loaded in
        clocked_vector width edge i
          (record state { bits = bits; previous_clock = buffered i "clk" })
          later
        ≡ bits
  unfolding clocked_vector
  vector-twice loaded later = ground (arith, is_edge-same (buffered i "clk") edge)

module _ {F : Type 0} (outputs : ℕ) (i : Inputs) (state : RuntimeState) where
  evaluate_inputs-twice :
      (p : DigitalPrimitive F)
      → evaluate_inputs p outputs i (evaluate_inputs p outputs i state).1
        ≡ evaluate_inputs p outputs i state
  unfolding evaluate_inputs
  evaluate_inputs-twice (gate buffer) = refl
  evaluate_inputs-twice (gate inverter) = refl
  evaluate_inputs-twice (gate _) = refl
  evaluate_inputs-twice d_latch =
      ground (arith, latch-twice (buffered i "enable") state.q (buffered i "d"))
  evaluate_inputs-twice sr_latch = ground (arith, sr_next-twice state.q (i.read "s") (i.read "r"))
  evaluate_inputs-twice (d_flip_flop edge) = ground (
    arith,
    is_edge-same (buffered i "clk") edge,
    edge_known state.previous_clock (buffered i "clk") edge,
    logic_buffer-twice state.q,
  )
  evaluate_inputs-twice (jk_flip_flop edge) = ground (arith, is_edge-same (buffered i "clk") edge)
  evaluate_inputs-twice (t_flip_flop edge) = ground (arith, is_edge-same (buffered i "clk") edge)
  evaluate_inputs-twice (sr_flip_flop edge) = ground (arith, is_edge-same (buffered i "clk") edge)
  evaluate_inputs-twice (register width edge) =
      ground (arith, vector-twice i state width edge (data_bits i 0 width) (data_bits i 0 width))
  evaluate_inputs-twice (counter width edge) =
      let bits = increment_bits state.bits in
      let stored = clocked_vector width edge i state bits in
      ground (arith, vector-twice i state width edge bits (increment_bits stored))
  evaluate_inputs-twice _ = refl

-- Evaluating a component again on the same nets changes neither its outputs nor its state: an edge
-- is seen once.
pub evaluate-twice :
    {F : Type 0} (c : CompiledDigitalComponent F) (net_values : NetValues) (state : RuntimeState)
    → evaluate c net_values (evaluate c net_values state).1 ≡ evaluate c net_values state
unfolding evaluate
evaluate-twice c net_values state =
    evaluate_inputs-twice (length c.output_nets) (inputs_of c net_values) state c.primitive
