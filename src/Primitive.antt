-- ===== src/Primitive.antt =====
-- The digital primitives of src/digital.rs: compiled components, their stored state and `evaluate`.
pub mod Storage
pub mod Hold
pub mod Count
-- Simulated time is `f64` in the program; `F` is the type of its values.
use Prim.Native.Nat.{bit_or}
use sim_core.Prelude.{
  ℕ, zero, suc, ◌*◌, String, Bool, not, ◌&&◌, ◌||◌, Option, none, some, List, [], ◌∷◌, length,
  replicate, is_some, or_default, ◌==◌, if◌then◌else◌,
}
use sim_core.Prelude.Decimal.{numbered}
use sim_core.Prelude.Map.{lookup, string_key}
use sim_core.Logic.{
  LogicValue, low, high, unknown, high_impedance, logic_eq, is_known, logic_buffer, logic_not,
  GateKind, EdgeKind, buffer, inverter, gate_value, sr_next, toggle, q_outputs, is_edge,
}
use sim_core.Bus.{increment_bits}

pub data DigitalPrimitive (F : Type 0) : Type 0 where
  constant : LogicValue → DigitalPrimitive F
  clock : F → F → LogicValue → DigitalPrimitive F
  gate : GateKind → DigitalPrimitive F
  tri_state mux2 demux2 decoder2_to_4 d_latch sr_latch : DigitalPrimitive F
  d_flip_flop jk_flip_flop t_flip_flop sr_flip_flop : EdgeKind → DigitalPrimitive F
  register counter : ℕ → EdgeKind → DigitalPrimitive F
  sink : DigitalPrimitive F

pub record CompiledDigitalComponent (F : Type 0) : Type 0 where
  pub primitive : DigitalPrimitive F
  pub input_nets : List (String × String)
  pub output_nets : List (String × String)
  pub delay : F
  pub initial_scalar : LogicValue
  pub initial_vector : List LogicValue

pub record RuntimeState : Type 0 where
  pub q : LogicValue
  pub bits : List LogicValue
  pub previous_clock : LogicValue

abbrev pub NetValues : Type 0
NetValues = List (String × LogicValue)

abbrev pub Evaluation : Type 0
Evaluation = Option (List LogicValue) × RuntimeState

-- What a component sees of its input pins: the value of each, and whether the pin is connected.
pub record Inputs : Type 0 where
  pub read : String → LogicValue
  pub connected : String → Bool

net_value : Option String → NetValues → LogicValue
net_value none net_values = low
net_value (some net) net_values = or_default (lookup net net_values) low

-- `input`: an unconnected pin, and a net without a value, read low.
unfoldable pub input : {F : Type 0} → CompiledDigitalComponent F → NetValues → String → LogicValue
unfolding net_value
input c net_values pin = net_value (lookup pin c.input_nets) net_values

-- `input(pin).logic_buffer()`.
abbrev pub buffered : Inputs → String → LogicValue
buffered i pin = logic_buffer (i.read pin)

-- `input(pin).logic_buffer()` where the pin is connected, and `default` where not.
abbrev pub buffered_or : LogicValue → Inputs → String → LogicValue
buffered_or default i pin = if i.connected pin then buffered i pin else default

set_reset : LogicValue → LogicValue → Option LogicValue
set_reset low low = none
set_reset high low = some high
set_reset low high = some low
set_reset _ _ = some unknown

unfoldable pub async_set_reset : Inputs → Option LogicValue
unfolding set_reset
async_set_reset i = set_reset (buffered_or low i "set") (buffered_or low i "reset")

unfoldable pub drive : LogicValue → LogicValue → LogicValue
drive low value = high_impedance
drive high value = value
drive _ value = unknown

unfoldable pub choose : LogicValue → LogicValue → LogicValue → LogicValue
choose low a b = a
choose high a b = b
choose _ a b = if logic_eq a b then a else unknown

unfoldable pub route : LogicValue → LogicValue → List LogicValue
route low value = value ∷ low ∷ []
route high value = low ∷ value ∷ []
route _ value = unknown ∷ unknown ∷ []

one_hot : ℕ → ℕ → ℕ → List LogicValue
one_hot index position zero = []
one_hot index position (suc count) =
    (if position == index then high else low) ∷ one_hot index (suc position) count

decode : LogicValue → LogicValue → List LogicValue
unfolding one_hot
decode a b =
    if not (is_known a) || not (is_known b)
    then replicate 4 unknown
    else one_hot
        (bit_or (if logic_eq a high then 1 else 0) (2 * (if logic_eq b high then 1 else 0))) 0 4

unfoldable pub decoder : LogicValue → LogicValue → LogicValue → List LogicValue
unfolding decode
decoder enable a b =
    if logic_eq enable low
    then replicate 4 low
    else if not (logic_eq enable high)
    then replicate 4 unknown
    else decode a b

-- The next `q` of each storage primitive when no asynchronous input acts.
unfoldable pub latch : LogicValue → LogicValue → LogicValue → LogicValue
latch high q d = d
latch low q d = q
latch _ q d = unknown

unfoldable pub jk_next : LogicValue → LogicValue → LogicValue → LogicValue
jk_next q low low = q
jk_next q low high = low
jk_next q high low = high
jk_next q high high = toggle q
jk_next q _ _ = unknown

unfoldable pub t_next : LogicValue → LogicValue → LogicValue
t_next q low = q
t_next q high = toggle q
t_next q _ = unknown

unfoldable pub data_bits : Inputs → ℕ → ℕ → List LogicValue
unfolding logic_buffer numbered
data_bits i bit zero = []
data_bits i bit (suc count) = buffered i (numbered "d" bit) ∷ data_bits i (suc bit) count

-- The bits after an edge: kept, loaded or lost as `enable` says.
enabled : LogicValue → List LogicValue → List LogicValue → ℕ → List LogicValue
enabled low bits loaded width = bits
enabled high bits loaded width = loaded
enabled _ bits loaded width = replicate width unknown

-- The end of each storage arm: the new value is stored and put out.
store_q : LogicValue → ℕ → RuntimeState → Evaluation
store_q q outputs state = (some (q_outputs q outputs), record state { q = q })

clocked_q : LogicValue → LogicValue → ℕ → RuntimeState → Evaluation
clocked_q q clk outputs state =
    (some (q_outputs q outputs), record state { q = q; previous_clock = clk })

clocked_bits : List LogicValue → LogicValue → RuntimeState → Evaluation
clocked_bits bits clk state = (some bits, record state { bits = bits; previous_clock = clk })

abbrev pub clocked : LogicValue → EdgeKind → Inputs → RuntimeState → LogicValue → LogicValue
clocked otherwise edge i state next =
    or_default (async_set_reset i)
      (if is_edge state.previous_clock (buffered i "clk") edge then next else otherwise)

unfoldable pub clocked_vector :
    ℕ → EdgeKind → Inputs → RuntimeState → List LogicValue → List LogicValue
unfolding enabled
clocked_vector width edge i state loaded =
    if i.connected "reset" && logic_eq (i.read "reset") high
    then replicate width low
    else if is_edge state.previous_clock (buffered i "clk") edge
    then enabled (buffered_or high i "enable") state.bits loaded width
    else state.bits

-- The `match` of `evaluate`; `outputs` is the number of output pins.
unfoldable pub evaluate_inputs :
    {F : Type 0} → DigitalPrimitive F → ℕ → Inputs → RuntimeState → Evaluation
unfolding store_q clocked_q clocked_bits
evaluate_inputs (gate buffer) outputs i state =
    (some (gate_value buffer (i.read "in") (i.read "in") ∷ []), state)
evaluate_inputs (gate inverter) outputs i state =
    (some (gate_value inverter (i.read "in") (i.read "in") ∷ []), state)
evaluate_inputs (gate kind) outputs i state =
    (some (gate_value kind (i.read "a") (i.read "b") ∷ []), state)
evaluate_inputs tri_state outputs i state =
    (some (drive (buffered i "enable") (buffered i "in") ∷ []), state)
evaluate_inputs mux2 outputs i state =
    (some (choose (buffered i "sel") (buffered i "a") (buffered i "b") ∷ []), state)
evaluate_inputs demux2 outputs i state = (some (route (buffered i "sel") (buffered i "in")), state)
evaluate_inputs decoder2_to_4 outputs i state =
    (some (decoder (buffered i "enable") (buffered i "a") (buffered i "b")), state)
evaluate_inputs d_latch outputs i state =
    store_q (or_default (async_set_reset i) (latch (buffered i "enable") state.q (buffered i "d")))
      outputs state
evaluate_inputs sr_latch outputs i state =
    store_q (or_default (async_set_reset i) (sr_next state.q (i.read "s") (i.read "r"))) outputs
      state
evaluate_inputs (d_flip_flop edge) outputs i state =
    let clk = buffered i "clk" in
    let held = if logic_eq clk unknown then logic_buffer state.q else state.q in
    clocked_q (clocked held edge i state (buffered i "d")) clk outputs state
evaluate_inputs (jk_flip_flop edge) outputs i state =
    clocked_q (clocked state.q edge i state (jk_next state.q (buffered i "j") (buffered i "k")))
      (buffered i "clk") outputs state
evaluate_inputs (t_flip_flop edge) outputs i state =
    clocked_q (clocked state.q edge i state (t_next state.q (buffered i "t"))) (buffered i "clk")
      outputs state
evaluate_inputs (sr_flip_flop edge) outputs i state =
    clocked_q (clocked state.q edge i state (sr_next state.q (i.read "s") (i.read "r")))
      (buffered i "clk") outputs state
evaluate_inputs (register width edge) outputs i state =
    clocked_bits (clocked_vector width edge i state (data_bits i 0 width)) (buffered i "clk") state
evaluate_inputs (counter width edge) outputs i state =
    clocked_bits (clocked_vector width edge i state (increment_bits state.bits)) (buffered i "clk")
      state
evaluate_inputs (constant value) outputs i state = (none, state)
evaluate_inputs (clock period duty_cycle initial) outputs i state = (none, state)
evaluate_inputs sink outputs i state = (none, state)

abbrev pub inputs_of : {F : Type 0} → CompiledDigitalComponent F → NetValues → Inputs
inputs_of c net_values = record {
  read = input c net_values;
  connected = λ pin. is_some (lookup pin c.input_nets);
}

-- `CompiledDigitalComponent::evaluate`: the outputs, if it has any, and the new state.
unfoldable pub evaluate :
    {F : Type 0} → CompiledDigitalComponent F → NetValues → RuntimeState → Evaluation
unfolding evaluate_inputs input logic_buffer logic_not gate_value drive choose route decoder latch
    jk_next t_next sr_next toggle q_outputs is_edge async_set_reset data_bits clocked_vector
    increment_bits lookup
evaluate c net_values state =
    evaluate_inputs c.primitive (length c.output_nets) (inputs_of c net_values) state

-- `RuntimeState::for_component`.
unfoldable pub for_component : {F : Type 0} → CompiledDigitalComponent F → RuntimeState
for_component c = record { q = c.initial_scalar; bits = c.initial_vector; previous_clock = unknown }

unfoldable pub initial_outputs :
    {F : Type 0} → DigitalPrimitive F → ℕ → RuntimeState → List LogicValue
unfolding q_outputs
initial_outputs (register width edge) outputs state = state.bits
initial_outputs (counter width edge) outputs state = state.bits
initial_outputs d_latch outputs state = q_outputs state.q outputs
initial_outputs sr_latch outputs state = q_outputs state.q outputs
initial_outputs (d_flip_flop edge) outputs state = q_outputs state.q outputs
initial_outputs (jk_flip_flop edge) outputs state = q_outputs state.q outputs
initial_outputs (t_flip_flop edge) outputs state = q_outputs state.q outputs
initial_outputs (sr_flip_flop edge) outputs state = q_outputs state.q outputs
initial_outputs _ outputs state = []
