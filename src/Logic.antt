-- ===== src/Logic.antt =====
-- Four-state logic: `LogicValue` of src/waveform.rs, its operations, the gate and edge kinds and the
-- next-state functions of src/digital.rs.
pub mod Exact
pub mod Resolve
use sim_core.Prelude.{ℕ, zero, suc, Bool, true, false, ◌&&◌, List, [], ◌∷◌}

pub data LogicValue : Type 0 where
  low high unknown high_impedance : LogicValue

-- The derived `==`.
abbrev pub logic_eq : LogicValue → LogicValue → Bool
logic_eq low low = true
logic_eq high high = true
logic_eq unknown unknown = true
logic_eq high_impedance high_impedance = true
logic_eq _ _ = false

unfoldable pub is_known : LogicValue → Bool
is_known low = true
is_known high = true
is_known _ = false

unfoldable pub logic_buffer : LogicValue → LogicValue
logic_buffer low = low
logic_buffer high = high
logic_buffer _ = unknown

unfoldable pub logic_not : LogicValue → LogicValue
logic_not low = high
logic_not high = low
logic_not _ = unknown

and_buffered : LogicValue → LogicValue → LogicValue
and_buffered low _ = low
and_buffered _ low = low
and_buffered high high = high
and_buffered _ _ = unknown

unfoldable pub logic_and : LogicValue → LogicValue → LogicValue
unfolding and_buffered logic_buffer
logic_and v w = and_buffered (logic_buffer v) (logic_buffer w)

or_buffered : LogicValue → LogicValue → LogicValue
or_buffered high _ = high
or_buffered _ high = high
or_buffered low low = low
or_buffered _ _ = unknown

unfoldable pub logic_or : LogicValue → LogicValue → LogicValue
unfolding or_buffered logic_buffer
logic_or v w = or_buffered (logic_buffer v) (logic_buffer w)

xor_buffered : LogicValue → LogicValue → LogicValue
xor_buffered low low = low
xor_buffered high high = low
xor_buffered low high = high
xor_buffered high low = high
xor_buffered _ _ = unknown

unfoldable pub logic_xor : LogicValue → LogicValue → LogicValue
unfolding xor_buffered logic_buffer
logic_xor v w = xor_buffered (logic_buffer v) (logic_buffer w)

pub data GateKind : Type 0 where
  buffer inverter and or xor nand nor xnor : GateKind

pub data EdgeKind : Type 0 where
  rising falling : EdgeKind

-- The `Gate` arm of `evaluate`, over the values that it reads; a gate of one input reads only `v`.
unfoldable pub gate_value : GateKind → LogicValue → LogicValue → LogicValue
unfolding logic_buffer logic_not logic_and logic_or logic_xor
gate_value buffer v w = logic_buffer v
gate_value inverter v w = logic_not v
gate_value and v w = logic_and v w
gate_value or v w = logic_or v w
gate_value xor v w = logic_xor v w
gate_value nand v w = logic_not (logic_and v w)
gate_value nor v w = logic_not (logic_or v w)
gate_value xnor v w = logic_not (logic_xor v w)

sr_buffered : LogicValue → LogicValue → LogicValue → LogicValue
sr_buffered current low low = current
sr_buffered current high low = high
sr_buffered current low high = low
sr_buffered current _ _ = unknown

unfoldable pub sr_next : LogicValue → LogicValue → LogicValue → LogicValue
unfolding sr_buffered logic_buffer
sr_next current set reset = sr_buffered current (logic_buffer set) (logic_buffer reset)

unfoldable pub toggle : LogicValue → LogicValue
toggle low = high
toggle high = low
toggle _ = unknown

unfoldable pub q_outputs : LogicValue → ℕ → List LogicValue
unfolding logic_not
q_outputs q zero = []
q_outputs q (suc zero) = q ∷ []
q_outputs q (suc (suc n)) = q ∷ logic_not q ∷ []

unfoldable pub is_edge : LogicValue → LogicValue → EdgeKind → Bool
is_edge previous current rising = logic_eq previous low && logic_eq current high
is_edge previous current falling = logic_eq previous high && logic_eq current low
