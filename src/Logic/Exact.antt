-- ===== src/Logic/Exact.antt =====
-- The gates of src/digital.rs against the Boolean gates that they stand for.
use sim_core.Prelude.{Bool, true, false, ◌≡◌, ◌↔◌, arith, not, ◌&&◌, ◌||◌}
use sim_core.Logic.{
  LogicValue, low, high, GateKind, buffer, inverter, and, or, xor, nand, nor, xnor, gate_value,
}

abbrev pub of_bool : Bool → LogicValue
of_bool false = low
of_bool true = high

-- The Boolean levels that a four-state value may stand for.
abbrev pub Completes : LogicValue → Bool → Type 0
Completes low p = p ≡ false
Completes high p = p ≡ true
Completes _ p = Unit

abbrev pub differ : Bool → Bool → Bool
differ true q = not q
differ false q = q

abbrev pub bool_gate : GateKind → Bool → Bool → Bool
bool_gate buffer p q = p
bool_gate inverter p q = not p
bool_gate and p q = p && q
bool_gate or p q = p || q
bool_gate xor p q = differ p q
bool_gate nand p q = not (p && q)
bool_gate nor p q = not (p || q)
bool_gate xnor p q = not (differ p q)

-- A gate gives a Boolean level exactly when every completion of its two inputs gives that level in
-- the Boolean gate.
pub gate_value-exact :
    (g : GateKind) (v w : LogicValue) (r : Bool)
    → (gate_value g v w ≡ of_bool r)
      ↔ ((p q : Bool) → Completes v p → Completes w q → bool_gate g p q ≡ r)
unfolding gate_value
gate_value-exact g v w r = (
  λ h p q hp hq. ground arith,
  λ h. ground (arith, h true true, h true false, h false true, h false false),
)
