-- ===== src/Examples/Levels.antt =====
-- Gates, nets, buses and primitives of src/digital.rs at concrete inputs.

use sim_core.Prelude.{
  ℕ, ◌+◌, ◌%◌, ◌^◌, ◌||◌, if◌then◌else◌, Bool, true, false, ◌≡◌, refl, ◌↔◌, inl, str_eq, List, [],
  ◌∷◌, some, arith, length,
}
use sim_core.Prelude.Result.{ok}
use sim_core.Logic.{
  LogicValue, low, high, unknown, high_impedance, GateKind, and, is_known, gate_value, rising,
  falling,
}
use sim_core.Logic.Exact.{of_bool, Completes, bool_gate, gate_value-exact}
use sim_core.Logic.Resolve.{DriverKey, resolve_net, resolve_net-cases, Released, Agree}
use sim_core.Bus.{from_u64, to_u64, increment_bits}
use sim_core.Bus.Number.{AllKnown, number, to_u64-from_u64, from_u64-to_u64}
use sim_core.Bus.Increment.{increment_bits-number}
use sim_core.Primitive.{
  DigitalPrimitive, CompiledDigitalComponent, RuntimeState, NetValues, Inputs, evaluate,
  jk_flip_flop, counter,
}
use sim_core.Primitive.Storage.{evaluate-twice}
use sim_core.Primitive.Count.{pulses, pulses-number}

gate_value-exact_example :
    (gate_value and low unknown ≡ of_bool false)
    ↔ ((p q : Bool) → Completes low p → Completes unknown q → bool_gate and p q ≡ false)
gate_value-exact_example = gate_value-exact and low unknown false

abbrev first : DriverKey
first = record { component = 0; output = 0 }

abbrev second : DriverKey
second = record { component = 1; output = 0 }

-- The first driver is released and the second drives high.
abbrev shared_bus : List (DriverKey × LogicValue)
shared_bus = (first, high_impedance) ∷ (second, high) ∷ []

abbrev both : List DriverKey
both = first ∷ second ∷ []

resolve_net-cases_example :
    ((resolve_net both shared_bus ≡ high_impedance) ↔ Released shared_bus both)
    × ((level : LogicValue)
        → is_known level ≡ true
        → (resolve_net both shared_bus ≡ level)
          ↔ (Agree shared_bus level both × (¬ Released shared_bus both)))
resolve_net-cases_example = resolve_net-cases shared_bus both (λ e. cc)

to_u64-from_u64_example :
    (vs : List LogicValue) × (from_u64 3 13 ≡ ok vs)
    × (length vs ≡ 3)
    × (to_u64 vs ≡ some (13 % 2 ^ 3))
to_u64-from_u64_example = to_u64-from_u64 3 13 (omega arith) (omega arith)

abbrev six : List LogicValue
six = low ∷ high ∷ high ∷ []

six-to_u64 : to_u64 six ≡ some 6
unfolding to_u64
six-to_u64 = refl

from_u64-to_u64_example : from_u64 3 6 ≡ ok six
from_u64-to_u64_example = from_u64-to_u64 six (omega arith) six-to_u64

six-AllKnown : AllKnown six
unfolding is_known
six-AllKnown = (refl, (refl, (refl, tt)))

increment_bits-number_example :
    to_u64 (increment_bits six) ≡ some ((number six + 1) % 2 ^ length six)
increment_bits-number_example = increment_bits-number six six-AllKnown (omega arith)

abbrev flip_flop : CompiledDigitalComponent ℕ
flip_flop = record {
  primitive = jk_flip_flop rising;
  input_nets = ("clk", "clock") ∷ ("j", "one") ∷ ("k", "one") ∷ [];
  output_nets = ("q", "out") ∷ [];
  delay = 1;
  initial_scalar = low;
  initial_vector = [];
}

abbrev stored : RuntimeState
stored = record { q = low; bits = []; previous_clock = low }

abbrev clock_up : NetValues
clock_up = ("clock", high) ∷ ("one", high) ∷ []

evaluate-twice_example :
    evaluate flip_flop clock_up (evaluate flip_flop clock_up stored).1
    ≡ evaluate flip_flop clock_up stored
evaluate-twice_example = evaluate-twice flip_flop clock_up stored

-- Pins `clk` and `reset` at the given levels, the rest not connected and so low.
abbrev pins : LogicValue → LogicValue → Inputs
pins clk reset = record {
  read = λ pin. if str_eq pin "clk" then clk else if str_eq pin "reset" then reset else low;
  connected = λ pin. str_eq pin "clk" || str_eq pin "reset";
}

abbrev clock_pin : LogicValue → Inputs
clock_pin clk = record {
  read = λ pin. if str_eq pin "clk" then clk else low;
  connected = λ pin. str_eq pin "clk";
}

abbrev counting : RuntimeState
counting = record { q = low; bits = six; previous_clock = low }

pulses-number_example :
    to_u64 (pulses ℕ 3 3 falling (clock_pin high) (clock_pin low) 5 counting).bits
    ≡ some ((number six + 5) % 2 ^ length six)
pulses-number_example =
    pulses-number ℕ 3 3 falling (clock_pin high) (clock_pin low) 5 counting
      (record { clock_at = refl; no_reset = refl; enable = inl refl })
      (record { clock_at = refl; no_reset = refl; enable = inl refl }) six-AllKnown (omega arith)
