-- ===== src/Bus.antt =====
-- `LogicVector` of src/digital.rs and the increment of a counter's bits, lowest bit first.
pub mod Number
pub mod Increment
use Prim.Native.Nat.{bit_and, bit_or}
use sim_core.Prelude.{
  ℕ, zero, suc, ◌+◌, ◌-◌, ◌/◌, ◌%◌, ◌^◌, Bool, not, List, [], ◌∷◌, Option, none, some, any, length,
  replicate, ltb, ◌==◌, ◌||◌, if◌then◌else◌,
}
use sim_core.Prelude.Result.{Result, ok, err, reject, ◌>>=◌, ◌>>◌}
use sim_core.Logic.{LogicValue, low, high, unknown, is_known, logic_eq}

-- `MAX_DIGITAL_BUS_WIDTH`.
abbrev pub max_digital_bus_width : ℕ
max_digital_bus_width = 64

abbrev pub u64_modulus : ℕ
u64_modulus = 2 ^ 64

unfoldable pub validate_width : ℕ → Result (Unit {0})
validate_width width =
    reject (width == 0 || ltb max_digital_bus_width width) "digital_invalid_bus_width"

-- `(value >> bit) & 1 == 1`.
bit_level : ℕ → ℕ → LogicValue
bit_level value bit = if bit_and (value / 2 ^ bit) 1 == 1 then high else low

-- The map over `bit..bit + count`.
pub bits_from : ℕ → ℕ → ℕ → List LogicValue
unfolding bit_level
bits_from zero bit value = []
bits_from (suc count) bit value = bit_level value bit ∷ bits_from count (suc bit) value

unfoldable pub from_u64 : ℕ → ℕ → Result (List LogicValue)
unfolding validate_width bits_from
from_u64 width value = do validate_width width; ok (bits_from width 0 value)

-- The loop of `to_u64` from bit `bit` on.
set_bits : ℕ → ℕ → List LogicValue → ℕ
set_bits bit result [] = result
set_bits bit result (v ∷ vs) =
    set_bits (suc bit) (if logic_eq v high then bit_or result (2 ^ bit) else result) vs

unfoldable pub to_u64 : List LogicValue → Option ℕ
unfolding set_bits is_known
to_u64 vs =
    if ltb 64 (length vs) || any (λ v. not (is_known v)) vs then none else some (set_bits 0 0 vs)

all_unknown : Result (List LogicValue) → ℕ → List LogicValue
all_unknown (ok vs) width = vs
all_unknown (err e) width = replicate width unknown

-- `value.wrapping_add(1) & mask`, back in bits.
increment_value : ℕ → Option ℕ → List LogicValue
unfolding all_unknown from_u64
increment_value width none = replicate width unknown
increment_value width (some value) =
    let mask = if width == 64 then u64_modulus - 1 else 2 ^ width - 1 in
    all_unknown (from_u64 width (bit_and ((value + 1) % u64_modulus) mask)) width

unfoldable pub increment_bits : List LogicValue → List LogicValue
unfolding increment_value to_u64
increment_bits bits = increment_value (length bits) (to_u64 bits)
