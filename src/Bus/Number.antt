-- ===== src/Bus/Number.antt =====
-- Buses of src/digital.rs as binary numbers: round trips, and counting modulo the width.
use Prim.Native.Nat.{bit_or}
use native.Mathlib.Nat.{div-one, pow-suc}
use sim_core.Prelude.{
  ℕ, zero, suc, ◌+◌, ◌*◌, ◌/◌, ◌%◌, ◌^◌, ◌≤◌, ◌<◌, ◌≡◌, refl, ◌∙◌, ap, true, false, not, List, [],
  ◌∷◌, some, any, length, All, if◌then◌else◌, arith,
}
use sim_core.Prelude.Bits.{bit_and-one, bit_or-power, div-pow_suc, mod-pow_suc}
use sim_core.Prelude.Result.{ok}
use sim_core.Logic.{LogicValue, high, is_known, logic_eq}
use sim_core.Bus.{bits_from, bit_level, from_u64, to_u64, set_bits, validate_width}

abbrev pub AllKnown : List LogicValue → Type 0
AllKnown = All λ v. is_known v ≡ true

abbrev pub level_number : LogicValue → ℕ
level_number high = 1
level_number _ = 0

-- The number that a bus of levels writes in binary.
abbrev pub number : List LogicValue → ℕ
number [] = 0
number (v ∷ vs) = level_number v + 2 * number vs

bit_level-number : (value bit : ℕ) → level_number (bit_level value bit) ≡ value / 2 ^ bit % 2
unfolding bit_level
bit_level-number value bit = ground (arith, bit_and-one (value / 2 ^ bit))

bit_level-known : (value bit : ℕ) → is_known (bit_level value bit) ≡ true
unfolding bit_level is_known
bit_level-known value bit = ground arith

bits_from-shift :
    (count bit value : ℕ) → bits_from count (suc bit) value ≡ bits_from count bit (value / 2)
unfolding bits_from
bits_from-shift zero bit value = refl
bits_from-shift (suc count) bit value =
    rw (div-pow_suc value bit, bits_from-shift count (suc bit) value)

pub number-bits_from : (count value : ℕ) → number (bits_from count 0 value) ≡ value % 2 ^ count
unfolding bits_from
number-bits_from zero value = omega arith
number-bits_from (suc count) value = omega (
  arith,
  ap number (bits_from-shift count 0 value),
  number-bits_from count (value / 2),
  bit_level-number value 0,
  mod-pow_suc value count,
  div-one value,
)

pub bits_from-AllKnown : (count bit value : ℕ) → AllKnown (bits_from count bit value)
unfolding bits_from
bits_from-AllKnown zero bit value = tt
bits_from-AllKnown (suc count) bit value =
    (bit_level-known value bit, bits_from-AllKnown count (suc bit) value)

pub length-bits_from : (count bit value : ℕ) → length (bits_from count bit value) ≡ count
unfolding bits_from
length-bits_from zero bit value = refl
length-bits_from (suc count) bit value = ap suc (length-bits_from count (suc bit) value)

set_level :
    (bit result : ℕ) (v : LogicValue)
    → result < 2 ^ bit
    → (if logic_eq v high then bit_or result (2 ^ bit) else result)
      ≡ result + 2 ^ bit * level_number v
set_level bit result v h = ground (arith, bit_or-power bit result)

level_number-le : (v : LogicValue) → level_number v ≤ 1
level_number-le v = ground arith

set_bits-number :
    (bit result : ℕ) (vs : List LogicValue)
    → result < 2 ^ bit
    → set_bits bit result vs ≡ result + 2 ^ bit * number vs
unfolding set_bits
set_bits-number bit result [] h = omega arith
set_bits-number bit result (v ∷ vs) h =
    let size = 2 ^ bit in
    let result' = result + size * level_number v in
    let below : result' < 2 ^ suc bit = grind (arith, pow-suc 2 bit, level_number-le v) in
    rw (set_level bit result v h) (
      omega (
        arith,
        set_bits-number (suc bit) result' vs below,
        ap (λ (t : ℕ). t * number vs) (pow-suc 2 bit),
      ))

AllKnown-any : (vs : List LogicValue) → AllKnown vs → any (λ v. not (is_known v)) vs ≡ false
AllKnown-any [] h = refl
AllKnown-any (v ∷ vs) h = ground (arith, AllKnown-any vs h.1)

pub to_u64-number :
    (vs : List LogicValue) → AllKnown vs → length vs ≤ 64 → to_u64 vs ≡ some (number vs)
unfolding to_u64
to_u64-number vs k h = ground (arith, AllKnown-any vs k, set_bits-number 0 0 vs)

width_ok : (width : ℕ) → 0 < width → width ≤ 64 → validate_width width ≡ ok tt
unfolding validate_width
width_ok width p h = ground arith

pub from_u64-bits :
    (width value : ℕ) → 0 < width → width ≤ 64 → from_u64 width value ≡ ok (bits_from width 0 value)
unfolding from_u64
from_u64-bits width value p h = rw (width_ok width p h)

-- Packing a number into a bus of 1 to 64 bits and reading it back keeps it modulo 2 ^ width; the
-- bus has that width.
pub to_u64-from_u64 :
    (width value : ℕ)
    → 0 < width
    → width ≤ 64
    → (vs : List LogicValue) × (from_u64 width value ≡ ok vs)
      × (length vs ≡ width)
      × (to_u64 vs ≡ some (value % 2 ^ width))
to_u64-from_u64 width value p h =
    let vs = bits_from width 0 value in
    let len = length-bits_from width 0 value in
    (
      vs,
      from_u64-bits width value p h,
      len,
      to_u64-number vs (bits_from-AllKnown width 0 value) (omega (arith, len))
          ∙ ap some (number-bits_from width value),
    )

bit_level-level :
    (v : LogicValue) (n : ℕ) → is_known v ≡ true → bit_level (level_number v + 2 * n) 0 ≡ v
unfolding bit_level is_known
bit_level-level v n k =
    let size = level_number v + 2 * n in ground (arith, bit_and-one (size / 1), div-one size)

bits_from-number : (vs : List LogicValue) → AllKnown vs → bits_from (length vs) 0 (number vs) ≡ vs
unfolding bits_from
bits_from-number [] k = refl
bits_from-number (v ∷ vs) k =
    let half : (level_number v + 2 * number vs) / 2 ≡ number vs =
      omega (arith, level_number-le v) in
    rw (
      bit_level-level v (number vs) k.0,
      bits_from-shift (length vs) 0 (level_number v + 2 * number vs),
      half,
      bits_from-number vs k.1,
    )

pub number-lt : (vs : List LogicValue) → number vs < 2 ^ length vs
number-lt [] = omega arith
number-lt (v ∷ vs) = omega (arith, level_number-le v, number-lt vs, pow-suc 2 (length vs))

any-AllKnown : (vs : List LogicValue) → any (λ v. not (is_known v)) vs ≡ false → AllKnown vs
any-AllKnown [] h = tt
any-AllKnown (v ∷ vs) h = ground (arith, any-AllKnown vs)

-- `to_u64` succeeds only on levels, on at most 64 of them.
pub to_u64-some :
    (vs : List LogicValue) {value : ℕ} → to_u64 vs ≡ some value → AllKnown vs × (length vs ≤ 64)
unfolding to_u64
to_u64-some vs e = ground (arith, any-AllKnown vs)

-- Reading a bus of levels of 1 to 64 bits as a number and packing it again gives the same bus.
pub from_u64-to_u64 :
    (vs : List LogicValue) {value : ℕ}
    → 0 < length vs
    → to_u64 vs ≡ some value
    → from_u64 (length vs) value ≡ ok vs
from_u64-to_u64 vs {value} p e =
    let (known, short) = to_u64-some vs e in
    let same : value ≡ number vs = cc (to_u64-number vs known short) in
    from_u64-bits (length vs) value p short ∙ ap ok (rw same (bits_from-number vs known))
