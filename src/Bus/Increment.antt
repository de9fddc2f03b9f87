-- ===== src/Bus/Increment.antt =====
-- The increment of a counter's bits in src/digital.rs adds one, modulo the width.
use Prim.Native.Nat.{bit_and}
use native.Mathlib.Nat.{mod-eq_of_lt, mod-mod, pow-le-pow_right}
use sim_core.Prelude.{
  ℕ, ◌+◌, ◌-◌, ◌%◌, ◌^◌, ◌≤◌, ◌<◌, ◌≡◌, refl, ◌∙◌, ap, inl, inr, List, [], ◌∷◌, none, some, length,
  replicate, length-replicate, ◌==◌, if◌then◌else◌, arith, Bool-cases, Option-cases,
}
use sim_core.Prelude.Bits.{bit_and-mask}
use sim_core.Logic.{LogicValue, unknown, is_known}
use sim_core.Bus.{
  bits_from, from_u64, to_u64, increment_bits, increment_value, all_unknown, u64_modulus,
}
use sim_core.Bus.Number.{
  AllKnown, number, number-lt, to_u64-number, to_u64-some, from_u64-bits, number-bits_from,
  length-bits_from, bits_from-AllKnown,
}

abbrev increment_mask : ℕ → ℕ
increment_mask width = if width == 64 then u64_modulus - 1 else 2 ^ width - 1

increment_mask-eq : (width : ℕ) → increment_mask width ≡ 2 ^ width - 1
increment_mask-eq width = elim (Bool-cases (width == 64)) [
  | inl full ↦ let w : width ≡ 64 = ground arith in rw (full, w) refl
  | inr less ↦ rw less refl
]

-- A value of the bus does not wrap at 64 bits before the mask is applied.
masked :
    (width value : ℕ)
    → value < 2 ^ width
    → width ≤ 64
    → bit_and ((value + 1) % u64_modulus) (increment_mask width) ≡ (value + 1) % 2 ^ width
masked width value lt h = rw (increment_mask-eq width) (
    bit_and-mask width ((value + 1) % u64_modulus) ∙ elim (Bool-cases (width == 64)) [
      | inl full ↦ let w : width ≡ 64 = ground arith in rw w (mod-mod (value + 1) (2 ^ 64))
      | inr less ↦
          let small : width ≤ 63 = ground arith in
          let fits = pow-le-pow_right {n = 2} (omega arith) small in
          ap (λ n. n % 2 ^ width) (mod-eq_of_lt (omega (arith, fits)))
    ])

increment_value-bits :
    (width value : ℕ)
    → 0 < width
    → value < 2 ^ width
    → width ≤ 64
    → increment_value width (some value) ≡ bits_from width 0 ((value + 1) % 2 ^ width)
unfolding increment_value all_unknown
increment_value-bits width value p lt h =
    rw (masked width value lt h, from_u64-bits width ((value + 1) % 2 ^ width) p h) refl

increment_bits-bits :
    (v : LogicValue) (vs : List LogicValue)
    → AllKnown (v ∷ vs)
    → length (v ∷ vs) ≤ 64
    → increment_bits (v ∷ vs)
      ≡ bits_from (length (v ∷ vs)) 0 ((number (v ∷ vs) + 1) % 2 ^ length (v ∷ vs))
unfolding increment_bits
increment_bits-bits v vs k h =
    let bits = v ∷ vs in
    ap (increment_value (length bits)) (to_u64-number bits k h)
    ∙ increment_value-bits (length bits) (number bits) (omega arith) (number-lt bits) h

-- Incrementing a bus of at most 64 levels adds one modulo 2 ^ width.
pub increment_bits-number :
    (vs : List LogicValue)
    → AllKnown vs
    → length vs ≤ 64
    → to_u64 (increment_bits vs) ≡ some ((number vs + 1) % 2 ^ length vs)
increment_bits-number [] k h = unfold increment_bits to_u64 is_known from_u64 in refl
increment_bits-number (v ∷ vs) k h =
    let width = length (v ∷ vs) in
    let sum = (number (v ∷ vs) + 1) % 2 ^ width in
    rw (increment_bits-bits v vs k h) (
      to_u64-number (bits_from width 0 sum) (bits_from-AllKnown width 0 sum)
        (omega (arith, length-bits_from width 0 sum))
      ∙ ap some (number-bits_from width sum ∙ mod-mod (number (v ∷ vs) + 1) (2 ^ width)))

-- A bus that cannot be read as a number, with a bit that is no level or more than 64 bits, becomes
-- unknown in every bit.
pub increment_bits_unknown :
    (vs : List LogicValue) → to_u64 vs ≡ none → increment_bits vs ≡ replicate (length vs) unknown
unfolding increment_bits increment_value
increment_bits_unknown vs e = rw (e, increment_value)

-- The width is kept in every case.
pub length-increment_bits : (vs : List LogicValue) → length (increment_bits vs) ≡ length vs
length-increment_bits [] = unfold increment_bits to_u64 is_known from_u64 in refl
length-increment_bits (v ∷ vs) = elim (Option-cases (to_u64 (v ∷ vs))) [
  | inl e ↦
      ap length (increment_bits_unknown (v ∷ vs) e) ∙ length-replicate (length (v ∷ vs)) unknown
  | inr (value, e) ↦
      let (known, short) = to_u64-some (v ∷ vs) e in
      ap length (increment_bits-bits v vs known short) ∙ length-bits_from _ 0 _
]
