-- ===== src/Prelude/Bits.antt =====
-- The bit operations that the program uses on `u64`, read as arithmetic.
use Prim.Native.Nat.{
  ℕ, zero, suc, ◌+◌, ◌-◌, ◌*◌, ◌/◌, ◌%◌, ◌^◌, ◌≤◌, ◌<◌, min, max, bit_and, bit_or, digits,
  bit_and-bitwise, bit_or-bitwise,
}
use mathlib.Core.Path.{◌≡◌, refl, sym, ap, ◌∙◌}
use native.Mathlib.Nat.{div-div-eq-div-mul, mod-add-div, pow-succ', pow-suc}
use native.Mathlib.Omega.{arith}

pub pow_pos : (n : ℕ) → 0 < 2 ^ n
pow_pos zero = omega arith
pow_pos (suc n) = omega (arith, pow-suc 2 n, pow_pos n)

pub div-pow_suc : (v n : ℕ) → v / 2 ^ suc n ≡ v / 2 / 2 ^ n
div-pow_suc v n = rw pow-succ' (sym (div-div-eq-div-mul v 2 (2 ^ n)))

pub mod-pow_suc : (v n : ℕ) → v % 2 ^ suc n ≡ v % 2 + 2 * (v / 2 % 2 ^ n)
mod-pow_suc v n = rw pow-succ' (
    omega (
      arith,
      mod-add-div v (2 * 2 ^ n),
      mod-add-div (v / 2) (2 ^ n),
      ap (λ (t : ℕ). 2 * 2 ^ n * t) (div-div-eq-div-mul v 2 (2 ^ n)),
    ))

-- The digit recursion does not depend on its count, once that is large enough.
module _ (rest : ℕ → ℕ) (digit : ℕ → ℕ → ℕ) where
  digits_enough : (n m a b : ℕ) → a ≤ n → a ≤ m → digits rest digit n a b ≡ digits rest digit m a b
  digits_enough zero zero a b p q = refl
  digits_enough zero (suc m) zero b p q = refl
  digits_enough zero (suc m) (suc a) b p q = absurd (omega arith)
  digits_enough (suc n) zero zero b p q = refl
  digits_enough (suc n) zero (suc a) b p q = absurd (omega arith)
  digits_enough (suc n) (suc m) zero b p q = refl
  digits_enough (suc n) (suc m) (suc a) b p q =
      omega (arith, digits_enough n m (suc a / 2) (b / 2) (omega arith) (omega arith))

zero-and : (b : ℕ) → bit_and 0 b ≡ 0
zero-and b = bit_and-bitwise 0 b

zero-or : (b : ℕ) → bit_or 0 b ≡ b
zero-or b = bit_or-bitwise 0 b

and_halves : (a b : ℕ) → bit_and a b ≡ 2 * bit_and (a / 2) (b / 2) + min (a % 2) (b % 2)
and_halves zero b = omega (arith, zero-and b, zero-and (b / 2))
and_halves (suc a) b = omega (
  arith,
  bit_and-bitwise (suc a) b,
  bit_and-bitwise (suc a / 2) (b / 2),
  digits_enough (λ b. zero) min a (suc a / 2) (suc a / 2) (b / 2) (omega arith) (omega arith),
)

or_halves : (a b : ℕ) → bit_or a b ≡ 2 * bit_or (a / 2) (b / 2) + max (a % 2) (b % 2)
or_halves zero b = omega (arith, zero-or b, zero-or (b / 2))
or_halves (suc a) b = omega (
  arith,
  bit_or-bitwise (suc a) b,
  bit_or-bitwise (suc a / 2) (b / 2),
  digits_enough (λ b. b) max a (suc a / 2) (suc a / 2) (b / 2) (omega arith) (omega arith),
)

digits-and_zero : (n a : ℕ) → digits (λ b. zero) min n a 0 ≡ 0
digits-and_zero zero a = refl
digits-and_zero (suc n) zero = refl
digits-and_zero (suc n) (suc a) = omega (arith, digits-and_zero n (suc a / 2))

and-zero : (a : ℕ) → bit_and a 0 ≡ 0
and-zero a = bit_and-bitwise a 0 ∙ digits-and_zero a a

digits-or_zero : (n a : ℕ) → a ≤ n → digits (λ b. b) max n a 0 ≡ a
digits-or_zero zero zero h = refl
digits-or_zero zero (suc a) h = absurd (omega arith)
digits-or_zero (suc n) zero h = refl
digits-or_zero (suc n) (suc a) h = omega (arith, digits-or_zero n (suc a / 2) (omega arith))

or-zero : (a : ℕ) → bit_or a 0 ≡ a
or-zero a = bit_or-bitwise a 0 ∙ digits-or_zero a a (omega arith)

-- `a & 1`.
pub bit_and-one : (a : ℕ) → bit_and a 1 ≡ a % 2
bit_and-one a = omega (arith, and_halves a 1, and-zero (a / 2))

half-mask : (n : ℕ) → (2 ^ suc n - 1) / 2 ≡ 2 ^ n - 1
half-mask n = omega (arith, pow-suc 2 n, pow_pos n)

-- `a & ((1 << n) - 1)`.
pub bit_and-mask : (n a : ℕ) → bit_and a (2 ^ n - 1) ≡ a % 2 ^ n
bit_and-mask zero a = omega (arith, and-zero a)
bit_and-mask (suc n) a = omega (
  arith,
  and_halves a (2 ^ suc n - 1),
  ap (bit_and (a / 2)) (half-mask n),
  bit_and-mask n (a / 2),
  mod-pow_suc a n,
  pow-suc 2 n,
  pow_pos n,
)

half-power : (n : ℕ) → 2 ^ suc n / 2 ≡ 2 ^ n
half-power n = omega (arith, pow-suc 2 n)

-- `a | (1 << n)` where bit `n` of `a` and those above are clear.
pub bit_or-power : (n a : ℕ) → a < 2 ^ n → bit_or a (2 ^ n) ≡ a + 2 ^ n
bit_or-power zero zero h = bit_or-bitwise 0 1
bit_or-power zero (suc a) h = absurd (omega arith)
bit_or-power (suc n) a h = omega (
  arith,
  or_halves a (2 ^ suc n),
  ap (bit_or (a / 2)) (half-power n),
  bit_or-power n (a / 2) (omega (arith, pow-suc 2 n)),
  pow-suc 2 n,
)
