-- ===== src/Float.antt =====
-- `f64` of the language, as far as the digital engine uses it for simulated seconds. The values are
-- abstract; their laws are hypotheses of the theorems that need them.
use sim_core.Prelude.Int.{ℤ}
use sim_core.Prelude.{ℕ, Ordering, compare, Bool, true, ◌≡◌, ◌≤◌, ◌==◌}

pub record Float : Type 1 where
  pub F : Type 0
  pub zero_time : F
  -- `0.5e-12`, half a tick of the co-simulation clock.
  pub half_tick : F
  -- `COSIM_TIMEBASE_HZ as f64` and `u64::MAX as f64`.
  pub tick_rate : F
  pub u64_max : F
  pub add : F → F → F
  pub mul : F → F → F
  pub ceil : F → F
  -- `1.0 - x`.
  pub one_minus : F → F
  -- `as u64`.
  pub to_u64 : F → ℕ
  -- `<`, `<=` and `to_bits() ==`.
  pub lt : F → F → Bool
  pub le : F → F → Bool
  pub same_bits : F → F → Bool
  pub is_finite : F → Bool
  pub total_cmp : F → F → Ordering
  -- `CoSimulationTime::as_seconds`.
  pub as_seconds : ℕ → F

-- The constants and conversions of the readers of parameters.
pub record Casts (fl : Float) : Type 0 where
  -- `as f64` of an `i64`, and the literals `1.0` and `0.5`.
  pub of_integer : ℤ → fl.F
  pub one : fl.F
  pub half : fl.F
  -- `fract() == 0.0`.
  pub is_whole : fl.F → Bool

-- `total_cmp` compares the bit patterns by an integer key, and `to_bits` is injective on it.
pub record BitOrder (fl : Float) : Type 0 where
  pub key : fl.F → ℕ
  pub total_cmp_key : (a b : fl.F) → fl.total_cmp a b ≡ compare (key a) (key b)
  pub same_bits_key : (a b : fl.F) → fl.same_bits a b ≡ (key a == key b)

-- A time that is not before a later one in that order is later too, if it is a finite number.
pub record LaterOrder (fl : Float) (order : BitOrder fl) : Type 0 where
  pub later_on :
      (t u v : fl.F)
      → fl.lt t u ≡ true
      → order.key u ≤ order.key v
      → fl.is_finite v ≡ true
      → fl.lt t v ≡ true

-- Adding half a tick does not go back in time.
pub record Tolerant (fl : Float) : Type 0 where
  pub half_tick_later : (t u : fl.F) → fl.lt (fl.add t fl.half_tick) u ≡ true → fl.lt t u ≡ true
