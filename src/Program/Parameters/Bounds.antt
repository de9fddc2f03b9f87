-- ===== src/Program/Parameters/Bounds.antt =====
-- The widths and vectors that the readers of parameters of src/digital.rs accept.
use sim_core.Prelude.{
  ℕ, ◌≤◌, ◌≡◌, ◌&&◌, ◌||◌, Option, none, some, length, length-replicate, ltb, ◌==◌, arith, inl, inr,
  Bool-cases,
}
use sim_core.Prelude.Int.{pos}
use sim_core.Prelude.Result.{ok, Ensures, Ensures-after, Ensures-guard, ◌>>◌}
use sim_core.Float.{Float, Casts}
use sim_core.Circuit.{Component, ParameterValue, integer, number}
use sim_core.Logic.{low}
use sim_core.Bus.{validate_width, from_u64, bits_from}
use sim_core.Bus.Number.{length-bits_from}
use sim_core.Program.Parameters.{parameter, width_of, component_width, bits_of, initial_vector}

abbrev pub IsWidth : ℕ → Type 0
IsWidth width = (1 ≤ width) × (width ≤ 64)

validate_width-IsWidth : (width : ℕ) → Ensures IsWidth (validate_width width >> ok width)
unfolding validate_width
validate_width-IsWidth width =
    Ensures-guard IsWidth (width == 0 || ltb 64 width) "digital_invalid_bus_width" (ok width)
      (λ h. ground arith)

length-from_u64 : (width value : ℕ) → Ensures (λ bits. length bits ≡ width) (from_u64 width value)
unfolding from_u64 validate_width
length-from_u64 width value =
    Ensures-guard (λ bits. length bits ≡ width) (width == 0 || ltb 64 width)
      "digital_invalid_bus_width" (ok (bits_from width 0 value))
      (λ h. length-bits_from width 0 value)

module _ {fl : Float} (casts : Casts fl) where
  open fl use {F, zero_time, le, is_finite, to_u64}
  open casts use {is_whole}

  pub component_width-IsWidth : (c : Component F) → Ensures IsWidth (component_width casts c)
  unfolding component_width
  component_width-IsWidth c =
      Ensures-after IsWidth (width_of casts (parameter c "width")) _
        (λ width read. validate_width-IsWidth width)

  bits_of-length :
      (width : ℕ) (value : Option (ParameterValue F))
      → Ensures (λ bits. length bits ≡ width) (bits_of casts width value)
  unfolding bits_of
  bits_of-length width none = length-replicate width low
  bits_of-length width (some (integer (pos n))) = length-from_u64 width n
  bits_of-length width (some (number x)) =
      elim (Bool-cases (is_finite x && le zero_time x && is_whole x)) [
        | inl whole ↦ rw whole (length-from_u64 width (to_u64 x))
        | inr other ↦ rw other tt
      ]
  bits_of-length width (some _) = tt

  pub initial_vector-length :
      (c : Component F) (width : ℕ)
      → Ensures (λ bits. length bits ≡ width) (initial_vector casts c width)
  unfolding initial_vector
  initial_vector-length c width = bits_of-length width (parameter c "initial")
