-- ===== src/Program/Parameters.antt =====
-- The readers of a component's parameters in src/digital.rs.
pub mod Bounds
pub mod Calm
use sim_core.Prelude.{
  ℕ, String, Bool, true, false, not, ◌&&◌, ◌||◌, List, Option, none, some, leb, ltb, ◌==◌,
  replicate, if◌then◌else◌,
}
use sim_core.Prelude.Ascii.{lowers_to}
use sim_core.Prelude.Int.{ℤ, pos, negsuc}
use sim_core.Prelude.Map.{lookup, string_key}
use sim_core.Prelude.Result.{Result, ok, err, fail, reject, ok_or, ◌>>=◌, ◌>>◌}
use sim_core.Prelude.Trim.{trim}
use sim_core.Float.{Float, Casts}
use sim_core.Circuit.{
  UnitOf, second, dimensionless, Quantity, ParameterValue, boolean, integer, number, text, quantity,
  Component,
}
use sim_core.Logic.{LogicValue, low, high, unknown, high_impedance, EdgeKind, rising, falling}
use sim_core.Bus.{validate_width, from_u64}

-- `component_error`; its message is left out.
abbrev pub component_error : String
component_error = "digital_invalid_component"

abbrev pub reject_component : Bool → Result (Unit {0})
reject_component test = reject test component_error

module _ {F : Type 0} where
  abbrev pub parameter : Component F → String → Option (ParameterValue F)
  parameter c key = lookup key c.parameters

-- The texts that are levels, once trimmed and in lower case.
logic_text : String → Result LogicValue
unfolding lowers_to
logic_text s =
    if lowers_to s "0" || lowers_to s "zero" || lowers_to s "low"
    then ok low
    else if lowers_to s "1" || lowers_to s "one" || lowers_to s "high"
    then ok high
    else if lowers_to s "x" || lowers_to s "unknown"
    then ok unknown
    else if lowers_to s "z" || lowers_to s "high_impedance" || lowers_to s "high-impedance"
    then ok high_impedance
    else fail component_error

logic_of : {F : Type 0} → ParameterValue F → Result LogicValue
unfolding logic_text
logic_of (boolean b) = ok (if b then high else low)
logic_of (integer (pos n)) =
    if n == 0 then ok low else if n == 1 then ok high else fail component_error
logic_of (integer (negsuc n)) = fail component_error
logic_of (text s) = logic_text (trim s)
logic_of (number x) = fail component_error
logic_of (quantity q) = fail component_error

optionally : {A V : Type 0} → (V → Result A) → Option V → Result (Option A)
optionally read none = ok none
optionally read (some value) = do a ← read value; ok (some a)

module _ {F : Type 0} where
  unfoldable pub optional_logic_value : Component F → String → Result (Option LogicValue)
  unfolding optionally logic_of
  optional_logic_value c key = optionally logic_of (parameter c key)

  unfoldable pub required_logic_value : Component F → String → Result LogicValue
  unfolding optional_logic_value
  required_logic_value c key = do value ← optional_logic_value c key; ok_or value component_error

-- The match of `edge_kind` on the trimmed text.
edge_text : String → Result EdgeKind
unfolding lowers_to
edge_text s =
    if lowers_to s "rising" || lowers_to s "positive" || lowers_to s "pos"
    then ok rising
    else if lowers_to s "falling" || lowers_to s "negative" || lowers_to s "neg"
    then ok falling
    else fail component_error

edge_of : {F : Type 0} → Option (ParameterValue F) → Result EdgeKind
unfolding edge_text
edge_of none = ok rising
edge_of (some (text s)) = edge_text (trim s)
edge_of (some _) = fail component_error

unfoldable pub edge_kind : {F : Type 0} → Component F → Result EdgeKind
unfolding edge_of
edge_kind c = edge_of (parameter c "edge")

module _ {fl : Float} (casts : Casts fl) where
  open fl use {F, zero_time, lt, le, is_finite, to_u64}
  open casts use {of_integer, one, half, is_whole}

  -- `as usize` of a number is `as u64` where pointers have 64 bits.
  width_of : Option (ParameterValue F) → Result ℕ
  width_of none = ok 4
  width_of (some (integer (pos n))) = if ltb 0 n then ok n else fail component_error
  width_of (some (number x)) =
      if is_finite x && lt zero_time x then ok (to_u64 x) else fail component_error
  width_of (some _) = fail component_error

  unfoldable pub component_width : Component F → Result ℕ
  unfolding width_of
  component_width c = do width ← width_of (parameter c "width"); validate_width width; ok width

  bits_of : ℕ → Option (ParameterValue F) → Result (List LogicValue)
  bits_of width none = ok (replicate width low)
  bits_of width (some (integer (pos n))) = from_u64 width n
  bits_of width (some (number x)) =
      if is_finite x && le zero_time x && is_whole x
      then from_u64 width (to_u64 x)
      else fail component_error
  bits_of width (some _) = fail component_error

  unfoldable pub initial_vector : Component F → ℕ → Result (List LogicValue)
  unfolding bits_of
  initial_vector c width = bits_of width (parameter c "initial")

  seconds_in : Quantity F → UnitOf → Result F
  seconds_in q second = ok q.value
  seconds_in q _ = fail component_error

  seconds_of : ParameterValue F → Result F
  unfolding seconds_in
  seconds_of (integer n) = ok (of_integer n)
  seconds_of (number x) = ok x
  seconds_of (quantity q) = seconds_in q q.unit
  seconds_of (boolean b) = fail component_error
  seconds_of (text s) = fail component_error

  finite_seconds : ParameterValue F → Result F
  unfolding seconds_of
  finite_seconds value = do
    seconds ← seconds_of value
    reject_component (not (is_finite seconds))
    ok seconds

  unfoldable pub optional_seconds : Component F → String → Result (Option F)
  unfolding finite_seconds optionally
  optional_seconds c key = optionally finite_seconds (parameter c key)

  unfoldable pub required_positive_seconds : Component F → String → Result F
  unfolding optional_seconds
  required_positive_seconds c key = do
    seconds ← optional_seconds c key
    value ← ok_or seconds component_error
    reject_component (le value zero_time)
    ok value

  is_negative : Option F → Bool
  is_negative none = false
  is_negative (some seconds) = lt seconds zero_time

  unfoldable pub optional_non_negative_seconds : Component F → String → Result (Option F)
  unfolding optional_seconds is_negative
  optional_non_negative_seconds c key = do
    seconds ← optional_seconds c key
    reject_component (is_negative seconds)
    ok seconds

  ratio_in : Quantity F → UnitOf → Result F
  ratio_in q dimensionless = ok q.value
  ratio_in q _ = fail component_error

  ratio_of : ParameterValue F → Result F
  unfolding ratio_in
  ratio_of (integer n) = ok (of_integer n)
  ratio_of (number x) = ok x
  ratio_of (quantity q) = ratio_in q q.unit
  ratio_of (boolean b) = fail component_error
  ratio_of (text s) = fail component_error

  duty_of : Option (ParameterValue F) → Result F
  unfolding ratio_of
  duty_of none = ok half
  duty_of (some value) = do
    duty ← ratio_of value
    reject_component (not (is_finite duty) || le duty zero_time || le one duty)
    ok duty

  unfoldable pub duty_cycle : Component F → Result F
  unfolding duty_of
  duty_cycle c = duty_of (parameter c "duty_cycle")
