-- ===== src/Validation/Converters.antt =====
-- `validate_mixed_signal_bridge` of src/validation.rs, with the readers of its pins and quantities.
use sim_core.Prelude.{
  ℕ, suc, String, Bool, true, false, not, ◌&&◌, str_eq, List, [], ◌∷◌, ◌++◌, Option, none, some,
  if◌then◌else◌, ◌==◌,
}
use sim_core.Prelude.Map.{lookup, string_key}
use sim_core.Prelude.Text.{prefixed, indexed}
use sim_core.Circuit.{
  UnitOf, volt, second, farad, unit_code, SignalDomain, analog_domain, digital_domain, same_domain,
  PinDirection, input_pin, output_pin, same_direction, ParameterValue, number, quantity, Pin,
  Component, is_pin,
}
use sim_core.Float.{Float}
use sim_core.Validation.Report.{ValidationReport, error, error_if}

-- `pins.iter().enumerate().find(..)`, from index `index` on.
unfoldable pub find_pin : String → ℕ → List Pin → Option (ℕ × Pin)
find_pin name index [] = none
find_pin name index (pin ∷ pins) =
    if is_pin name pin then some (index, pin) else find_pin name (suc index) pins

found_pin_issues : String → SignalDomain → PinDirection → Option (ℕ × Pin) → ValidationReport
found_pin_issues path domain direction none =
    error "mixed_signal_bridge_pin_missing" (prefixed path ".pins")
found_pin_issues path domain direction (some (index, pin)) =
    error_if (not (same_domain pin.domain domain)) "mixed_signal_bridge_pin_domain"
      (prefixed (indexed (prefixed path ".pins") index) ".domain")
    ++ error_if (not (same_direction pin.direction direction)) "mixed_signal_bridge_pin_direction"
        (prefixed (indexed (prefixed path ".pins") index) ".direction")

unfoldable pub validate_bridge_pin :
    {F : Type 0} → Component F → String → String → SignalDomain → PinDirection → ValidationReport
unfolding find_pin found_pin_issues
validate_bridge_pin c path name domain direction =
    found_pin_issues path domain direction (find_pin name 0 c.pins)

module _ (fl : Float) where
  open fl use {F, is_finite, lt, le, zero_time}

  -- What a quantity must satisfy once it is a number.
  checked_number : String → Bool → F → ValidationReport × Option F
  checked_number path non_negative value =
      if not (is_finite value)
      then (error "mixed_signal_bridge_parameter_non_finite" path, none)
      else if non_negative && lt value zero_time
      then (error "mixed_signal_bridge_parameter_negative" path, none)
      else ([], some value)

  bridge_number :
      String → UnitOf → Bool → Bool → Option (ParameterValue F) → ValidationReport × Option F
  unfolding checked_number
  bridge_number path unit required non_negative none =
      (error_if required "mixed_signal_bridge_parameter_missing" path, none)
  bridge_number path unit required non_negative (some (number value)) =
      checked_number path non_negative value
  bridge_number path unit required non_negative (some (quantity q)) =
      if unit_code q.unit == unit_code unit
      then checked_number path non_negative q.value
      else (error "mixed_signal_bridge_parameter_unit" path, none)
  bridge_number path unit required non_negative (some _) =
      (error "mixed_signal_bridge_parameter_type" path, none)

  unfoldable pub validate_bridge_quantity :
      Component F → String → String → UnitOf → Bool → Bool → ValidationReport × Option F
  unfolding bridge_number
  validate_bridge_quantity c path key unit required non_negative =
      bridge_number (prefixed (prefixed path ".parameters.") key) unit required non_negative
        (lookup key c.parameters)

  -- The lower of two limits must be below the upper one, where both are there.
  window_issues : String → String → Option F → Option F → ValidationReport
  window_issues code path (some low) (some high) =
      error_if (le high low) code (prefixed path ".parameters")
  window_issues code path _ _ = []

  adc_issues : Component F → String → ValidationReport
  unfolding window_issues validate_bridge_pin validate_bridge_quantity
  adc_issues c path =
      let low = validate_bridge_quantity c path "low_threshold" volt true false in
      let high = validate_bridge_quantity c path "high_threshold" volt true false in
      validate_bridge_pin c path "analog_in" analog_domain input_pin
      ++ validate_bridge_pin c path "digital_out" digital_domain output_pin
      ++ low.0
      ++ high.0
      ++ window_issues "invalid_adc_threshold_window" path low.1 high.1
      ++ (validate_bridge_quantity c path "rise_delay" second false true).0
      ++ (validate_bridge_quantity c path "fall_delay" second false true).0

  dac_issues : Component F → String → ValidationReport
  unfolding window_issues validate_bridge_pin validate_bridge_quantity
  dac_issues c path =
      let low = validate_bridge_quantity c path "low_voltage" volt true false in
      let high = validate_bridge_quantity c path "high_voltage" volt true false in
      validate_bridge_pin c path "digital_in" digital_domain input_pin
      ++ validate_bridge_pin c path "analog_out" analog_domain output_pin
      ++ low.0
      ++ high.0
      ++ window_issues "invalid_dac_voltage_window" path low.1 high.1
      ++ (validate_bridge_quantity c path "unknown_voltage" volt false false).0
      ++ (validate_bridge_quantity c path "rise_time" second false true).0
      ++ (validate_bridge_quantity c path "fall_time" second false true).0
      ++ (validate_bridge_quantity c path "input_load" farad false true).0

  unfoldable pub validate_mixed_signal_bridge : String → Component F → ValidationReport
  unfolding adc_issues dac_issues
  validate_mixed_signal_bridge path c =
      if str_eq c.kind "adc_bridge"
      then adc_issues c path
      else if str_eq c.kind "dac_bridge"
      then dac_issues c path
      else []
