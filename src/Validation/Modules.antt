-- ===== src/Validation/Modules.antt =====
-- `validate_mcu_component` and `validate_hdl_module` of src/validation.rs.
use sim_core.Prelude.{
  ℕ, suc, String, Bool, not, ◌||◌, str_eq, List, [], ◌∷◌, ◌++◌, Option, none, some, if◌then◌else◌,
}
use sim_core.Prelude.Map.{lookup, insert_key, contains, string_key}
use sim_core.Prelude.Scan.{strip_prefix}
use sim_core.Prelude.Text.{prefixed, indexed}
use sim_core.Prelude.Trim.{trim}
use sim_core.Circuit.{
  digital_domain, same_domain, PinDirection, input_pin, output_pin, same_direction, Pin, Component,
  ParameterValue, ModelKind, module_model, ModelLanguage, verilog, system_verilog,
}
use sim_core.Validation.Report.{ValidationReport, error, error_if}
use sim_core.Validation.Names.{is_mcu_gpio_mapping, is_hdl_port_reference, is_hdl_identifier}
use sim_core.Validation.Parts.{Models, has_no_pins, reference_issues, model_path}

-- What the two kinds of module ask of their pins.
pub record PinRule : Type 0 where
  pub allows : PinDirection → Bool
  pub is_mapping : String → Bool
  pub domain_code : String
  pub direction_code : String
  pub invalid_code : String
  pub duplicate_code : String

-- A mapping that is valid and new is noted.
unfoldable pub note_mapping : PinRule → String → List String → List String
unfolding insert_key
note_mapping rule mapping seen = if rule.is_mapping mapping then insert_key mapping seen else seen

-- The issues of one pin; `seen` holds the mappings before it.
unfoldable pub module_pin_issues : PinRule → String → Pin → List String → ValidationReport
unfolding trim contains
module_pin_issues rule path pin seen =
    error_if (not (same_domain pin.domain digital_domain)) rule.domain_code
      (prefixed path ".domain")
    ++ error_if (not (rule.allows pin.direction)) rule.direction_code (prefixed path ".direction")
    ++ (if rule.is_mapping (trim pin.name)
        then error_if (contains (trim pin.name) seen) rule.duplicate_code (prefixed path ".name")
        else error rule.invalid_code (prefixed path ".name"))

-- The loop over the pins.
unfoldable pub module_pins_issues : PinRule → String → ℕ → List Pin → List String → ValidationReport
unfolding module_pin_issues note_mapping trim
module_pins_issues rule path index [] seen = []
module_pins_issues rule path index (pin ∷ pins) seen =
    module_pin_issues rule (indexed (prefixed path ".pins") index) pin seen
    ++ module_pins_issues rule path (suc index) pins (note_mapping rule (trim pin.name) seen)

abbrev pub mcu_rule : PinRule
mcu_rule = record {
  allows = λ direction. same_direction direction output_pin;
  is_mapping = is_mcu_gpio_mapping;
  domain_code = "mcu_pin_domain";
  direction_code = "mcu_pin_direction";
  invalid_code = "mcu_pin_mapping_invalid";
  duplicate_code = "mcu_pin_mapping_duplicate";
}

abbrev pub hdl_rule : PinRule
hdl_rule = record {
  allows = λ direction. same_direction direction input_pin || same_direction direction output_pin;
  is_mapping = is_hdl_port_reference;
  domain_code = "hdl_pin_domain";
  direction_code = "hdl_pin_direction";
  invalid_code = "hdl_pin_mapping_invalid";
  duplicate_code = "hdl_pin_mapping_duplicate";
}

-- The model of an HDL module.
hdl_model_issues : String → Option (ModelKind × ModelLanguage) → ValidationReport
hdl_model_issues path none = error "unknown_model" path
hdl_model_issues path (some (module_model, verilog)) = []
hdl_model_issues path (some (module_model, system_verilog)) = []
hdl_model_issues path (some _) = error "incompatible_hdl_model" path

override_issue : String → String → Option String → ValidationReport
override_issue path key none = []
override_issue path key (some name) =
    error_if (not (is_hdl_identifier name)) "hdl_parameter_name_invalid"
      (prefixed (prefixed path ".parameters.") key)

module _ {F : Type 0} where
  unfoldable pub validate_mcu_component : String → Component F → ValidationReport
  unfolding has_no_pins module_pins_issues
  validate_mcu_component path c =
      if not (str_eq c.kind "mcu")
      then []
      else if has_no_pins c.pins
      then error "mcu_has_no_pins" (prefixed path ".pins")
      else module_pins_issues mcu_rule path 0 c.pins []

  -- The loop over the keys of the parameters.
  override_issues : String → List (String × ParameterValue F) → ValidationReport
  unfolding override_issue strip_prefix
  override_issues path [] = []
  override_issues path ((key, value) ∷ rest) =
      override_issue path key (strip_prefix "param." key) ++ override_issues path rest

  unfoldable pub validate_hdl_module : String → Component F → Models → ValidationReport
  unfolding hdl_model_issues override_issues reference_issues has_no_pins module_pins_issues
  validate_hdl_module path c models =
      if not (str_eq c.kind "hdl_module")
      then []
      else reference_issues (model_path path) (hdl_model_issues (model_path path)) models
          (lookup "model" c.parameters)
        ++ error_if (has_no_pins c.pins) "hdl_module_has_no_pins" (prefixed path ".pins")
        ++ module_pins_issues hdl_rule path 0 c.pins []
        ++ override_issues path c.parameters
