-- ===== src/Validation/Parts.antt =====
-- The models and the pins and parameters of a component in `validate_circuit` of src/validation.rs.
use sim_core.Prelude.{
  ℕ, suc, String, Bool, true, false, not, ◌||◌, str_eq, List, [], ◌∷◌, ◌++◌, Option, none, some,
  is_some, if◌then◌else◌, ◌==◌,
}
use sim_core.Prelude.Map.{lookup, insert, string_key}
use sim_core.Prelude.Text.{prefixed, indexed}
use sim_core.Prelude.Trim.{trim, is_empty}
use sim_core.Circuit.{
  SignalDomain, PinDirection, ParameterValue, number, quantity, text, Pin, Component, ModelLanguage,
  spice, verilog, system_verilog, ModelKind, device, subcircuit, module_model, ModelDefinition,
}
use sim_core.Float.{Float}
use sim_core.Validation.Report.{ValidationReport, error, error_if}

-- The models by their ids, and the pins of a component by theirs.
abbrev pub Models : Type 0
Models = List (String × (ModelKind × ModelLanguage))

abbrev pub Pins : Type 0
Pins = List (String × (SignalDomain × PinDirection))

-- A name that must not be empty, nor stand in the map already.
unfoldable pub name_issues :
    {V : Type 0} → String → String → String → String → List (String × V) → ValidationReport
unfolding lookup
name_issues empty duplicate path id known =
    if is_empty id then error empty path else error_if (is_some (lookup id known)) duplicate path

unfoldable pub is_compatible_language : ModelKind → ModelLanguage → Bool
is_compatible_language device spice = true
is_compatible_language subcircuit spice = true
is_compatible_language module_model verilog = true
is_compatible_language module_model system_verilog = true
is_compatible_language _ _ = false

unfoldable pub model_body_issues : String → ModelDefinition → ValidationReport
unfolding trim
model_body_issues path model =
    error_if (is_empty (trim model.entry)) "empty_model_entry" (prefixed path ".entry")
    ++ error_if (is_empty (trim model.source)) "empty_model_source" (prefixed path ".source")
    ++ error_if (not (is_compatible_language model.kind model.language))
        "incompatible_model_language" (prefixed path ".language")

-- The issues of one model.
unfoldable pub model_issues : String → ModelDefinition → Models → ValidationReport
unfolding name_issues trim
model_issues path model models =
    name_issues "empty_model_id" "duplicate_model_id" (prefixed path ".id") (trim model.id) models
    ++ model_body_issues path model

-- An empty id is not entered; a duplicate replaces the first.
unfoldable pub enter_model : ModelDefinition → Models → Models
unfolding trim insert
enter_model model models =
    if is_empty (trim model.id)
    then models
    else insert (trim model.id) (model.kind, model.language) models

-- The loop over the models, from index `index` on.
unfoldable pub check_models : ℕ → List ModelDefinition → Models → ValidationReport × Models
unfolding model_issues enter_model
check_models index [] models = ([], models)
check_models index (model ∷ rest) models =
    let later = check_models (suc index) rest (enter_model model models) in
    (model_issues (indexed "models" index) model models ++ later.0, later.1)

unfoldable pub enter_pin : Pin → Pins → Pins
unfolding trim insert
enter_pin pin pins =
    if is_empty (trim pin.id) then pins else insert (trim pin.id) (pin.domain, pin.direction) pins

-- The loop over the pins of a component.
unfoldable pub check_pins : String → ℕ → List Pin → Pins → ValidationReport × Pins
unfolding name_issues enter_pin trim
check_pins path index [] pins = ([], pins)
check_pins path index (pin ∷ rest) pins =
    let later = check_pins path (suc index) rest (enter_pin pin pins) in
    (
      name_issues "empty_pin_id" "duplicate_pin_id"
            (prefixed (indexed (prefixed path ".pins") index) ".id") (trim pin.id) pins
          ++ later.0,
      later.1,
    )

unfoldable pub has_no_pins : List Pin → Bool
has_no_pins [] = true
has_no_pins (pin ∷ pins) = false

module _ (fl : Float) where
  open fl use {F, is_finite}

  unfoldable pub is_finite_parameter : ParameterValue F → Bool
  is_finite_parameter (number x) = is_finite x
  is_finite_parameter (quantity q) = is_finite q.value
  is_finite_parameter _ = true

  -- The loop over the parameters of a component.
  unfoldable pub parameter_issues : String → List (String × ParameterValue F) → ValidationReport
  unfolding is_finite_parameter trim
  parameter_issues path [] = []
  parameter_issues path ((key, value) ∷ rest) =
      error_if (is_empty (trim key)) "empty_parameter_name" (prefixed path ".parameters")
      ++ error_if (not (is_finite_parameter value)) "non_finite_parameter"
          (prefixed (prefixed path ".parameters.") key)
      ++ parameter_issues path rest

-- `expected_model_kind`.
unfoldable pub expected_model_kind : String → Option ModelKind
expected_model_kind kind =
    if str_eq kind "diode" || str_eq kind "bjt" || str_eq kind "mosfet"
    then some device
    else if str_eq kind "op_amp" || str_eq kind "subcircuit"
    then some subcircuit
    else none

abbrev pub kind_code : ModelKind → ℕ
kind_code device = 0
kind_code subcircuit = 1
kind_code module_model = 2

-- A model of another kind than the one expected.
unfoldable pub kind_issues :
    String → ModelKind → Option (ModelKind × ModelLanguage) → ValidationReport
kind_issues path expected none = error "unknown_model" path
kind_issues path expected (some (actual, language)) =
    error_if (not (kind_code actual == kind_code expected)) "incompatible_model_kind" path

-- The match on the parameter `model`, with what is checked of the model that it names.
unfoldable pub reference_issues :
    {F : Type 0}
    → String
    → (Option (ModelKind × ModelLanguage) → ValidationReport)
    → Models
    → Option (ParameterValue F)
    → ValidationReport
unfolding trim lookup
reference_issues path check models none = error "missing_model_reference" path
reference_issues path check models (some (text id)) =
    if is_empty (trim id) then error "invalid_model_reference" path else check (lookup id models)
reference_issues path check models (some _) = error "invalid_model_reference" path

abbrev pub model_path : String → String
model_path path = prefixed path ".parameters.model"

unfoldable pub model_reference_issues :
    {F : Type 0} → String → Component F → Models → ValidationReport
unfolding expected_model_kind kind_issues reference_issues
model_reference_issues path c models = elim (expected_model_kind c.kind) [
  | none ↦ []
  | some expected ↦
      reference_issues (model_path path) (kind_issues (model_path path) expected) models
        (lookup "model" c.parameters)
]
