-- ===== src/Validation/Circuit.antt =====
-- The loop over the components in `validate_circuit` of src/validation.rs, and the whole function.
use sim_core.Prelude.{ℕ, suc, String, not, List, [], ◌∷◌, ◌++◌, is_some, if◌then◌else◌, ◌==◌}
use sim_core.Prelude.Map.{lookup, insert, string_key}
use sim_core.Prelude.Text.{prefixed, indexed}
use sim_core.Prelude.Trim.{trim, is_empty}
use sim_core.Circuit.{Circuit, circuit_schema_version, Component}
use sim_core.Float.{Float}
use sim_core.Validation.Report.{ValidationReport, error, error_if, warning_if}
use sim_core.Validation.Parts.{
  Models, check_models, check_pins, has_no_pins, parameter_issues, model_reference_issues,
}
use sim_core.Validation.Converters.{validate_mixed_signal_bridge}
use sim_core.Validation.Modules.{validate_mcu_component, validate_hdl_module}
use sim_core.Validation.Nets.{Components, check_nets}

module _ (fl : Float) where
  open fl use {F}

  -- What is checked of a component once its id is new.
  unfoldable pub body_issues : String → Models → Component F → ValidationReport
  unfolding has_no_pins check_pins parameter_issues model_reference_issues
      validate_mixed_signal_bridge validate_mcu_component validate_hdl_module
  body_issues path models c =
      (check_pins path 0 c.pins []).0
      ++ warning_if (has_no_pins c.pins) "component_has_no_pins" (prefixed path ".pins")
      ++ parameter_issues fl path c.parameters
      ++ model_reference_issues path c models
      ++ validate_mixed_signal_bridge fl path c
      ++ validate_hdl_module path c models
      ++ validate_mcu_component path c

  -- An empty or a known id ends the checks of its component.
  unfoldable pub component_issues : String → Models → Component F → Components → ValidationReport
  unfolding body_issues trim lookup
  component_issues path models c known =
      if is_empty (trim c.id)
      then error "empty_component_id" (prefixed path ".id")
      else error_if (is_empty (trim c.kind)) "empty_component_kind" (prefixed path ".kind")
        ++ (if is_some (lookup (trim c.id) known)
            then error "duplicate_component_id" (prefixed path ".id")
            else body_issues path models c)

  unfoldable pub enter_component : Component F → Components → Components
  unfolding trim lookup insert check_pins
  enter_component c known =
      if is_empty (trim c.id)
      then known
      else if is_some (lookup (trim c.id) known)
      then known
      else insert (trim c.id) (check_pins "" 0 c.pins []).1 known

  -- The loop over the components, from index `index` on.
  unfoldable pub check_components :
      ℕ → Models → List (Component F) → Components → ValidationReport × Components
  unfolding component_issues enter_component
  check_components index models [] known = ([], known)
  check_components index models (c ∷ rest) known =
      let later = check_components (suc index) models rest (enter_component c known) in
      (component_issues (indexed "components" index) models c known ++ later.0, later.1)

  unfoldable pub validate_circuit : Circuit F → ValidationReport
  unfolding check_models check_components check_nets
  validate_circuit circuit =
      let models = check_models 0 circuit.models [] in
      let components = check_components 0 models.1 circuit.components [] in
      error_if (not (circuit.schema_version == circuit_schema_version)) "unsupported_schema_version"
        "schema_version"
      ++ models.0
      ++ components.0
      ++ check_nets components.1 0 circuit.nets []
