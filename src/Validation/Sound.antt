-- ===== src/Validation/Sound.antt =====
-- A circuit that `validate_circuit` of src/validation.rs accepts is well formed.
use sim_core.Prelude.{
  ℕ, suc, ◌≡◌, String, Bool, true, false, not, List, [], ◌∷◌, ◌++◌, All, arith, ◌==◌,
}
use sim_core.Prelude.Text.{prefixed, indexed}
use sim_core.Prelude.Trim.{trim, is_empty}
use sim_core.Circuit.{Circuit, circuit_schema_version, Component, Net}
use sim_core.Float.{Float}
use sim_core.Validation.Report.{is_valid, error_if, warning_if}
use sim_core.Validation.Parts.{
  Models, check_models, check_pins, has_no_pins, parameter_issues, model_reference_issues,
}
use sim_core.Validation.Converters.{validate_mixed_signal_bridge}
use sim_core.Validation.Modules.{validate_mcu_component, validate_hdl_module}
use sim_core.Validation.Nets.{
  Components, check_nets, net_issues, net_name_issues, net_body_issues, enter_net,
}
use sim_core.Validation.Circuit.{
  body_issues, component_issues, enter_component, check_components, validate_circuit,
}
use sim_core.Validation.Ids.{
  check_models-Fresh, check_nets-Fresh, check_components-Fresh, component_issues-body, model_ids,
  net_ids, component_ids,
}
use sim_core.Validation.Fresh.{
  is_valid-left, is_valid-right, is_valid-error_if, Distinct, Fresh, check_pins-Fresh, pin_ids,
}
use sim_core.Validation.Sides.{IsWellFormed, net_body_issues-IsWellFormed}

-- Names that are not empty and not repeated.
pub record AreIds (names : List String) : Type 0 where
  pub full : All (λ a. is_empty a ≡ false) names
  pub distinct : Distinct names

Fresh-AreIds : {known : String → Bool} {names : List String} → Fresh known names → AreIds names
Fresh-AreIds fresh = record { full = fresh.full; distinct = fresh.distinct }

module _ (fl : Float) where
  open fl use {F}

  -- What a report without errors vouches for.
  pub record IsAccepted (circuit : Circuit F) : Type 0 where
    pub version : circuit.schema_version ≡ circuit_schema_version
    pub models : AreIds (model_ids circuit.models)
    pub components : AreIds (component_ids fl circuit.components)
    pub pins : All (λ (c : Component F). AreIds (pin_ids c.pins)) circuit.components
    pub nets : AreIds (net_ids circuit.nets)
    pub endpoints : All (λ net. IsWellFormed fl circuit.components net.endpoints) circuit.nets

  body_issues-AreIds :
      (path : String) (models : Models) (c : Component F)
      → is_valid (body_issues fl path models c) ≡ true
      → AreIds (pin_ids c.pins)
  unfolding body_issues
  body_issues-AreIds path models c h =
      let pins = (check_pins path 0 c.pins []).0 in
      let warned =
        warning_if (has_no_pins c.pins) "component_has_no_pins" (prefixed path ".pins") in
      let numbers = pins ++ warned ++ parameter_issues fl path c.parameters in
      let referred = numbers ++ model_reference_issues path c models in
      let converters = referred ++ validate_mixed_signal_bridge fl path c in
      let hdl = converters ++ validate_hdl_module path c models in
      Fresh-AreIds (
        check_pins-Fresh path 0 c.pins [] (
          is_valid-left pins warned (
            is_valid-left (pins ++ warned) (parameter_issues fl path c.parameters) (
              is_valid-left numbers (model_reference_issues path c models) (
                is_valid-left referred (validate_mixed_signal_bridge fl path c) (
                  is_valid-left converters (validate_hdl_module path c models)
                    (is_valid-left hdl (validate_mcu_component path c) h)))))))

  check_components-AreIds :
      (index : ℕ) (models : Models) (components : List (Component F)) (known : Components)
      → is_valid (check_components fl index models components known).0 ≡ true
      → All (λ (c : Component F). AreIds (pin_ids c.pins)) components
  unfolding check_components
  check_components-AreIds index models [] known h = tt
  check_components-AreIds index models (c ∷ rest) known h =
      let path = indexed "components" index in
      let later = (check_components fl (suc index) models rest (enter_component fl c known)).0 in
      let issues = component_issues fl path models c known in
      (
        body_issues-AreIds path models c
            (component_issues-body fl path models c known (is_valid-left issues later h)),
        check_components-AreIds (suc index) models rest (enter_component fl c known)
            (is_valid-right issues later h),
      )

  net_issues-IsWellFormed :
      (path : String) (models : Models) (components : List (Component F)) (net : Net)
      (known : List String)
      → is_valid (net_issues path (check_components fl 0 models components []).1 net known) ≡ true
      → IsWellFormed fl components net.endpoints
  unfolding net_issues
  net_issues-IsWellFormed path models components net known h =
      let table = (check_components fl 0 models components []).1 in
      net_body_issues-IsWellFormed fl path models components net (
        is_valid-right (net_name_issues (prefixed path ".id") (trim net.id) known)
          (net_body_issues path table net) h)

  check_nets-IsWellFormed :
      (models : Models) (components : List (Component F)) (index : ℕ) (nets : List Net)
      (known : List String)
      → is_valid (check_nets (check_components fl 0 models components []).1 index nets known) ≡ true
      → All (λ net. IsWellFormed fl components net.endpoints) nets
  unfolding check_nets
  check_nets-IsWellFormed models components index [] known h = tt
  check_nets-IsWellFormed models components index (net ∷ rest) known h =
      let path = indexed "nets" index in
      let table = (check_components fl 0 models components []).1 in
      let later = check_nets table (suc index) rest (enter_net net known) in
      let issues = net_issues path table net known in
      (
        net_issues-IsWellFormed path models components net known (is_valid-left issues later h),
        check_nets-IsWellFormed models components (suc index) rest (enter_net net known)
            (is_valid-right issues later h),
      )

  -- If `validate_circuit` reports no error, the schema version is the supported one; the trimmed ids
  -- of the models are not empty and distinct, and so are those of the components, of the nets, and of
  -- the pins of each component; the endpoints of each net are distinct and name pins of components of
  -- the circuit; and no net joins a digital pin to an analog or reference one.
  pub validate_circuit-IsAccepted :
      (circuit : Circuit F) → is_valid (validate_circuit fl circuit) ≡ true → IsAccepted circuit
  unfolding validate_circuit
  validate_circuit-IsAccepted circuit h =
      let models = check_models 0 circuit.models [] in
      let components = check_components fl 0 models.1 circuit.components [] in
      let nets = check_nets components.1 0 circuit.nets [] in
      let version =
        error_if (not (circuit.schema_version == circuit_schema_version))
          "unsupported_schema_version" "schema_version" in
      let named = is_valid-left (version ++ models.0 ++ components.0) nets h in
      let modelled = is_valid-left (version ++ models.0) components.0 named in
      let placed = is_valid-right (version ++ models.0) components.0 named in
      let wrong =
        is_valid-error_if (not (circuit.schema_version == circuit_schema_version))
          "unsupported_schema_version" "schema_version" (is_valid-left version models.0 modelled) in
      let joined = is_valid-right (version ++ models.0 ++ components.0) nets h in
      record {
        version = ground arith;
        models =
            Fresh-AreIds
              (check_models-Fresh 0 circuit.models [] (is_valid-right version models.0 modelled));
        components =
            Fresh-AreIds (check_components-Fresh fl 0 models.1 circuit.components [] placed);
        pins = check_components-AreIds 0 models.1 circuit.components [] placed;
        nets = Fresh-AreIds (check_nets-Fresh components.1 0 circuit.nets [] joined);
        endpoints = check_nets-IsWellFormed models.1 circuit.components 0 circuit.nets [] joined;
      }
