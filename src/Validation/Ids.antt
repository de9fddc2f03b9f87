-- ===== src/Validation/Ids.antt =====
-- The ids of models, nets and components that a report of src/validation.rs without errors vouches for.
use sim_core.Prelude.{
  ℕ, suc, ◌≡◌, refl, String, Bool, true, false, ◌||◌, List, [], ◌∷◌, if◌then◌else◌, arith, map,
}
use sim_core.Prelude.Map.{same, insert, contains, contains-insert_key, string_key}
use sim_core.Prelude.Text.{prefixed, indexed}
use sim_core.Prelude.Trim.{trim, is_empty}
use sim_core.Circuit.{ModelDefinition, Net, Component}
use sim_core.Float.{Float}
use sim_core.Validation.Report.{is_valid, error, error_if}
use sim_core.Validation.Parts.{
  Models, Pins, name_issues, model_body_issues, model_issues, enter_model, check_models, check_pins,
}
use sim_core.Validation.Nets.{
  Components, net_name_issues, net_body_issues, net_issues, enter_net, check_nets,
}
use sim_core.Validation.Circuit.{body_issues, component_issues, enter_component, check_components}
use sim_core.Validation.Fresh.{
  is_valid-left, is_valid-right, stopped-false, stopped-rest, Fresh-nil, Fresh-cons, is_known_id,
  name_issues-full, name_issues-new, is_known_id-insert, Fresh,
}

abbrev pub model_ids : List ModelDefinition → List String
model_ids models = map (λ model. trim model.id) models

enter_model-enters :
    (model : ModelDefinition) (known : Models)
    → is_empty (trim model.id) ≡ false
    → (b : String)
    → is_known_id (enter_model model known) b ≡ (same b (trim model.id) || is_known_id known b)
unfolding enter_model
enter_model-enters model known full b =
    rw full (is_known_id-insert (trim model.id) b (model.kind, model.language) known)

model_issues-name :
    (path : String) (model : ModelDefinition) (known : Models)
    → is_valid (model_issues path model known) ≡ true
    → is_valid (
        name_issues "empty_model_id" "duplicate_model_id"
          (prefixed path ".id")
          (trim model.id)
          known)
      ≡ true
unfolding model_issues
model_issues-name path model known h =
    is_valid-left
      (name_issues "empty_model_id" "duplicate_model_id" (prefixed path ".id") (trim model.id)
        known)
      (model_body_issues path model) h

pub check_models-Fresh :
    (index : ℕ) (models : List ModelDefinition) (known : Models)
    → is_valid (check_models index models known).0 ≡ true
    → Fresh (is_known_id known) (model_ids models)
unfolding check_models
check_models-Fresh index [] known h = Fresh-nil (is_known_id known)
check_models-Fresh index (model ∷ rest) known h =
    let later = (check_models (suc index) rest (enter_model model known)).0 in
    let issues = model_issues (indexed "models" index) model known in
    let here =
      model_issues-name (indexed "models" index) model known (is_valid-left issues later h) in
    let full =
      name_issues-full "empty_model_id" "duplicate_model_id" _ (trim model.id) known here in
    Fresh-cons (is_known_id known) (is_known_id (enter_model model known)) (trim model.id)
      (model_ids rest) full
      (name_issues-new "empty_model_id" "duplicate_model_id" _ (trim model.id) known here)
      (enter_model-enters model known full)
      (check_models-Fresh (suc index) rest (enter_model model known)
        (is_valid-right issues later h))

abbrev pub net_ids : List Net → List String
net_ids nets = map (λ net. trim net.id) nets

abbrev pub is_known_net : List String → String → Bool
is_known_net known b = contains b known

net_name_issues-full :
    (path id : String) (known : List String)
    → is_valid (net_name_issues path id known) ≡ true
    → is_empty id ≡ false
unfolding net_name_issues is_valid
net_name_issues-full path id known h = ground arith

net_name_issues-new :
    (path id : String) (known : List String)
    → is_valid (net_name_issues path id known) ≡ true
    → contains id known ≡ false
unfolding net_name_issues is_valid
net_name_issues-new path id known h = ground arith

enter_net-enters :
    (net : Net) (known : List String)
    → is_empty (trim net.id) ≡ false
    → (b : String)
    → is_known_net (enter_net net known) b ≡ (same b (trim net.id) || is_known_net known b)
unfolding enter_net
enter_net-enters net known full b = rw full (contains-insert_key (trim net.id) b known)

net_issues-name :
    (path : String) (components : Components) (net : Net) (known : List String)
    → is_valid (net_issues path components net known) ≡ true
    → is_valid (net_name_issues (prefixed path ".id") (trim net.id) known) ≡ true
unfolding net_issues
net_issues-name path components net known h =
    is_valid-left (net_name_issues (prefixed path ".id") (trim net.id) known)
      (net_body_issues path components net) h

pub check_nets-Fresh :
    (components : Components) (index : ℕ) (nets : List Net) (known : List String)
    → is_valid (check_nets components index nets known) ≡ true
    → Fresh (is_known_net known) (net_ids nets)
unfolding check_nets
check_nets-Fresh components index [] known h = Fresh-nil (is_known_net known)
check_nets-Fresh components index (net ∷ rest) known h =
    let later = check_nets components (suc index) rest (enter_net net known) in
    let issues = net_issues (indexed "nets" index) components net known in
    let here =
      net_issues-name (indexed "nets" index) components net known (is_valid-left issues later h) in
    let full = net_name_issues-full _ (trim net.id) known here in
    Fresh-cons (is_known_net known) (is_known_net (enter_net net known)) (trim net.id)
      (net_ids rest) full (net_name_issues-new _ (trim net.id) known here)
      (enter_net-enters net known full)
      (check_nets-Fresh components (suc index) rest (enter_net net known)
        (is_valid-right issues later h))

module _ (fl : Float) where
  open fl use {F}

  abbrev pub component_ids : List (Component F) → List String
  component_ids components = map (λ c. trim c.id) components

  component_issues-full :
      (path : String) (models : Models) (c : Component F) (known : Components)
      → is_valid (component_issues fl path models c known) ≡ true
      → is_empty (trim c.id) ≡ false
  unfolding component_issues
  component_issues-full path models c known h =
      stopped-false (is_empty (trim c.id)) "empty_component_id" (prefixed path ".id") _ h

  -- The checks of a component that has a name.
  component_issues-rest :
      (path : String) (models : Models) (c : Component F) (known : Components)
      → is_valid (component_issues fl path models c known) ≡ true
      → is_valid (
          if is_known_id known (trim c.id)
          then error "duplicate_component_id" (prefixed path ".id")
          else body_issues fl path models c)
        ≡ true
  unfolding component_issues
  component_issues-rest path models c known h =
      is_valid-right
        (error_if (is_empty (trim c.kind)) "empty_component_kind" (prefixed path ".kind")) _
        (stopped-rest (is_empty (trim c.id)) "empty_component_id" (prefixed path ".id") _ h)

  pub component_issues-new :
      (path : String) (models : Models) (c : Component F) (known : Components)
      → is_valid (component_issues fl path models c known) ≡ true
      → is_known_id known (trim c.id) ≡ false
  component_issues-new path models c known h =
      stopped-false (is_known_id known (trim c.id)) "duplicate_component_id" (prefixed path ".id")
        (body_issues fl path models c) (component_issues-rest path models c known h)

  pub component_issues-body :
      (path : String) (models : Models) (c : Component F) (known : Components)
      → is_valid (component_issues fl path models c known) ≡ true
      → is_valid (body_issues fl path models c) ≡ true
  component_issues-body path models c known h =
      stopped-rest (is_known_id known (trim c.id)) "duplicate_component_id" (prefixed path ".id")
        (body_issues fl path models c) (component_issues-rest path models c known h)

  abbrev pub pins_of : Component F → Pins
  pins_of c = (check_pins "" 0 c.pins []).1

  -- A component without an issue is entered.
  pub enter_component-insert :
      (path : String) (models : Models) (c : Component F) (known : Components)
      → is_valid (component_issues fl path models c known) ≡ true
      → enter_component fl c known ≡ insert (trim c.id) (pins_of c) known
  unfolding enter_component
  enter_component-insert path models c known h =
      rw (component_issues-full path models c known h, component_issues-new path models c known h)
        refl

  pub check_components-Fresh :
      (index : ℕ) (models : Models) (components : List (Component F)) (known : Components)
      → is_valid (check_components fl index models components known).0 ≡ true
      → Fresh (is_known_id known) (component_ids components)
  unfolding check_components
  check_components-Fresh index models [] known h = Fresh-nil (is_known_id known)
  check_components-Fresh index models (c ∷ rest) known h =
      let path = indexed "components" index in
      let later = (check_components fl (suc index) models rest (enter_component fl c known)).0 in
      let issues = component_issues fl path models c known in
      let here = is_valid-left issues later h in
      Fresh-cons (is_known_id known) (is_known_id (enter_component fl c known)) (trim c.id)
        (component_ids rest) (component_issues-full path models c known here)
        (component_issues-new path models c known here)
        (λ b.
          rw (enter_component-insert path models c known here)
            (is_known_id-insert (trim c.id) b (pins_of c) known))
        (check_components-Fresh (suc index) models rest (enter_component fl c known)
          (is_valid-right issues later h))
