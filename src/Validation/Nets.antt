-- ===== src/Validation/Nets.antt =====
-- The loop over the nets in `validate_circuit` of src/validation.rs.
use sim_core.Prelude.{
  ℕ, suc, String, Bool, false, ◌&&◌, ◌||◌, List, [], ◌∷◌, ◌++◌, Option, none, some, if◌then◌else◌,
  ltb, length,
}
use sim_core.Prelude.Map.{lookup, insert_key, contains, string_key, pair_key}
use sim_core.Prelude.Text.{prefixed, indexed}
use sim_core.Prelude.Trim.{trim, is_empty}
use sim_core.Circuit.{
  SignalDomain, analog_domain, digital_domain, reference_domain, same_domain, PinDirection,
  output_pin, bidirectional, same_direction, NetEndpoint, Net,
}
use sim_core.Validation.Report.{ValidationReport, error, error_if, warning_if}
use sim_core.Validation.Parts.{Pins}

-- The components by their ids.
abbrev pub Components : Type 0
Components = List (String × Pins)

-- A set of domains, each by its code.
unfoldable pub has_domain : SignalDomain → List SignalDomain → Bool
has_domain domain [] = false
has_domain domain (other ∷ domains) = same_domain domain other || has_domain domain domains

unfoldable pub enter_domain : SignalDomain → List SignalDomain → List SignalDomain
unfolding has_domain
enter_domain domain domains = if has_domain domain domains then domains else domain ∷ domains

-- What the loop over the endpoints of a net finds out.
pub record NetState : Type 0 where
  pub seen : List (String × String)
  pub domains : List SignalDomain
  pub digital_drivers : ℕ

abbrev pub fresh_net : NetState
fresh_net = record { seen = []; domains = []; digital_drivers = 0 }

-- An endpoint whose pin there is.
unfoldable pub enter_endpoint : SignalDomain → PinDirection → NetState → NetState
unfolding enter_domain
enter_endpoint domain direction st = record st {
  domains = enter_domain domain st.domains;
  digital_drivers =
      if same_domain domain digital_domain
        && (same_direction direction output_pin || same_direction direction bidirectional)
      then suc st.digital_drivers
      else st.digital_drivers;
}

unfoldable pub pin_step :
    String → Option (SignalDomain × PinDirection) → NetState → ValidationReport × NetState
unfolding enter_endpoint
pin_step path none st = (error "unknown_pin" (prefixed path ".pin"), st)
pin_step path (some (domain, direction)) st = ([], enter_endpoint domain direction st)

unfoldable pub component_step :
    String → String → Option Pins → NetState → ValidationReport × NetState
unfolding pin_step lookup
component_step path pin none st = (error "unknown_component" (prefixed path ".component"), st)
component_step path pin (some pins) st = pin_step path (lookup pin pins) st

unfoldable pub endpoint_step :
    String → Components → NetEndpoint → NetState → ValidationReport × NetState
unfolding component_step lookup contains insert_key
endpoint_step path components endpoint st =
    let key : String × String = (endpoint.component, endpoint.pin) in
    let next =
      component_step path endpoint.pin (lookup endpoint.component components)
        (record st { seen = insert_key key st.seen }) in
    (error_if (contains key st.seen) "duplicate_net_endpoint" path ++ next.0, next.1)

-- The loop over the endpoints, from index `index` on.
unfoldable pub check_endpoints :
    String → Components → ℕ → List NetEndpoint → NetState → ValidationReport × NetState
unfolding endpoint_step
check_endpoints path components index [] st = ([], st)
check_endpoints path components index (endpoint ∷ rest) st =
    let step = endpoint_step (indexed (prefixed path ".endpoints") index) components endpoint st in
    let later = check_endpoints path components (suc index) rest step.1 in
    (step.0 ++ later.0, later.1)

-- `domains == BTreeSet::from([SignalDomain::Digital])`.
unfoldable pub is_digital_only : List SignalDomain → Bool
is_digital_only (domain ∷ []) = same_domain domain digital_domain
is_digital_only _ = false

-- The checks after the loop.
unfoldable pub domain_issues : String → NetState → ValidationReport
unfolding is_digital_only has_domain
domain_issues path st =
    warning_if (is_digital_only st.domains && ltb 1 st.digital_drivers)
      "multiple_digital_drivers_resolved" (prefixed path ".endpoints")
    ++ error_if
        (has_domain digital_domain st.domains
          && (has_domain analog_domain st.domains || has_domain reference_domain st.domains))
        "mixed_signal_bridge_required" (prefixed path ".endpoints")

unfoldable pub net_name_issues : String → String → List String → ValidationReport
unfolding contains
net_name_issues path id known =
    if is_empty id
    then error "empty_net_id" path
    else error_if (contains id known) "duplicate_net_id" path

unfoldable pub net_body_issues : String → Components → Net → ValidationReport
unfolding check_endpoints domain_issues
net_body_issues path components net =
    let checked = check_endpoints path components 0 net.endpoints fresh_net in
    warning_if (ltb (length net.endpoints) 2) "dangling_net" (prefixed path ".endpoints")
    ++ checked.0
    ++ domain_issues path checked.1

-- The issues of one net.
unfoldable pub net_issues : String → Components → Net → List String → ValidationReport
unfolding net_name_issues net_body_issues trim
net_issues path components net known =
    net_name_issues (prefixed path ".id") (trim net.id) known ++ net_body_issues path components net

unfoldable pub enter_net : Net → List String → List String
unfolding trim insert_key
enter_net net known = if is_empty (trim net.id) then known else insert_key (trim net.id) known

-- The loop over the nets, from index `index` on.
unfoldable pub check_nets : Components → ℕ → List Net → List String → ValidationReport
unfolding net_issues enter_net
check_nets components index [] known = []
check_nets components index (net ∷ rest) known =
    net_issues (indexed "nets" index) components net known
    ++ check_nets components (suc index) rest (enter_net net known)
