-- ===== src/Validation/Endpoints.antt =====
-- One endpoint of a net in a report of src/validation.rs without errors.
use sim_core.Prelude.{
  ◌≡◌, refl, String, true, false, ◌||◌, List, [], ◌∷◌, Option, none, some, arith,
}
use sim_core.Prelude.Map.{lookup, contains, insert_key, string_key, pair_key}
use sim_core.Circuit.{SignalDomain, same_domain, PinDirection, NetEndpoint}
use sim_core.Validation.Report.{is_valid, error_if}
use sim_core.Validation.Parts.{Pins}
use sim_core.Validation.Nets.{
  Components, has_domain, enter_domain, NetState, enter_endpoint, pin_step, component_step,
  endpoint_step,
}
use sim_core.Validation.Fresh.{is_valid-left, is_valid-right, is_valid-error_if}

pub has_domain-same :
    (d other : SignalDomain) (domains : List SignalDomain)
    → same_domain d other ≡ true
    → has_domain d domains ≡ has_domain other domains
unfolding has_domain
has_domain-same d other [] h = refl
has_domain-same d other (first ∷ domains) h = ground (arith, has_domain-same d other domains h)

has_domain-enter_domain :
    (d other : SignalDomain) (domains : List SignalDomain)
    → has_domain d (enter_domain other domains) ≡ (same_domain d other || has_domain d domains)
unfolding enter_domain has_domain
has_domain-enter_domain d other domains = ground (arith, has_domain-same d other domains)

-- Domains and endpoints that the loop has seen stay seen.
unfoldable pub Keeps : NetState → NetState → Type 0
Keeps st later =
    (d : SignalDomain) → has_domain d st.domains ≡ true → has_domain d later.domains ≡ true

enter_endpoint-Keeps :
    (domain : SignalDomain) (direction : PinDirection) (st : NetState)
    → Keeps st (enter_endpoint domain direction st)
unfolding enter_endpoint Keeps
enter_endpoint-Keeps domain direction st d h =
    ground (arith, has_domain-enter_domain d domain st.domains)

enter_endpoint-has_domain :
    (domain : SignalDomain) (direction : PinDirection) (st : NetState)
    → has_domain domain (enter_endpoint domain direction st).domains ≡ true
unfolding enter_endpoint
enter_endpoint-has_domain domain direction st =
    ground (arith, has_domain-enter_domain domain domain st.domains)

-- An endpoint that the tables know, with its domain seen.
pub record IsFound (components : Components) (st : NetState) (endpoint : NetEndpoint) : Type 0 where
  pub pins : Pins
  pub entry : SignalDomain × PinDirection
  pub component_there : lookup endpoint.component components ≡ some pins
  pub pin_there : lookup endpoint.pin pins ≡ some entry
  pub domain_seen : has_domain entry.0 st.domains ≡ true

pin_step-Keeps :
    (path : String) (o : Option (SignalDomain × PinDirection)) (st : NetState)
    → Keeps st (pin_step path o st).1
unfolding pin_step Keeps
pin_step-Keeps path none st d h = h
pin_step-Keeps path (some (domain, direction)) st d h = enter_endpoint-Keeps domain direction st d h

component_step-Keeps :
    (path pin : String) (o : Option Pins) (st : NetState)
    → Keeps st (component_step path pin o st).1
unfolding component_step Keeps
component_step-Keeps path pin none st d h = h
component_step-Keeps path pin (some pins) st d h = pin_step-Keeps path (lookup pin pins) st d h

pin_step-seen :
    (path : String) (o : Option (SignalDomain × PinDirection)) (st : NetState)
    → (pin_step path o st).1.seen ≡ st.seen
unfolding pin_step enter_endpoint
pin_step-seen path none st = refl
pin_step-seen path (some (domain, direction)) st = refl

component_step-seen :
    (path pin : String) (o : Option Pins) (st : NetState)
    → (component_step path pin o st).1.seen ≡ st.seen
unfolding component_step
component_step-seen path pin none st = refl
component_step-seen path pin (some pins) st = pin_step-seen path (lookup pin pins) st

pin_step-found :
    (path : String) (o : Option (SignalDomain × PinDirection)) (st : NetState)
    → is_valid (pin_step path o st).0 ≡ true
    → (entry : SignalDomain × PinDirection) × (o ≡ some entry)
      × (has_domain entry.0 (pin_step path o st).1.domains ≡ true)
unfolding pin_step is_valid
pin_step-found path none st h = cc
pin_step-found path (some (domain, direction)) st h =
    ((domain, direction), refl, enter_endpoint-has_domain domain direction st)

component_step-found :
    (path pin : String) (o : Option Pins) (st : NetState)
    → is_valid (component_step path pin o st).0 ≡ true
    → (pins : Pins) × (entry : SignalDomain × PinDirection) × (o ≡ some pins)
      × (lookup pin pins ≡ some entry)
      × (has_domain entry.0 (component_step path pin o st).1.domains ≡ true)
unfolding component_step is_valid
component_step-found path pin none st h = cc
component_step-found path pin (some pins) st h =
    let found = pin_step-found path (lookup pin pins) st h in
    (pins, found.0, refl, found.1, found.2)

abbrev pub endpoint_key : NetEndpoint → String × String
endpoint_key endpoint = (endpoint.component, endpoint.pin)

abbrev entered : NetEndpoint → NetState → NetState
entered endpoint st = record st { seen = insert_key (endpoint_key endpoint) st.seen }

pub endpoint_step-IsFound :
    (path : String) (components : Components) (endpoint : NetEndpoint) (st : NetState)
    → is_valid (endpoint_step path components endpoint st).0 ≡ true
    → IsFound components (endpoint_step path components endpoint st).1 endpoint
unfolding endpoint_step
endpoint_step-IsFound path components endpoint st h =
    let next =
      component_step path endpoint.pin (lookup endpoint.component components)
        (entered endpoint st) in
    let found =
      component_step-found path endpoint.pin (lookup endpoint.component components)
        (entered endpoint st)
        (is_valid-right
          (error_if (contains (endpoint_key endpoint) st.seen) "duplicate_net_endpoint" path) next.0
          h) in
    record {
      pins = found.0;
      entry = found.1;
      component_there = found.2;
      pin_there = found.3;
      domain_seen = found.4;
    }

pub endpoint_step-new :
    (path : String) (components : Components) (endpoint : NetEndpoint) (st : NetState)
    → is_valid (endpoint_step path components endpoint st).0 ≡ true
    → contains (endpoint_key endpoint) st.seen ≡ false
unfolding endpoint_step
endpoint_step-new path components endpoint st h =
    is_valid-error_if (contains (endpoint_key endpoint) st.seen) "duplicate_net_endpoint" path (
      is_valid-left _
        (component_step path endpoint.pin (lookup endpoint.component components)
          (entered endpoint st)).0
        h)

pub endpoint_step-Keeps :
    (path : String) (components : Components) (endpoint : NetEndpoint) (st : NetState)
    → Keeps st (endpoint_step path components endpoint st).1
unfolding endpoint_step Keeps
endpoint_step-Keeps path components endpoint st d h =
    component_step-Keeps path endpoint.pin (lookup endpoint.component components)
      (entered endpoint st) d h

pub endpoint_step-seen :
    (path : String) (components : Components) (endpoint : NetEndpoint) (st : NetState)
    → (endpoint_step path components endpoint st).1.seen
      ≡ insert_key (endpoint_key endpoint) st.seen
unfolding endpoint_step
endpoint_step-seen path components endpoint st =
    component_step-seen path endpoint.pin (lookup endpoint.component components)
      (entered endpoint st)
