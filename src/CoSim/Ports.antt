-- ===== src/CoSim/Ports.antt =====
-- The participants of a `CoSimulationScheduler` of src/cosim.rs: `validate_ports`, `add_participant`
-- and `find_port`.
pub mod Valid
use sim_core.Prelude.{
  String, Bool, true, false, not, str_eq, List, [], ◌∷◌, Option, none, some, ◌++◌, find, is_some,
}
use sim_core.Prelude.Map.{lookup, insert, insert_key, contains, string_key}
use sim_core.Prelude.Result.{Result, ok, err, fail, reject, ok_or, ◌>>=◌, ◌>>◌}
use sim_core.Prelude.Trim.{trim, is_empty}
use sim_core.Float.{Float}
use sim_core.Circuit.{SignalDomain, analog_domain, digital_domain, UnitOf}
use sim_core.CoSim.{
  CoSimulationPort, CoSimulationEndpoint, CoSimulationLink, CoSimulationConfig, Backend,
}

-- The `match` on a port's domain.
check_domain : SignalDomain → Option UnitOf → Result (Unit {0})
check_domain digital_domain unit = reject (is_some unit) "cosim_port_invalid"
check_domain analog_domain unit = reject (not (is_some unit)) "cosim_port_invalid"
check_domain _ unit = fail "cosim_port_invalid"

-- The loop over the ports; `names` holds those seen.
check_ports : List String → List CoSimulationPort → Result (Unit {0})
unfolding check_domain trim contains insert_key
check_ports names [] = ok tt
check_ports names (port ∷ ports) = do
  reject (is_empty (trim port.name)) "cosim_port_invalid"
  reject (contains port.name names) "cosim_port_duplicate"
  check_domain port.domain port.unit
  check_ports (insert_key port.name names) ports

unfoldable pub validate_ports : List CoSimulationPort → Result (Unit {0})
unfolding check_ports
validate_ports [] = fail "cosim_participant_invalid"
validate_ports ports = check_ports [] ports

-- The participants of a scheduler, by their ids.
abbrev pub Fleet : Type 0 → Type 0
Fleet P = List (String × P)

pub record CoSimulationScheduler (P : Type 0) : Type 0 where
  pub config : CoSimulationConfig
  pub participants : Fleet P
  pub links : List CoSimulationLink

-- `CoSimulationScheduler::new` and `connect`.
unfoldable pub new_scheduler : {P : Type 0} → CoSimulationConfig → CoSimulationScheduler P
new_scheduler config = record { config = config; participants = []; links = [] }

unfoldable pub connect :
    {P : Type 0} → CoSimulationLink → CoSimulationScheduler P → CoSimulationScheduler P
connect link s = record s { links = s.links ++ link ∷ [] }

abbrev pub named : String → CoSimulationPort → Bool
named name port = str_eq port.name name

module _ (fl : Float) {P : Type 0} (backend : Backend fl P) where
  unfoldable pub add_participant : P → CoSimulationScheduler P → Result (CoSimulationScheduler P)
  unfolding validate_ports
  add_participant participant s = do
    let id = trim (backend.id participant)
    reject (is_empty id) "cosim_participant_invalid"
    reject (is_some (lookup id s.participants)) "cosim_participant_duplicate"
    validate_ports (backend.ports participant)
    ok (record s { participants = insert id participant s.participants })

  unfoldable pub find_port : Fleet P → CoSimulationEndpoint → Result CoSimulationPort
  find_port participants endpoint = do
    participant ← ok_or (lookup endpoint.participant participants) "cosim_link_invalid"
    ok_or (find (named endpoint.port) (backend.ports participant)) "cosim_link_invalid"
