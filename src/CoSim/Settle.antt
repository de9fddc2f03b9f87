-- ===== src/CoSim/Settle.antt =====
-- `settle_links` of src/cosim.rs: the delta cycles of one instant.
pub mod Cycles
use sim_core.Prelude.{
  ℕ, zero, suc, ◌+◌, String, Bool, true, false, not, ◌||◌, List, [], ◌∷◌, find, ◌==◌, if◌then◌else◌,
}
use sim_core.Prelude.Map.{lookup, replace, string_key}
use sim_core.Prelude.Result.{Result, ok, err, fail, reject, ok_or, ◌>>=◌, ◌>>◌}
use sim_core.Control.{ExecutionControl, check_execution}
use sim_core.Float.{Float}
use sim_core.Circuit.{same_domain}
use sim_core.CoSim.{
  CoSimulationEndpoint, CoSimulationLink, CoSimulationValue, Backend, domain_of, validate_value,
}
use sim_core.CoSim.Ports.{Fleet, named}

module _ (fl : Float) {P : Type 0} (backend : Backend fl P) where
  open fl use {F}

  abbrev pub Delivery : Type 0
  Delivery = CoSimulationEndpoint × CoSimulationValue F

  -- The value of a link's source. A participant or a port that is not there is an `expect` that panics.
  unfoldable pub read_source : Fleet P → CoSimulationLink → Result Delivery
  unfolding validate_value
  read_source participants link = do
    source ← ok_or (lookup link.source.participant participants) "panic"
    value ← backend.read_output link.source.port source
    validate_value fl value
    source_port ← ok_or (find (named link.source.port) (backend.ports source)) "panic"
    reject (not (same_domain (domain_of value) source_port.domain)) "cosim_value_domain_mismatch"
    ok (link.target, value)

  -- The first loop of a cycle.
  unfoldable pub read_sources : Fleet P → List CoSimulationLink → Result (List Delivery)
  unfolding read_source
  read_sources participants [] = ok []
  read_sources participants (link ∷ links) = do
    delivery ← read_source participants link
    deliveries ← read_sources participants links
    ok (delivery ∷ deliveries)

  -- One delivery; the flag says whether an input has changed so far.
  unfoldable pub deliver :
      ExecutionControl → ℕ → ℕ → Delivery → Fleet P × Bool → Result (Fleet P × Bool)
  deliver control instant time (endpoint, value) (participants, changed) = do
    target ← ok_or (lookup endpoint.participant participants) "panic"
    (target', effect) ← backend.write_input control instant endpoint.port time value target
    reject (not (backend.current_time target' == time)) "cosim_participant_time_invalid"
    ok (replace endpoint.participant target' participants, changed || effect)

  -- The second loop of a cycle.
  unfoldable pub deliver_all :
      ExecutionControl → ℕ → ℕ → List Delivery → Fleet P × Bool → Result (Fleet P × Bool)
  unfolding deliver
  deliver_all control instant time [] state = ok state
  deliver_all control instant time (delivery ∷ deliveries) state = do
    state' ← deliver control instant time delivery state
    deliver_all control instant time deliveries state'

  -- One cycle: all sources are read before any target is written.
  unfoldable pub cycle :
      ExecutionControl → ℕ → ℕ → List CoSimulationLink → Fleet P → Result (Fleet P × Bool)
  unfolding read_sources deliver_all
  cycle control instant time links participants = do
    check_execution control instant
    deliveries ← read_sources participants links
    deliver_all control instant time deliveries (participants, false)

  -- The participants when the instant has settled, the cycles that changed an input, and the instant
  -- of the next check.
  pub record Settlement : Type 0 where
    pub participants : Fleet P
    pub changed_cycles : ℕ
    pub instant : ℕ

  -- The `for` loop, with `left` cycles to go.
  unfoldable pub settle_from :
      ℕ → ℕ → ExecutionControl → ℕ → ℕ → List CoSimulationLink → Fleet P → Result Settlement
  unfolding cycle
  settle_from zero changed_cycles control instant time links participants =
      fail "cosim_delta_cycle_limit"
  settle_from (suc left) changed_cycles control instant time links participants = do
    (participants', changed) ← cycle control instant time links participants
    let rest = settle_from left (suc changed_cycles) control (suc instant) time links participants'
    if changed
        then rest
        else ok (record {
          participants = participants';
          changed_cycles = changed_cycles;
          instant = suc instant;
        })

  unfoldable pub settle_links :
      ℕ → ExecutionControl → ℕ → ℕ → List CoSimulationLink → Fleet P → Result Settlement
  unfolding settle_from
  settle_links max_delta_cycles control instant time links participants =
      settle_from max_delta_cycles 0 control instant time links participants
