-- ===== src/CoSim/Record/Opening.antt =====
-- A new recorder of src/cosim.rs holds empty histories.
use sim_core.Prelude.{String, Ordering, refl, List, [], ◌∷◌, All, Bool-cases, inl, inr}
use sim_core.Prelude.Map.{insert, Key}
use sim_core.Prelude.Result.{ok_or, Ensures, Ensures-after, Ensures-bind}
use sim_core.Float.{Float}
use sim_core.Circuit.{SignalDomain, analog_domain, digital_domain, mixed_domain, reference_domain}
use sim_core.CoSim.{CoSimulationPort, Backend, endpoint_key, gives}
use sim_core.CoSim.Ports.{Fleet}
use sim_core.CoSim.Record.{Signals, recorded_port, record_ports, record_participants, new_recorder}
use sim_core.CoSim.Record.Histories.{Tidy, AllTidy}

module _ {K V : Type 0} ⦃k : Key K⦄ (Q : V → Type 0) where
  insert-All :
      (a : K) (v : V) (m : List (K × V))
      → Q v
      → All (λ (entry : K × V). Q entry.1) m
      → All (λ (entry : K × V). Q entry.1) (insert a v m)
  unfolding insert
  insert-All a v [] q h = (q, tt)
  insert-All a v ((b, w) ∷ m) q h = place (k.order a b) (insert-All a v m q h.1)
    where
      place :
          (o : Ordering)
          → All (λ (entry : K × V). Q entry.1) (insert a v m)
          → All
              (λ (entry : K × V). Q entry.1)
              (elim o [
                | Ordering.lt ↦ (a, v) ∷ (b, w) ∷ m
                | Ordering.eq ↦ (b, v) ∷ m
                | Ordering.gt ↦ (b, w) ∷ insert a v m
              ])
      place Ordering.lt rest = (q, h)
      place Ordering.eq rest = (q, h.1)
      place Ordering.gt rest = (h.0, rest)

module _ (fl : Float) {P : Type 0} (backend : Backend fl P) where
  open fl use {F}

  recorded_port-Tidy :
      (id : String) (port : CoSimulationPort) (domain : SignalDomain)
      → Ensures Tidy (recorded_port fl backend id port domain)
  unfolding recorded_port
  recorded_port-Tidy id port digital_domain = tt
  recorded_port-Tidy id port analog_domain =
      Ensures-after Tidy (ok_or port.unit "cosim_port_invalid") _ (λ unit e. refl)
  recorded_port-Tidy id port mixed_domain = tt
  recorded_port-Tidy id port reference_domain = tt

  record_ports-AllTidy :
      (id : String) (ports : List CoSimulationPort) (signals : Signals F)
      → AllTidy fl backend signals
      → Ensures (AllTidy fl backend) (record_ports fl backend id ports signals)
  unfolding record_ports
  record_ports-AllTidy id [] signals h = h
  record_ports-AllTidy id (port ∷ ports) signals h = elim (Bool-cases (gives port.direction)) [
    | inl yes_gives ↦ rw yes_gives (
        Ensures-bind Tidy (AllTidy fl backend) (recorded_port fl backend id port port.domain) _
          (recorded_port-Tidy id port port.domain)
          (λ recorded t. record_ports-AllTidy id ports _ (insert-All Tidy _ recorded signals t h)))
    | inr not_gives ↦ rw not_gives (record_ports-AllTidy id ports signals h)
  ]

  record_participants-AllTidy :
      (fleet : Fleet P) (signals : Signals F)
      → AllTidy fl backend signals
      → Ensures (AllTidy fl backend) (record_participants fl backend fleet signals)
  unfolding record_participants
  record_participants-AllTidy [] signals h = h
  record_participants-AllTidy (entry ∷ fleet) signals h =
      Ensures-bind (AllTidy fl backend) (AllTidy fl backend)
        (record_ports fl backend entry.0 (backend.ports entry.1) signals) _
        (record_ports-AllTidy entry.0 (backend.ports entry.1) signals h)
        (λ signals' t. record_participants-AllTidy fleet signals' t)

  pub new_recorder-AllTidy :
      (fleet : Fleet P) → Ensures (AllTidy fl backend) (new_recorder fl backend fleet)
  unfolding new_recorder
  new_recorder-AllTidy fleet = record_participants-AllTidy fleet [] tt
