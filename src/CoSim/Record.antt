-- ===== src/CoSim/Record.antt =====
-- `WaveformRecorder` of src/cosim.rs.
pub mod Histories
pub mod Opening
use sim_core.Prelude.{
  String, Ordering, Bool, true, false, not, ◌&&◌, List, [], ◌∷◌, ◌++◌, Option, none, some, ◌≡◌,
  refl, arith, ap, if◌then◌else◌, ℕ,
}
use Prim.Native.String.{◌++◌ as append}
use sim_core.Prelude.Map.{Key, string_key, lookup, insert}
use sim_core.Prelude.Result.{Result, ok, err, fail, reject, ok_or, ◌>>=◌, ◌>>◌}
use sim_core.Float.{Float}
use sim_core.Logic.{LogicValue, logic_eq}
use sim_core.Waveform.{DigitalTransition, last, set_last}
use sim_core.Circuit.{UnitOf, SignalDomain, analog_domain, digital_domain}
use sim_core.CoSim.{
  CoSimulationPort, CoSimulationEndpoint, CoSimulationValue, digital, analog, Backend, endpoint_key,
  gives, validate_value,
}
use sim_core.CoSim.Ports.{Fleet}

pub data RecordedSignal (F : Type 0) : Type 0 where
  recorded_digital : String → List (DigitalTransition F) → RecordedSignal F
  -- The signal, its unit, the times and the values.
  recorded_analog : String → UnitOf → List F → List F → RecordedSignal F

-- The recorder's map; its keys are a participant and a port.
abbrev pub Signals : Type 0 → Type 0
Signals F = List (CoSimulationEndpoint × RecordedSignal F)

module _ (fl : Float) {P : Type 0} (backend : Backend fl P) where
  open fl use {F, as_seconds, le}

  -- `==` of `f64`.
  abbrev pub equal_time : F → F → Bool
  equal_time a b = le a b && le b a

  recorded_port : String → CoSimulationPort → SignalDomain → Result (RecordedSignal F)
  recorded_port id port digital_domain = ok (recorded_digital (append id (append "." port.name)) [])
  recorded_port id port analog_domain = do
    unit ← ok_or port.unit "cosim_port_invalid"
    ok (recorded_analog (append id (append "." port.name)) unit [] [])
  recorded_port id port _ = fail "cosim_port_invalid"

  -- The inner loop of `WaveformRecorder::new`.
  record_ports : String → List CoSimulationPort → Signals F → Result (Signals F)
  unfolding recorded_port
  record_ports id [] signals = ok signals
  record_ports id (port ∷ ports) signals =
      if gives port.direction
      then (do
        recorded ← recorded_port id port port.domain
        record_ports id ports
            (insert (record { participant = id; port = port.name }) recorded signals))
      else record_ports id ports signals

  record_participants : Fleet P → Signals F → Result (Signals F)
  unfolding record_ports
  record_participants [] signals = ok signals
  record_participants ((id, participant) ∷ participants) signals = do
    signals' ← record_ports id (backend.ports participant) signals
    record_participants participants signals'

  unfoldable pub new_recorder : Fleet P → Result (Signals F)
  unfolding record_participants
  new_recorder participants = record_participants participants []

  -- A level is recorded where it differs from the last.
  unfoldable pub push_level :
      F → LogicValue → List (DigitalTransition F) → List (DigitalTransition F)
  push_level seconds value transitions = elim (last transitions) [
    | none ↦ transitions ++ record { time = seconds; value = value } ∷ []
    | some t ↦
        if logic_eq t.value value
        then transitions
        else transitions ++ record { time = seconds; value = value } ∷ []
  ]

  -- A sample at the last time takes the place of the last.
  unfoldable pub push_sample : F → F → List F → List F → List F × List F
  unfolding set_last
  push_sample seconds value times values = elim (last times) [
    | none ↦ (times ++ seconds ∷ [], values ++ value ∷ [])
    | some t ↦
        if equal_time t seconds
        then (times, set_last value values)
        else (times ++ seconds ∷ [], values ++ value ∷ [])
  ]

  unfoldable pub record_value :
      F → RecordedSignal F → CoSimulationValue F → Result (RecordedSignal F)
  unfolding push_level push_sample
  record_value seconds (recorded_digital signal transitions) (digital value) =
      ok (recorded_digital signal (push_level seconds value transitions))
  record_value seconds (recorded_analog signal unit times values) (analog value) =
      let pushed = push_sample seconds value times values in
      ok (recorded_analog signal unit pushed.0 pushed.1)
  record_value seconds _ value = fail "cosim_value_domain_mismatch"

  -- `record`. A participant that is not there is an `expect` that panics.
  unfoldable pub record_signals : ℕ → Fleet P → Signals F → Result (Signals F)
  unfolding record_value validate_value
  record_signals time participants [] = ok []
  record_signals time participants ((key, recorded) ∷ signals) = do
    participant ← ok_or (lookup key.participant participants) "panic"
    value ← backend.read_output key.port participant
    validate_value fl value
    recorded' ← record_value (as_seconds time) recorded value
    signals' ← record_signals time participants signals
    ok ((key, recorded') ∷ signals')
