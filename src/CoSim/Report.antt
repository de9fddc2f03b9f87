-- ===== src/CoSim/Report.antt =====
-- The report of a co-simulation: `WaveformRecorder::finish` and the end of `run` of src/cosim.rs.
pub mod Shape
use mathlib.Core.Option
use sim_core.Prelude.{ℕ, ◌+◌, String, List, [], ◌∷◌, Option, none, some, length}
use sim_core.Prelude.Result.{Result, ok, err}
use sim_core.Control.{ExecutionControl}
use sim_core.Float.{Float}
use sim_core.Waveform.Result.{
  time_axis, Waveform, analog_waveform, digital_waveform, SimulationStats, from_waveforms,
}
use sim_core.Circuit.{UnitOf, second}
use sim_core.CoSim.{CoSimulationStats, CoSimulationEndpoint, Backend}
use sim_core.CoSim.Ports.{CoSimulationScheduler}
use sim_core.CoSim.Record.{RecordedSignal, recorded_digital, recorded_analog, Signals}
use sim_core.CoSim.Run.{RunState, run}

finished : {F : Type 0} → RecordedSignal F → Waveform F
finished (recorded_digital signal transitions) =
    digital_waveform (record { signal = signal; transitions = transitions })
finished (recorded_analog signal unit times values) = analog_waveform (record {
  signal = signal;
  unit = unit;
  axis = record { kind = time_axis; unit = second; values = times };
  values = values;
  imaginary = none;
})

-- `WaveformRecorder::finish`.
unfoldable pub finish : {F : Type 0} → Signals F → List (Waveform F)
unfolding finished
finish [] = []
finish ((key, recorded) ∷ signals) = finished recorded ∷ finish signals

-- What a report says of the run; its texts and versions are left out.
pub record CoSimulationReport (F : Type 0) : Type 0 where
  pub waveforms : List (Waveform F)
  pub stats : SimulationStats
  pub scheduler : CoSimulationStats

module _ (fl : Float) {P : Type 0} (backend : Backend fl P) where
  open fl use {F}

  report_of : Result (RunState fl backend) → Result (CoSimulationReport F)
  unfolding finish
  report_of (err e) = err e
  report_of (ok s) = ok (record {
    waveforms = finish s.recorder;
    stats = from_waveforms (finish s.recorder);
    scheduler = s.stats;
  })

  -- `run`, with its report.
  unfoldable pub report :
      ℕ → ExecutionControl → CoSimulationScheduler P → Option (Result (CoSimulationReport F))
  unfolding report_of
  report fuel control s = Option.map report_of (run fl backend fuel control s)
