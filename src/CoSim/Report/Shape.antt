-- ===== src/CoSim/Report/Shape.antt =====
-- The report of a co-simulation of src/cosim.rs is well shaped.
use mathlib.Core.Option
use sim_core.Prelude.{
  ℕ, ◌^◌, ◌<◌, ◌≡◌, refl, List, [], ◌∷◌, Option, none, some, length, All, String,
}
use sim_core.Prelude.Map.{keys, string_key}
use sim_core.Prelude.Loop.{Returns}
use sim_core.Prelude.Result.{Result, ok, err}
use sim_core.Control.{ExecutionControl}
use sim_core.Float.{Float}
use sim_core.CoSim.{Backend, CoSimulationConfig}
use sim_core.CoSim.Ports.{CoSimulationScheduler}
use sim_core.Circuit.{second}
use sim_core.CoSim.Record.{RecordedSignal, Signals, recorded_digital, recorded_analog}
use sim_core.CoSim.Record.Histories.{Changing, AllTidy}
use sim_core.CoSim.Run.{RunState, run}
use sim_core.CoSim.Run.Whole.{Finished, run-Finished}
use sim_core.CoSim.Report.{finished, finish, CoSimulationReport, report_of, report}
use sim_core.Waveform.Result.{
  time_axis, Waveform, analog_waveform, digital_waveform, from_waveforms,
}

-- An analog waveform has a value for each point of its axis; a digital one changes at each transition.
abbrev pub Shaped : {F : Type 0} → Waveform F → Type 0
Shaped (analog_waveform w) = length w.axis.values ≡ length w.values
Shaped (digital_waveform w) = Changing w.transitions

-- A waveform that shows a recorded signal: its name, its times and its values.
abbrev pub Plots : {F : Type 0} → RecordedSignal F → Waveform F → Type 0
Plots (recorded_digital signal transitions) (digital_waveform w) =
    (w.signal ≡ signal) × (w.transitions ≡ transitions)
Plots (recorded_analog signal unit times values) (analog_waveform w) =
    (w.signal ≡ signal)
    × (w.unit ≡ unit)
    × (w.axis.kind ≡ time_axis)
    × (w.axis.unit ≡ second)
    × (w.axis.values ≡ times)
    × (w.values ≡ values)
    × (w.imaginary ≡ none)
Plots recorded w = ⊥

-- One waveform for each recorded signal, in their order.
abbrev pub AllPlot : {F : Type 0} → Signals F → List (Waveform F) → Type 0
AllPlot [] [] = Unit
AllPlot ((key, recorded) ∷ signals) (w ∷ waveforms) = Plots recorded w × AllPlot signals waveforms
AllPlot signals waveforms = ⊥

finish-AllPlot : {F : Type 0} (signals : Signals F) → AllPlot signals (finish signals)
unfolding finish finished
finish-AllPlot [] = tt
finish-AllPlot ((key, recorded_digital signal ts) ∷ signals) =
    ((refl, refl), finish-AllPlot signals)
finish-AllPlot ((key, recorded_analog signal unit times values) ∷ signals) =
    ((refl, refl, refl, refl, refl, refl, refl), finish-AllPlot signals)

module _ (fl : Float) {P : Type 0} (backend : Backend fl P) where
  open fl use {F}

  -- A report of a run: that run came to its end, and the report shows what it recorded and counted.
  pub record IsReport (config : CoSimulationConfig) (ids : List String)
      (o : Option (Result (RunState fl backend))) (r : CoSimulationReport F) : Type 0 where
    pub final : RunState fl backend
    pub ran : o ≡ some (ok final)
    pub finished : Finished fl backend config ids final
    pub plotted : AllPlot final.recorder r.waveforms
    pub shaped : All Shaped r.waveforms
    pub counted : r.stats ≡ from_waveforms r.waveforms
    pub scheduled : r.scheduler ≡ final.stats

  finish-Shaped : (signals : Signals F) → AllTidy fl backend signals → All Shaped (finish signals)
  unfolding finish finished
  finish-Shaped [] t = tt
  finish-Shaped ((key, recorded_digital signal ts) ∷ signals) t = (t.0, finish-Shaped signals t.1)
  finish-Shaped ((key, recorded_analog signal unit times values) ∷ signals) t =
      (t.0, finish-Shaped signals t.1)

  report_of-IsReport :
      (config : CoSimulationConfig) (ids : List String) (o : Option (Result (RunState fl backend)))
      → Returns (Finished fl backend config ids) o
      → Returns (IsReport config ids o) (Option.map (report_of fl backend) o)
  unfolding report_of
  report_of-IsReport config ids none h = h
  report_of-IsReport config ids (some (err e)) h = tt
  report_of-IsReport config ids (some (ok s)) h = record {
    final = s;
    ran = refl;
    finished = h;
    plotted = finish-AllPlot s.recorder;
    shaped = finish-Shaped s.recorder h.running.tidy;
    counted = refl;
    scheduled = refl;
  }

  -- With fuel for its step limit and a stop time that is a `u64`, a co-simulation returns an error or a
  -- report. The run of a report came to its stop time, and the report has, in order, one waveform for each
  -- signal that the run recorded, with the name, the unit, the times and the values or transitions that
  -- were recorded. Each analog waveform has a value for each point of its axis and each digital one
  -- changes level at each transition; the statistics are those of the waveforms and those of the run.
  pub report-IsReport :
      (fuel : ℕ) (control : ExecutionControl) (s : CoSimulationScheduler P)
      → s.config.stop < 2 ^ 64
      → s.config.max_steps < fuel
      → Returns
          (IsReport s.config (keys s.participants) (run fl backend fuel control s))
          (report fl backend fuel control s)
  unfolding report
  report-IsReport fuel control s w enough =
      report_of-IsReport s.config (keys s.participants) (run fl backend fuel control s)
        (run-Finished fl backend fuel control s w enough)
