-- ===== src/Engine/Simulate.antt =====
-- `DigitalEngine::run` of src/digital.rs as a whole, with its capabilities: a request is compiled and
-- run, and the histories of the probed nets become waveforms.
pub mod Answers
use sim_core.Prelude.{
  ℕ, String, Bool, true, not, ◌&&◌, str_eq, List, [], ◌∷◌, Option, none, some, any, length, ltb,
  if◌then◌else◌,
}
use sim_core.Prelude.Map.{lookup, string_key}
use sim_core.Prelude.Result.{Result, ok, err, fail, ok_or, ◌>>=◌}
use sim_core.Analysis.{Analysis, AnalysisKind, kind_of, SimulationRequest}
use sim_core.Circuit.{Component}
use sim_core.Control.{ExecutionControl}
use sim_core.Float.{Float, Casts}
use sim_core.Logic.Resolve.{DriverKey}
use sim_core.Waveform.Result.{
  Waveform, digital_waveform, Diagnostic, info, SimulationResult, new_result, core_version_now,
}
use sim_core.Program.{CompiledProbe, DigitalProgram}
use sim_core.Program.Compile.{compile}
use sim_core.Engine.{Histories, EngineState, engine_allowed, run_engine}

abbrev pub digital_engine_id : String
digital_engine_id = "digital"

-- The map over the probes; `expect` finds a history.
probe_waveforms : {F : Type 0} → Histories F → List CompiledProbe → Result (List (Waveform F))
probe_waveforms histories [] = ok []
probe_waveforms histories (probe ∷ probes) = do
  transitions ← ok_or (lookup probe.net histories) "panic"
  rest ← probe_waveforms histories probes
  ok (digital_waveform (record { signal = probe.signal; transitions = transitions }) ∷ rest)

-- Some net has several drivers.
unfoldable pub is_contended : List (String × List DriverKey) → Bool
is_contended net_drivers = any (λ entry. ltb 1 (length entry.1)) net_drivers

diagnostics_of : List (String × List DriverKey) → List Diagnostic
unfolding is_contended
diagnostics_of net_drivers =
    if is_contended net_drivers
    then record { level = info; code = "digital_multi_driver_resolution" } ∷ []
    else []

module _ {fl : Float} (casts : Casts fl) where
  open fl use {F}

  -- The end of `run`.
  result_of :
      SimulationRequest F → DigitalProgram F → Result (EngineState F) → Result (SimulationResult F)
  unfolding probe_waveforms diagnostics_of new_result
  result_of request program (err e) = err e
  result_of request program (ok s) = do
    waveforms ← probe_waveforms s.histories program.probes
    ok (
        new_result digital_engine_id (some core_version_now) (kind_of request.analysis)
          request.circuit.schema_version waveforms (diagnostics_of program.net_drivers))

  run_program :
      ℕ
      → ExecutionControl
      → F
      → SimulationRequest F
      → Result (DigitalProgram F)
      → Option (Result (SimulationResult F))
  unfolding result_of
  run_program fuel control stop request (err e) = some (err e)
  run_program fuel control stop request (ok program) =
      elim (run_engine fl fuel control program stop) [
        | none ↦ none
        | some r ↦ some (result_of request program r)
      ]

  run_analysis :
      ℕ → ExecutionControl → Analysis F → SimulationRequest F → Option (Result (SimulationResult F))
  unfolding run_program
  run_analysis fuel control (Analysis.digital_transient stop) request =
      run_program fuel control stop request (compile casts request)
  run_analysis fuel control _ request = some (fail "digital_unsupported_analysis")

  -- `DigitalEngine::run`. The checks of the policy and of the token at the first instant, which
  -- `run_engine` repeats, come before the compilation.
  unfoldable pub simulate_digital :
      ℕ → ExecutionControl → SimulationRequest F → Option (Result (SimulationResult F))
  unfolding run_analysis
  simulate_digital fuel control request = elim (engine_allowed fl control) [
    | err e ↦ some (err e)
    | ok u ↦ run_analysis fuel control request.analysis request
  ]
