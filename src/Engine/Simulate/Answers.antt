-- ===== src/Engine/Simulate/Answers.antt =====
-- A request to the digital engine of src/digital.rs is answered, and never by a panic.
use sim_core.Prelude.{
  ℕ, suc, ◌<◌, ◌≡◌, refl, sym, ap, ◌∙◌, String, true, List, [], ◌∷◌, Option, none, some, length,
  is_some, All, inl, inr, Option-cases,
}
use mathlib.Core.Bool.{false≢true}
use sim_core.Prelude.Map.{lookup, string_key, pair_key}
use sim_core.Prelude.Loop.{Returns}
use sim_core.Prelude.Result.{Result, ok, err}
use sim_core.Prelude.Safe.{Safe, SafeRun, Safe-bind, Calm-Safe}
use sim_core.Analysis.{Analysis, AnalysisKind, kind_of, SimulationRequest}
use sim_core.Control.{ExecutionControl}
use sim_core.Events.{max_digital_events}
use sim_core.Float.{Float, Casts}
use sim_core.Program.{CompiledProbe, DigitalProgram}
use sim_core.Program.Compile.{compile}
use sim_core.Program.Compile.Calm.{compile-Calm}
use sim_core.Program.Compile.Probes.{signals_of, compile-Probed}
use sim_core.Program.Compile.Sound.{compile-IsSound}
use sim_core.Waveform.Result.{SimulationResult, new_result, from_waveforms}
use sim_core.Session.Safe.{IsNet}
use sim_core.Engine.{Histories, EngineState, engine_allowed, run_engine}
use sim_core.Engine.Calm.{Steady, run_engine-Safe, engine_allowed-Safe}
use sim_core.Engine.Whole.{Completed, run_engine-Completed}
use sim_core.Engine.Simulate.{
  digital_engine_id, probe_waveforms, result_of, run_program, run_analysis, simulate_digital,
}

-- A run that comes to an end, with a value with `P` or an error that is no panic.
abbrev pub Answers : {A : Type 0} → (A → Type 0) → Option (Result A) → Type 0
Answers P none = ⊥
Answers P (some r) = Safe P r

Answers-of :
    {A : Type 0} (P Q : A → Type 0) (o : Option (Result A))
    → Returns P o
    → SafeRun Q o
    → Answers Q o
Answers-of P Q none r s = r
Answers-of P Q (some m) r s = s

-- A result of the engine for a request.
pub record IsResult {F : Type 0} (request : SimulationRequest F) (r : SimulationResult F)
    : Type 0 where
  pub by_engine : r.engine ≡ digital_engine_id
  pub of_analysis : r.analysis ≡ AnalysisKind.digital_transient
  pub one_each : length r.waveforms ≡ signals_of request.circuit request.probes
  pub counted : r.stats ≡ from_waveforms r.waveforms

module _ {F : Type 0} (histories : Histories F) (Has : String → Type 0)
    (has : (net : String) → Has net → is_some (lookup net histories) ≡ true) where
  probe_waveforms-Safe :
      (probes : List CompiledProbe)
      → All (λ p. Has p.net) probes
      → Safe (λ ws. length ws ≡ length probes) (probe_waveforms histories probes)
  unfolding probe_waveforms
  probe_waveforms-Safe [] on = refl
  probe_waveforms-Safe (p ∷ probes) on = elim (Option-cases (lookup p.net histories)) [
    | inl missing ↦ absurd (false≢true (ap is_some (sym missing) ∙ has p.net on.0))
    | inr (history, found) ↦ rw found (
        Safe-bind _ _ (probe_waveforms histories probes) _ (probe_waveforms-Safe probes on.1)
          (λ ws h. ap suc h))
  ]

module _ {fl : Float} (casts : Casts fl) where
  open fl use {F}

  result_of-Safe :
      (request : SimulationRequest F) (program : DigitalProgram F) (stop : F)
      (compiled : compile casts request ≡ ok program) (r : Result (EngineState F))
      → request.analysis ≡ Analysis.digital_transient stop
      → Safe (Steady fl program (compile-IsSound casts request compiled)) r
      → Safe (IsResult request) (result_of casts request program r)
  unfolding result_of new_result
  result_of-Safe request program stop compiled (err e) a h = h
  result_of-Safe request program stop compiled (ok s) a steady =
      let probed = compile-Probed casts request compiled in
      Safe-bind (λ ws. length ws ≡ length program.probes) (IsResult request)
        (probe_waveforms s.histories program.probes) _
        (probe_waveforms-Safe s.histories (IsNet program) steady.kept program.probes probed.0)
        (λ ws h. record {
          by_engine = refl;
          of_analysis = rw a (unfold kind_of in refl);
          one_each = h ∙ probed.1;
          counted = refl;
        })

  run_program-Answers :
      (fuel : ℕ) (control : ExecutionControl) (stop : F) (request : SimulationRequest F)
      (r : Result (DigitalProgram F))
      → max_digital_events < fuel
      → request.analysis ≡ Analysis.digital_transient stop
      → compile casts request ≡ r
      → Safe (λ p. Unit) r
      → Answers (IsResult request) (run_program casts fuel control stop request r)
  unfolding run_program
  run_program-Answers fuel control stop request (err e) enough a c h = h
  run_program-Answers fuel control stop request (ok program) enough a c h =
      let sound = compile-IsSound casts request c in
      go (run_engine fl fuel control program stop) (
        Answers-of (Completed fl) (Steady fl program sound)
          (run_engine fl fuel control program stop)
          (run_engine-Completed fl fuel control program stop enough)
          (run_engine-Safe fl program sound fuel control stop))
    where
      go :
          (o : Option (Result (EngineState F)))
          → Answers (Steady fl program (compile-IsSound casts request c)) o
          → Answers
              (IsResult request)
              (elim o [ none ↦ none | some r ↦ some (result_of casts request program r) ])
      go none h = h
      go (some r) h = result_of-Safe request program stop c r a h

  run_analysis-Answers :
      (fuel : ℕ) (control : ExecutionControl) (analysis : Analysis F)
      (request : SimulationRequest F)
      → max_digital_events < fuel
      → request.analysis ≡ analysis
      → Answers (IsResult request) (run_analysis casts fuel control analysis request)
  unfolding run_analysis
  run_analysis-Answers fuel control (Analysis.digital_transient stop) request enough a =
      run_program-Answers fuel control stop request (compile casts request) enough a refl
        (Calm-Safe (compile casts request) (compile-Calm casts request))
  run_analysis-Answers fuel control _ request enough a = refl

  -- With fuel for the event limit, the digital engine answers every request under every control. The
  -- answer is an error that is no panic, or a result of the engine for a digital transient, with one
  -- waveform for each probe, or for each net if no probe is given, and the statistics of its waveforms.
  pub simulate_digital-Answers :
      (fuel : ℕ) (control : ExecutionControl) (request : SimulationRequest F)
      → max_digital_events < fuel
      → Answers (IsResult request) (simulate_digital casts fuel control request)
  unfolding simulate_digital
  simulate_digital-Answers fuel control request enough =
      go (engine_allowed fl control) (engine_allowed-Safe fl control)
    where
      go :
          (r : Result (Unit {0}))
          → Safe (λ u. Unit) r
          → Answers (IsResult request) (elim r [
            | err e ↦ some (err e)
            | ok u ↦ run_analysis casts fuel control request.analysis request
          ])
      go (err e) h = h
      go (ok u) h = run_analysis-Answers fuel control request.analysis request enough refl
