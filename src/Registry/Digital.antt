-- ===== src/Registry/Digital.antt =====
-- `DigitalEngine` of src/digital.rs as an engine of the simulator of src/engine.rs.
use sim_core.Prelude.{
  ℕ, ◌<◌, ◌≡◌, refl, String, Bool, true, false, not, ◌&&◌, str_eq, [], ◌∷◌, Option, none, some, any,
  inl, inr, Bool-cases,
}
use sim_core.Prelude.Result.{Result, ok, err}
use sim_core.Prelude.Safe.{is_panic}
use sim_core.Analysis.{AnalysisKind, kind_of, SimulationRequest}
use sim_core.Circuit.{Component}
use sim_core.Control.{ExecutionControl}
use sim_core.Events.{max_digital_events}
use sim_core.Float.{Float, Casts}
use sim_core.Engine.Simulate.{digital_engine_id, simulate_digital}
use sim_core.Engine.Simulate.Answers.{Answers, IsResult, simulate_digital-Answers}
use sim_core.Validation.Report.{is_valid}
use sim_core.Validation.Circuit.{validate_circuit}
use sim_core.Validation.Sound.{IsAccepted, validate_circuit-IsAccepted}
use sim_core.Waveform.Result.{SimulationResult}
use sim_core.Registry.{
  EngineCapabilities, supports, SimulationEngine, invalid_circuit, no_compatible_engine,
  engine_failed, Outcome, select_request, engine_outcome, run_selected, simulate_with_control,
}

abbrev pub digital_capabilities : EngineCapabilities
digital_capabilities = record {
  analog = false;
  digital = true;
  mixed_signal = false;
  analyses = AnalysisKind.digital_transient ∷ [];
}

is_hdl_module : {F : Type 0} → Component F → Bool
is_hdl_module c = str_eq c.kind "hdl_module"

-- A module of a hardware description language is another engine's.
unfoldable pub supports_digital : {F : Type 0} → SimulationRequest F → Bool
unfolding supports is_hdl_module
supports_digital request =
    supports digital_capabilities request.analysis
    && not (any is_hdl_module request.circuit.components)

module _ {fl : Float} (casts : Casts fl) where
  open fl use {F}

  unfoldable pub digital_engine : ℕ → Option String → SimulationEngine F
  unfolding supports_digital simulate_digital
  digital_engine fuel version = record {
    id = digital_engine_id;
    capabilities = digital_capabilities;
    version = version;
    supports_request = supports_digital;
    simulate = simulate_digital casts fuel;
  }

  -- What the simulator answers with the digital engine alone.
  abbrev pub IsDigitalOutcome : SimulationRequest F → Option (Outcome F) → Type 0
  IsDigitalOutcome request none = ⊥
  IsDigitalOutcome request (some (inl (invalid_circuit report))) =
      (report ≡ validate_circuit fl request.circuit) × (is_valid report ≡ false)
  IsDigitalOutcome request (some (inl (no_compatible_engine kind))) =
      (kind ≡ kind_of request.analysis) × (supports_digital request ≡ false)
  IsDigitalOutcome request (some (inl (engine_failed id error))) =
      (id ≡ digital_engine_id) × (is_panic error.code ≡ false)
  IsDigitalOutcome request (some (inr result)) =
      IsAccepted fl request.circuit × (supports_digital request ≡ true) × IsResult request result

  answered :
      (request : SimulationRequest F) (answer : Option (Result (SimulationResult F)))
      → IsAccepted fl request.circuit
      → supports_digital request ≡ true
      → Answers (IsResult request) answer
      → IsDigitalOutcome request (engine_outcome digital_engine_id answer)
  unfolding engine_outcome
  answered request none accepted fit h = h
  answered request (some (err error)) accepted fit h = (refl, h)
  answered request (some (ok result)) accepted fit h = (accepted, fit, h)

  served :
      (fuel : ℕ) (version : Option String) (request : SimulationRequest F)
      (control : ExecutionControl)
      → max_digital_events < fuel
      → IsAccepted fl request.circuit
      → IsDigitalOutcome request
          (run_selected control request (select_request request (digital_engine fuel version ∷ [])))
  unfolding run_selected select_request digital_engine
  served fuel version request control enough accepted =
      elim (Bool-cases (supports_digital request)) [
        | inl on ↦ rw on (
            answered request (simulate_digital casts fuel control request) accepted on
              (simulate_digital-Answers casts fuel control request enough))
        | inr off ↦ rw off (refl, off)
      ]

  -- With the digital engine as its one engine, and fuel for the event limit, the simulator answers
  -- every request under every control. It gives a result only for a well-formed circuit and a request
  -- that the engine supports, and then the result is the engine's. Its errors are the report of a
  -- circuit with an error, that the engine does not support the request, or an error of the engine that
  -- is no panic.
  pub simulate_with_control-IsDigitalOutcome :
      (fuel : ℕ) (version : Option String) (request : SimulationRequest F)
      (control : ExecutionControl)
      → max_digital_events < fuel
      → IsDigitalOutcome request
          (simulate_with_control fl (digital_engine fuel version ∷ []) request control)
  unfolding simulate_with_control
  simulate_with_control-IsDigitalOutcome fuel version request control enough =
      elim (Bool-cases (is_valid (validate_circuit fl request.circuit))) [
        | inl good ↦ rw good (
            served fuel version request control enough
              (validate_circuit-IsAccepted fl request.circuit good))
        | inr bad ↦ rw bad (refl, bad)
      ]
