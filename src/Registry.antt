-- ===== src/Registry.antt =====
-- The engines and the simulator of src/engine.rs: `EngineCapabilities`, the trait `SimulationEngine`
-- with its default methods, `EngineRegistry` and `Simulator`. An engine is a parameter, a record of its
-- methods; its run answers nothing where its fuel ends.
pub mod Chosen
pub mod Digital
use sim_core.Prelude.{
  ℕ, String, Bool, true, false, not, ◌&&◌, ◌⊎◌, inl, inr, List, [], ◌∷◌, ◌++◌, Option, none, some,
  any, map, if◌then◌else◌, ◌==◌,
}
use sim_core.Prelude.Result.{EngineError, Result, ok, err, fail, reject, ◌>>◌}
use sim_core.Analysis.{
  AnalysisKind, AnalysisDomain, analog, digital, mixed, Analysis, kind_of, analysis_domain,
  SimulationRequest,
}
use sim_core.Control.{ExecutionPolicy, ExecutionControl, validate_policy}
use sim_core.Float.{Float}
use sim_core.Validation.Report.{ValidationReport, is_valid}
use sim_core.Validation.Circuit.{validate_circuit}
use sim_core.Waveform.Result.{SimulationResult}

-- The derived equality.
abbrev pub kind_number : AnalysisKind → ℕ
kind_number AnalysisKind.operating_point = 0
kind_number AnalysisKind.dc_sweep = 1
kind_number AnalysisKind.transient = 2
kind_number AnalysisKind.ac_sweep = 3
kind_number AnalysisKind.digital_transient = 4
kind_number AnalysisKind.mixed_signal_transient = 5
kind_number AnalysisKind.firmware_transient = 6
kind_number AnalysisKind.co_simulation_transient = 7

-- `analyses` is a set, of which only membership is read.
pub record EngineCapabilities : Type 0 where
  pub analog : Bool
  pub digital : Bool
  pub mixed_signal : Bool
  pub analyses : List AnalysisKind

domain_supported : EngineCapabilities → AnalysisDomain → Bool
domain_supported c analog = c.analog
domain_supported c digital = c.digital
domain_supported c mixed = c.mixed_signal

unfoldable pub has_kind : AnalysisKind → List AnalysisKind → Bool
has_kind kind kinds = any (λ other. kind_number kind == kind_number other) kinds

-- `EngineCapabilities::supports`.
unfoldable pub supports : {F : Type 0} → EngineCapabilities → Analysis F → Bool
unfolding domain_supported has_kind kind_of analysis_domain
supports c analysis =
    domain_supported c (analysis_domain analysis) && has_kind (kind_of analysis) c.analyses

pub record EngineDescriptor : Type 0 where
  pub id : String
  pub version : Option String
  pub capabilities : EngineCapabilities

pub record SimulationEngine (F : Type 0) : Type 0 where
  pub id : String
  pub capabilities : EngineCapabilities
  pub version : Option String
  pub supports_request : SimulationRequest F → Bool
  pub simulate : ExecutionControl → SimulationRequest F → Option (Result (SimulationResult F))

pub data SimulationError : Type 0 where
  invalid_circuit : ValidationReport → SimulationError
  no_compatible_engine : AnalysisKind → SimulationError
  engine_failed : String → EngineError → SimulationError

-- `EngineRegistry`: the engines in the order of their registration.
abbrev pub EngineRegistry : Type 0 → Type 0
EngineRegistry F = List (SimulationEngine F)

abbrev pub Outcome : Type 0 → Type 0
Outcome F = SimulationError ⊎ SimulationResult F

-- `SimulationError::code`.
unfoldable pub code_of : SimulationError → String
code_of (invalid_circuit report) = "invalid_circuit"
code_of (no_compatible_engine kind) = "no_compatible_engine"
code_of (engine_failed id error) = "engine_error"

module _ {F : Type 0} where
  unfoldable pub descriptor : SimulationEngine F → EngineDescriptor
  descriptor e = record { id = e.id; version = e.version; capabilities = e.capabilities }

  -- The default methods of the trait; `simulate` is the method without a control.
  unfoldable pub supports_by_default : EngineCapabilities → SimulationRequest F → Bool
  unfolding supports
  supports_by_default capabilities request = supports capabilities request.analysis

  simulate_after :
      Result (Unit {0})
      → Option (Result (SimulationResult F))
      → Option (Result (SimulationResult F))
  simulate_after (err e) answer = some (err e)
  simulate_after (ok u) answer = answer

  unfoldable pub simulate_by_default :
      (SimulationRequest F → Option (Result (SimulationResult F)))
      → ExecutionControl
      → SimulationRequest F
      → Option (Result (SimulationResult F))
  unfolding simulate_after validate_policy
  simulate_by_default simulate control request =
      simulate_after
        (validate_policy control.policy >> reject (control.is_cancelled 0) "execution_cancelled")
        (simulate request)

  unfoldable pub register : SimulationEngine F → EngineRegistry F → EngineRegistry F
  register e engines = engines ++ e ∷ []

  unfoldable pub engine_ids : EngineRegistry F → List String
  engine_ids engines = map (λ e. e.id) engines

  unfoldable pub descriptors : EngineRegistry F → List EngineDescriptor
  unfolding descriptor
  descriptors engines = map descriptor engines

  unfoldable pub select : Analysis F → EngineRegistry F → Option (SimulationEngine F)
  unfolding supports
  select analysis [] = none
  select analysis (e ∷ engines) =
      if supports e.capabilities analysis then some e else select analysis engines

  unfoldable pub select_request :
      SimulationRequest F → EngineRegistry F → Option (SimulationEngine F)
  select_request request [] = none
  select_request request (e ∷ engines) =
      if e.supports_request request then some e else select_request request engines

  -- `map_err` on the answer of the engine.
  unfoldable pub engine_outcome : String → Option (Result (SimulationResult F)) → Option (Outcome F)
  engine_outcome id none = none
  engine_outcome id (some (err e)) = some (inl (engine_failed id e))
  engine_outcome id (some (ok result)) = some (inr result)

  unfoldable pub run_selected :
      ExecutionControl → SimulationRequest F → Option (SimulationEngine F) → Option (Outcome F)
  unfolding engine_outcome
  run_selected control request none = some (inl (no_compatible_engine (kind_of request.analysis)))
  run_selected control request (some e) = engine_outcome e.id (e.simulate control request)

module _ (fl : Float) where
  open fl use {F}

  -- `Simulator::simulate_with_control`.
  unfoldable pub simulate_with_control :
      EngineRegistry F → SimulationRequest F → ExecutionControl → Option (Outcome F)
  unfolding run_selected select_request
  simulate_with_control engines request control =
      let report = validate_circuit fl request.circuit in
      if not (is_valid report)
      then some (inl (invalid_circuit report))
      else run_selected control request (select_request request engines)
