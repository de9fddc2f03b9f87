-- ===== src/Waveform/Result.antt =====
-- The result of a simulation: waveforms, statistics, metadata and diagnostics of src/waveform.rs.
use sim_core.Prelude.{ℕ, ◌+◌, String, List, [], ◌∷◌, Option, length}
use sim_core.Analysis.{AnalysisKind}
use sim_core.Circuit.{UnitOf}
use sim_core.Waveform.{DigitalTransition}

pub data AxisKind : Type 0 where
  scalar_axis time_axis dc_sweep_axis frequency_axis : AxisKind

pub record AnalogAxis (F : Type 0) : Type 0 where
  pub kind : AxisKind
  pub unit : UnitOf
  pub values : List F

pub record AnalogWaveform (F : Type 0) : Type 0 where
  pub signal : String
  pub unit : UnitOf
  pub axis : AnalogAxis F
  pub values : List F
  pub imaginary : Option (List F)

pub record DigitalWaveform (F : Type 0) : Type 0 where
  pub signal : String
  pub transitions : List (DigitalTransition F)

pub data Waveform (F : Type 0) : Type 0 where
  analog_waveform : AnalogWaveform F → Waveform F
  digital_waveform : DigitalWaveform F → Waveform F

unfoldable pub point_count : {F : Type 0} → Waveform F → ℕ
point_count (analog_waveform w) = length w.values
point_count (digital_waveform w) = length w.transitions

pub record SimulationStats : Type 0 where
  pub waveform_count : ℕ
  pub point_count : ℕ

points_of : {F : Type 0} → List (Waveform F) → ℕ
unfolding point_count
points_of [] = 0
points_of (w ∷ ws) = point_count w + points_of ws

-- `SimulationStats::from_waveforms`.
unfoldable pub from_waveforms : {F : Type 0} → List (Waveform F) → SimulationStats
unfolding points_of
from_waveforms ws = record { waveform_count = length ws; point_count = points_of ws }

pub data DiagnosticLevel : Type 0 where
  info warning error : DiagnosticLevel

-- The text for people is left out.
pub record Diagnostic : Type 0 where
  pub level : DiagnosticLevel
  pub code : String

pub record SimulationMetadata : Type 0 where
  pub result_schema_version : ℕ
  pub circuit_schema_version : ℕ
  pub core_version : String
  pub engine_version : Option String

-- `SIMULATION_RESULT_SCHEMA_VERSION`, and `VERSION` of src/lib.rs, which is that of Cargo.toml.
abbrev pub result_schema_version_now : ℕ
result_schema_version_now = 1

abbrev pub core_version_now : String
core_version_now = "0.17.0"

-- `SimulationMetadata::current`.
unfoldable pub current : ℕ → Option String → SimulationMetadata
current circuit_schema_version engine_version = record {
  result_schema_version = result_schema_version_now;
  circuit_schema_version = circuit_schema_version;
  core_version = core_version_now;
  engine_version = engine_version;
}

pub record SimulationResult (F : Type 0) : Type 0 where
  pub engine : String
  pub analysis : AnalysisKind
  pub metadata : SimulationMetadata
  pub stats : SimulationStats
  pub waveforms : List (Waveform F)
  pub diagnostics : List Diagnostic

-- `SimulationResult::new`.
unfoldable pub new_result :
    {F : Type 0}
    → String
    → Option String
    → AnalysisKind
    → ℕ
    → List (Waveform F)
    → List Diagnostic
    → SimulationResult F
unfolding from_waveforms current
new_result engine engine_version analysis circuit_schema_version waveforms diagnostics = record {
  engine = engine;
  analysis = analysis;
  metadata = current circuit_schema_version engine_version;
  stats = from_waveforms waveforms;
  waveforms = waveforms;
  diagnostics = diagnostics;
}
