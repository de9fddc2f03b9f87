-- ===== src/Analysis.antt =====
-- `Analysis` of src/analysis.rs, and the request of src/engine.rs that carries it.
use sim_core.Prelude.{ℕ, String, List, Option}
use sim_core.Circuit.{Circuit, NetEndpoint}

pub data AnalysisKind : Type 0 where
  operating_point dc_sweep transient ac_sweep digital_transient mixed_signal_transient
        firmware_transient co_simulation_transient :
      AnalysisKind

pub data AnalysisDomain : Type 0 where
  analog digital mixed : AnalysisDomain

pub data AcScale : Type 0 where
  linear decade octave : AcScale

pub data Analysis (F : Type 0) : Type 0 where
  operating_point : Analysis F
  dc_sweep : String → F → F → F → Analysis F
  transient : F → F → Analysis F
  ac_sweep : AcScale → ℕ → F → F → Analysis F
  digital_transient : F → Analysis F
  mixed_signal_transient : F → F → Analysis F
  firmware_transient : F → F → Analysis F

unfoldable pub kind_of : {F : Type 0} → Analysis F → AnalysisKind
kind_of Analysis.operating_point = AnalysisKind.operating_point
kind_of (Analysis.dc_sweep source start stop step) = AnalysisKind.dc_sweep
kind_of (Analysis.transient step stop) = AnalysisKind.transient
kind_of (Analysis.ac_sweep scale points start stop) = AnalysisKind.ac_sweep
kind_of (Analysis.digital_transient stop) = AnalysisKind.digital_transient
kind_of (Analysis.mixed_signal_transient step stop) = AnalysisKind.mixed_signal_transient
kind_of (Analysis.firmware_transient step stop) = AnalysisKind.firmware_transient

unfoldable pub analysis_domain : {F : Type 0} → Analysis F → AnalysisDomain
analysis_domain (Analysis.digital_transient stop) = digital
analysis_domain (Analysis.mixed_signal_transient step stop) = mixed
analysis_domain (Analysis.firmware_transient step stop) = digital
analysis_domain _ = analog

pub record Probe : Type 0 where
  pub endpoint : NetEndpoint
  pub alias : Option String

pub record SimulationRequest (F : Type 0) : Type 0 where
  pub circuit : Circuit F
  pub analysis : Analysis F
  pub probes : List Probe
