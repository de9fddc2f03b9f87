-- ===== src/Job.antt =====
-- The jobs of src/service.rs: their data, the state that the service shares, and the phases of a task.
use sim_core.Prelude.{ℕ, String, Bool, true, false, List, Option, none, some}
use sim_core.Prelude.Map.{nat_key}
use sim_core.Control.{ExecutionPolicy}
use sim_core.Registry.{SimulationError, code_of, Outcome}
use sim_core.Waveform.Result.{SimulationResult}

pub record ServiceLimits : Type 0 where
  pub max_retained_jobs : ℕ
  pub max_concurrent_jobs : ℕ
  pub max_request_bytes : ℕ
  pub execution_policy : ExecutionPolicy

pub data SimulationJobStatus : Type 0 where
  queued running cancelling succeeded failed cancelled : SimulationJobStatus

unfoldable pub is_terminal : SimulationJobStatus → Bool
is_terminal succeeded = true
is_terminal failed = true
is_terminal cancelled = true
is_terminal _ = false

pub record SimulationJobFailure : Type 0 where
  pub code : String
  pub simulation : Option SimulationError

-- `SimulationJobFailure::simulation` and `worker`.
unfoldable pub simulation_failure : SimulationError → SimulationJobFailure
unfolding code_of
simulation_failure error = record { code = code_of error; simulation = some error }

abbrev pub worker_failure : SimulationJobFailure
worker_failure = record { code = "service_worker_failed"; simulation = none }

pub record SimulationJobSnapshot (F : Type 0) : Type 0 where
  pub id : ℕ
  pub status : SimulationJobStatus
  pub result : Option (SimulationResult F)
  pub error : Option SimulationJobFailure

pub record JobEntry (F : Type 0) : Type 0 where
  pub snapshot : SimulationJobSnapshot F
  pub is_cancelled : Bool
  pub events : List (SimulationJobSnapshot F)

-- What the blocking call of a task gives: an outcome, or it panics.
pub data Work (F : Type 0) : Type 0 where
  simulated : Outcome F → Work F
  panicked : Work F

-- How a task ends its job.
pub data Ending (F : Type 0) : Type 0 where
  success : SimulationResult F → Ending F
  simulation_error : SimulationError → Ending F
  worker_error : Ending F
  withdrawal : Ending F

-- Where a task stands between two accesses to what it shares.
pub data Phase (F : Type 0) : Type 0 where
  waiting admitted withdrawing withdrawn cleared executing ended : Phase F
  returned : Work F → Phase F
  ending : Ending F → Phase F

pub record Task (F : Type 0) : Type 0 where
  pub id : ℕ
  pub phase : Phase F

pub record ServiceState (F : Type 0) : Type 0 where
  pub limits : ServiceLimits
  pub jobs : List (ℕ × JobEntry F)
  pub permits : ℕ
  pub next_job : ℕ
  pub tasks : List (Task F)

-- What may happen next.
pub data Move (F : Type 0) : Type 0 where
  submits : Move F
  cancels : ℕ → Move F
  works : ℕ → Work F → Move F
