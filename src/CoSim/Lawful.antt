-- ===== src/CoSim/Lawful.antt =====
-- The contract of the trait `CoSimulationParticipant` of src/cosim.rs, as its documentation states it.
use sim_core.Prelude.{ℕ, ◌+◌, ◌^◌, ◌<◌, ◌≡◌, String, some}
use sim_core.Prelude.Result.{Ensures}
use sim_core.Control.{ExecutionControl}
use sim_core.Float.{Float}
use sim_core.CoSim.{CoSimulationValue, Backend}

-- Participants that are `Live` stand at the time that they were last brought to, and announce events that
-- are strictly later.
pub record Lawful (fl : Float) {P : Type 0} (backend : Backend fl P) (Live : P → Type 0)
    : Type 0 where
  pub starts :
      (control : ExecutionControl) (instant : ℕ) (p : P)
      → Ensures
          (λ p'. Live p' × (backend.current_time p' ≡ 0))
          (backend.initialize control instant p)
  pub advances :
      (control : ExecutionControl) (instant target : ℕ) (p : P)
      → Live p
      → Ensures
          (λ p'. Live p' × (backend.current_time p' ≡ target))
          (backend.advance_to control instant target p)
  pub writes :
      (control : ExecutionControl) (instant : ℕ) (port : String) (time : ℕ)
      (value : CoSimulationValue (fl.F)) (p : P)
      → Live p
      → Ensures
          (λ r. Live r.0 × (backend.current_time r.0 ≡ backend.current_time p))
          (backend.write_input control instant port time value p)
  pub announces :
      (p : P) {t : ℕ}
      → Live p
      → backend.current_time p + 1 < 2 ^ 64
      → backend.next_event_time p ≡ some t
      → backend.current_time p < t
