-- ===== src/Service/Entries.antt =====
-- The entries of the jobs of src/service.rs: what their status says of them.
use sim_core.Prelude.{
  ◌≡◌, refl, Bool, true, false, List, [], ◌∷◌, Option, none, some, if◌then◌else◌,
}
use sim_core.Prelude.Map.{nat_key}
use sim_core.Job.{
  SimulationJobStatus, queued, running, cancelling, succeeded, failed, cancelled,
  SimulationJobFailure, SimulationJobSnapshot, JobEntry, Ending, success, simulation_error,
  worker_error, withdrawal, simulation_failure, worker_failure,
}
use sim_core.Service.{
  publish, settled, finish_success, finish_simulation_failure, finish_worker_failure,
  finish_cancelled, finish_job,
}
use sim_core.Registry.{SimulationError}
use sim_core.Waveform.Result.{SimulationResult}

-- What a status says of the rest of an entry.
unfoldable pub Shape :
    {F : Type 0}
    → SimulationJobStatus
    → Option (SimulationResult F)
    → Option SimulationJobFailure
    → Bool
    → Type 0
Shape {F} succeeded result error token =
    ((r : SimulationResult F) × (result ≡ some r)) × (error ≡ none) × (token ≡ false)
Shape failed result error token = (result ≡ none) × ((f : SimulationJobFailure) × (error ≡ some f))
Shape cancelled result error token = (result ≡ none) × (error ≡ none)
Shape cancelling result error token = token ≡ true
Shape _ result error token = Unit

module _ {F : Type 0} where
  -- The event sent last is the snapshot of now; a job of which no event was sent is queued.
  unfoldable pub IsTold : JobEntry F → List (SimulationJobSnapshot F) → Type 0
  IsTold entry [] = entry.snapshot.status ≡ queued
  IsTold entry (event ∷ events) = event ≡ entry.snapshot

  pub record IsCoherent (entry : JobEntry F) : Type 0 where
    pub shape :
        Shape entry.snapshot.status entry.snapshot.result entry.snapshot.error entry.is_cancelled
    pub told : IsTold entry entry.events

  pub publish-IsCoherent :
      (entry : JobEntry F)
      → Shape entry.snapshot.status entry.snapshot.result entry.snapshot.error entry.is_cancelled
      → IsCoherent (publish entry)
  unfolding publish IsTold
  publish-IsCoherent entry shape = record { shape = shape; told = refl }

  either-IsCoherent :
      (test : Bool) (a b : JobEntry F)
      → (test ≡ true → IsCoherent (publish a))
      → (test ≡ false → IsCoherent (publish b))
      → IsCoherent (publish (if test then a else b))
  either-IsCoherent true a b h k = h refl
  either-IsCoherent false a b h k = k refl

  finish_success-IsCoherent :
      (result : SimulationResult F) (entry : JobEntry F)
      → IsCoherent (publish (finish_success result entry))
  unfolding finish_success Shape
  finish_success-IsCoherent result entry =
      either-IsCoherent entry.is_cancelled (settled cancelled none none entry)
        (settled succeeded (some result) none entry)
        (λ on. publish-IsCoherent (settled cancelled none none entry) (refl, refl))
        (λ off.
          publish-IsCoherent (settled succeeded (some result) none entry)
            ((result, refl), refl, off))

  finish_simulation_failure-IsCoherent :
      (error : SimulationError) (entry : JobEntry F)
      → IsCoherent (publish (finish_simulation_failure error entry))
  unfolding finish_simulation_failure Shape
  finish_simulation_failure-IsCoherent error entry =
      either-IsCoherent entry.is_cancelled (settled cancelled none none entry)
        (settled failed none (some (simulation_failure error)) entry)
        (λ on. publish-IsCoherent (settled cancelled none none entry) (refl, refl))
        (λ off.
          publish-IsCoherent (settled failed none (some (simulation_failure error)) entry)
            (refl, (simulation_failure error, refl)))

  pub finish_job-IsCoherent :
      (e : Ending F) (entry : JobEntry F) → IsCoherent (publish (finish_job e entry))
  unfolding finish_job finish_worker_failure finish_cancelled Shape
  finish_job-IsCoherent (success result) entry = finish_success-IsCoherent result entry
  finish_job-IsCoherent (simulation_error error) entry =
      finish_simulation_failure-IsCoherent error entry
  finish_job-IsCoherent worker_error entry =
      publish-IsCoherent (settled failed none (some worker_failure) entry)
        (refl, (worker_failure, refl))
  finish_job-IsCoherent withdrawal entry =
      publish-IsCoherent (settled cancelled none none entry) (refl, refl)

  pub running-IsCoherent :
      (entry : JobEntry F)
      → IsCoherent (publish (settled running entry.snapshot.result entry.snapshot.error entry))
  unfolding Shape
  running-IsCoherent entry =
      publish-IsCoherent (settled running entry.snapshot.result entry.snapshot.error entry) tt
