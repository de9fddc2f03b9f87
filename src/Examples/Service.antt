-- ===== src/Examples/Service.antt =====
-- The service of src/service.rs with two jobs, of which one is cancelled.
use sim_core.Prelude.{ℕ, ◌≡◌, refl, [], ◌∷◌, some, get_elem?, arith}
use sim_core.Job.{ServiceLimits, admitted, ended, panicked, ServiceState, submits, cancels, works}
use sim_core.Service.{task_step, submit_job, new_service, move, serve}
use sim_core.Service.Sound.{Sound}
use sim_core.Service.Serve.{serve-Sound}
use sim_core.Service.Ends.{serve-ended}

abbrev limits : ServiceLimits
limits = record {
  max_retained_jobs = 2;
  max_concurrent_jobs = 1;
  max_request_bytes = 100;
  execution_policy = record {
    timeout_ms = 0;
    poll_interval_ms = 10;
    max_input_bytes = 0;
    max_output_bytes = 0;
    max_log_bytes = 0;
  };
}

serve-Sound_example : Sound {F = ℕ} limits (
    serve
      (submits ∷ works 0 panicked ∷ submits ∷ cancels 2 ∷ works 0 panicked ∷ submits ∷ [])
      (new_service limits))
serve-Sound_example =
    serve-Sound limits
      (submits ∷ works 0 panicked ∷ submits ∷ cancels 2 ∷ works 0 panicked ∷ submits ∷ [])

-- The first job has its permit.
abbrev started : ServiceState ℕ
started = serve (submits ∷ submits ∷ works 0 panicked ∷ []) (new_service limits)

first_task : get_elem? started.tasks 0 ≡ some (record { id = 1; phase = admitted })
unfolding serve move submit_job task_step new_service
first_task = refl

serve-ended_example :
    get_elem?
      (serve
        (works 0 panicked
          ∷ works 0 panicked
          ∷ cancels 1
          ∷ works 0 panicked
          ∷ works 1 panicked
          ∷ works 0 panicked
          ∷ works 0 panicked
          ∷ [])
        started).tasks
      0
    ≡ some (record { id = 1; phase = ended })
serve-ended_example =
    serve-ended started 0 (record { id = 1; phase = admitted })
      (works 0 panicked
        ∷ works 0 panicked
        ∷ cancels 1
        ∷ works 0 panicked
        ∷ works 1 panicked
        ∷ works 0 panicked
        ∷ works 0 panicked
        ∷ [])
      first_task refl (omega arith)
