-- ===== src/Service.antt =====
-- The jobs of src/service.rs: the handlers, and the tasks that run the jobs, as steps between which other
-- handlers and tasks run. The handlers' access by HTTP is left
-- out. The number of an id stands for its text, `sim-` and sixteen hexadecimal digits. The token of a
-- job is a field of its entry, which the job's task reads through the id: an entry is removed only when
-- its task has read the token for the last time. A channel of events is the list of all sent, newest
-- first.
pub mod Jobs
pub mod Permits
pub mod Entries
pub mod Sound
pub mod Serve
pub mod Tasks
pub mod Ends
use sim_core.Prelude.{
  ℕ, zero, suc, ◌-◌, ◌+◌, ◌*◌, ◌/◌, ◌%◌, ◌^◌, String, Bool, true, false, not, ◌&&◌, ◌||◌, str_eq,
  ◌⊎◌, inl, inr, List, [], ◌∷◌, ◌++◌, Option, none, some, if◌then◌else◌, ltb, leb, ◌==◌, length,
  get_elem?, set,
}
use sim_core.Prelude.Map.{lookup, insert, replace, remove_key, nat_key}
use sim_core.Prelude.Result.{EngineError, Result, ok, err, fail, reject, ◌>>◌}
use sim_core.Analysis.{SimulationRequest}
use sim_core.Control.{ExecutionPolicy, validate_policy}
use sim_core.Registry.{SimulationError, engine_failed, code_of, Outcome}
use sim_core.Waveform.Result.{SimulationResult}
use sim_core.Job.{
  Ending, JobEntry, Move, Phase, ServiceLimits, ServiceState, SimulationJobFailure,
  SimulationJobSnapshot, SimulationJobStatus, Task, Work, admitted, cancelled, cancelling, cancels,
  cleared, ended, ending, executing, failed, is_terminal, panicked, queued, returned, running,
  simulated, simulation_error, simulation_failure, submits, succeeded, success, waiting, withdrawal,
  withdrawing, withdrawn, worker_error, worker_failure, works,
}

recoded : Result (Unit {0}) → Result (Unit {0})
recoded (err e) = fail "service_config_invalid"
recoded (ok u) = ok u

-- `ServiceLimits::validate`.
unfoldable pub validate_limits : ServiceLimits → Result (Unit {0})
unfolding recoded validate_policy
validate_limits limits =
    reject (limits.max_retained_jobs == 0) "service_config_invalid"
    >> (reject
          (limits.max_concurrent_jobs == 0
            || ltb limits.max_retained_jobs limits.max_concurrent_jobs)
          "service_config_invalid"
        >> (reject (limits.max_request_bytes == 0) "service_config_invalid"
            >> recoded (validate_policy limits.execution_policy)))

-- `simulation_was_cancelled`.
unfoldable pub simulation_was_cancelled : SimulationError → Bool
simulation_was_cancelled (engine_failed id error) = str_eq error.code "execution_cancelled"
simulation_was_cancelled _ = false

-- `prune_terminal_jobs`: the loop over the ids of terminal jobs.
module _ {F : Type 0} where
  terminal_ids : List (ℕ × JobEntry F) → List ℕ
  unfolding is_terminal
  terminal_ids [] = []
  terminal_ids ((id, entry) ∷ jobs) =
      let rest = terminal_ids jobs in if is_terminal entry.snapshot.status then id ∷ rest else rest

  unfoldable pub remove_while_full : ℕ → List ℕ → List (ℕ × JobEntry F) → List (ℕ × JobEntry F)
  unfolding remove_key
  remove_while_full max_retained [] jobs = jobs
  remove_while_full max_retained (id ∷ ids) jobs =
      if ltb (length jobs) max_retained
      then jobs
      else remove_while_full max_retained ids (remove_key id jobs)

  unfoldable pub prune_terminal_jobs : ℕ → List (ℕ × JobEntry F) → List (ℕ × JobEntry F)
  unfolding terminal_ids remove_while_full
  prune_terminal_jobs max_retained jobs =
      if ltb (length jobs) max_retained
      then jobs
      else remove_while_full max_retained (terminal_ids jobs) jobs

  -- `publish`, and a change of an entry under the lock that is published.
  unfoldable pub publish : JobEntry F → JobEntry F
  publish entry = record entry { events = entry.snapshot ∷ entry.events }

  unfoldable pub with_entry : ℕ → (JobEntry F → JobEntry F) → ServiceState F → ServiceState F
  unfolding publish lookup replace
  with_entry id change st = elim (lookup id st.jobs) [
    | none ↦ st
    | some entry ↦ record st { jobs = replace id (publish (change entry)) st.jobs }
  ]

  abbrev pub settled :
      SimulationJobStatus
      → Option (SimulationResult F)
      → Option SimulationJobFailure
      → JobEntry F
      → JobEntry F
  settled status result error entry = record entry {
    snapshot = record { id = entry.snapshot.id; status = status; result = result; error = error };
  }

  unfoldable pub update_status : ℕ → SimulationJobStatus → ServiceState F → ServiceState F
  unfolding with_entry
  update_status id status st =
      with_entry id (λ entry. settled status entry.snapshot.result entry.snapshot.error entry) st

  unfoldable pub finish_success : SimulationResult F → JobEntry F → JobEntry F
  finish_success result entry =
      if entry.is_cancelled
      then settled cancelled none none entry
      else settled succeeded (some result) none entry

  unfoldable pub finish_simulation_failure : SimulationError → JobEntry F → JobEntry F
  unfolding simulation_failure
  finish_simulation_failure error entry =
      if entry.is_cancelled
      then settled cancelled none none entry
      else settled failed none (some (simulation_failure error)) entry

  unfoldable pub finish_worker_failure : JobEntry F → JobEntry F
  finish_worker_failure entry = settled failed none (some worker_failure) entry

  unfoldable pub finish_cancelled : JobEntry F → JobEntry F
  finish_cancelled entry = settled cancelled none none entry

  unfoldable pub finish_job : Ending F → JobEntry F → JobEntry F
  unfolding finish_success finish_simulation_failure finish_worker_failure finish_cancelled
  finish_job (success result) = finish_success result
  finish_job (simulation_error error) = finish_simulation_failure error
  finish_job worker_error = finish_worker_failure
  finish_job withdrawal = finish_cancelled

  -- The match on the outcome in `run_job`.
  unfoldable pub ending_of : Work F → Ending F
  unfolding simulation_was_cancelled
  ending_of panicked = worker_error
  ending_of (simulated (inr result)) = success result
  ending_of (simulated (inl error)) =
      if simulation_was_cancelled error then withdrawal else simulation_error error

  -- `cancellation.is_cancelled()` of a task.
  unfoldable pub token_of : ℕ → ServiceState F → Bool
  unfolding lookup
  token_of id st = elim (lookup id st.jobs) [ none ↦ false | some entry ↦ entry.is_cancelled ]

  abbrev pub go_on : ℕ → Task F → Phase F → ServiceState F → ServiceState F
  go_on index task phase st = record st {
    tasks = set st.tasks index (record { id = task.id; phase = phase });
  }

  -- The permit is dropped.
  abbrev pub released : ServiceState F → ServiceState F
  released st = record st { permits = suc st.permits }

  -- A task waits for a permit. Nothing closes the gate, so that its other answer does not come.
  acquire : ℕ → Task F → ℕ → ServiceState F → ServiceState F
  acquire index task zero st = st
  acquire index task (suc permits) st = go_on index task admitted (record st { permits = permits })

  -- One step of `run_job`, up to its next access to what is shared; `work` is what the call of the
  -- simulator gives, if the step is its end.
  unfoldable pub run_job : ℕ → Task F → Work F → Phase F → ServiceState F → ServiceState F
  unfolding acquire token_of with_entry finish_cancelled finish_job update_status ending_of
  run_job index task work waiting st = acquire index task st.permits st
  run_job index task work admitted st =
      if token_of task.id st then go_on index task withdrawing st else go_on index task cleared st
  run_job index task work withdrawing st =
      go_on index task withdrawn (with_entry task.id finish_cancelled st)
  run_job index task work withdrawn st = go_on index task ended (released st)
  run_job index task work cleared st = go_on index task executing (update_status task.id running st)
  run_job index task work executing st = go_on index task (returned work) (released st)
  run_job index task work (returned result) st =
      if token_of task.id st
      then go_on index task (ending withdrawal) st
      else go_on index task (ending (ending_of result)) st
  run_job index task work (ending e) st =
      go_on index task ended (with_entry task.id (finish_job e) st)
  run_job index task work ended st = st

  unfoldable pub task_step : ℕ → Work F → ServiceState F → ServiceState F
  unfolding run_job
  task_step index work st = elim (get_elem? st.tasks index) [
    | none ↦ st
    | some task ↦ run_job index task work task.phase st
  ]

  abbrev pub queued_job : ℕ → JobEntry F
  queued_job id = record {
    snapshot = record { id = id; status = queued; result = none; error = none };
    is_cancelled = false;
    events = [];
  }

  -- `submit_job`: the answer and the state after it. The counter and the map change in one step: a
  -- submission between the two takes the next number.
  unfoldable pub submit_job : ServiceState F → Result (SimulationJobSnapshot F) × ServiceState F
  unfolding prune_terminal_jobs insert
  submit_job st =
      let id = st.next_job in
      let jobs = prune_terminal_jobs st.limits.max_retained_jobs st.jobs in
      let next = suc id % 2 ^ 64 in
      if leb st.limits.max_retained_jobs (length jobs)
      then (fail "service_queue_full", record st { jobs = jobs; next_job = next })
      else (
        ok (queued_job id).snapshot,
        record st {
          jobs = insert id (queued_job id) jobs;
          next_job = next;
          tasks = st.tasks ++ record { id = id; phase = waiting } ∷ [];
        },
      )

  -- `snapshot_job`.
  unfoldable pub snapshot_job : ℕ → ServiceState F → Result (SimulationJobSnapshot F)
  unfolding lookup
  snapshot_job id st = elim (lookup id st.jobs) [
    | none ↦ fail "simulation_job_not_found"
    | some entry ↦ ok entry.snapshot
  ]

  cancel_entry : JobEntry F → JobEntry F
  cancel_entry entry =
      record (settled cancelling entry.snapshot.result entry.snapshot.error entry) {
        is_cancelled = true;
      }

  -- `cancel_job`: the answer is the snapshot after it.
  unfoldable pub cancel_job : ℕ → ServiceState F → ServiceState F
  unfolding with_entry cancel_entry lookup is_terminal
  cancel_job id st = elim (lookup id st.jobs) [
    | none ↦ st
    | some entry ↦ if is_terminal entry.snapshot.status then st else with_entry id cancel_entry st
  ]

  -- `SimulationService::new`, its limits being valid.
  unfoldable pub new_service : ServiceLimits → ServiceState F
  new_service limits = record {
    limits = limits;
    jobs = [];
    permits = limits.max_concurrent_jobs;
    next_job = 1;
    tasks = [];
  }

  -- A service under a sequence of what happens.
  unfoldable pub move : Move F → ServiceState F → ServiceState F
  unfolding submit_job cancel_job task_step
  move submits st = (submit_job st).1
  move (cancels id) st = cancel_job id st
  move (works index work) st = task_step index work st

  unfoldable pub serve : List (Move F) → ServiceState F → ServiceState F
  unfolding move
  serve [] st = st
  serve (m ∷ moves) st = serve moves (move m st)
