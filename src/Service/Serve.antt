-- ===== src/Service/Serve.antt =====
-- The service of src/service.rs under every sequence of submissions, cancellations and steps of its tasks.
use sim_core.Prelude.{
  ℕ, ◌+◌, ◌≡◌, refl, sym, subst, ap, List, [], ◌∷◌, length, inl, inr, leb, Bool-cases, Option-cases,
  arith, get_elem?,
}
use sim_core.Prelude.Map.{lookup, nat_key, insert-AllValues}
use sim_core.Job.{
  ServiceLimits, is_terminal, JobEntry, Work, waiting, ServiceState, Move, submits, cancels, works,
}
use sim_core.Service.{
  publish, task_step, queued_job, submit_job, cancel_entry, cancel_job, new_service, move, serve,
  prune_terminal_jobs,
}
use sim_core.Service.Jobs.{
  length-insert_next, prune_terminal_jobs-AllValues, length-prune_terminal_jobs,
}
use sim_core.Service.Permits.{holders-append}
use sim_core.Service.Entries.{IsCoherent, Shape, IsTold, publish-IsCoherent}
use sim_core.Service.Sound.{Sound, with_entry-Sound, run_job-Sound}

module _ {F : Type 0} where
  task_step-Sound :
      (limits : ServiceLimits) (index : ℕ) (work : Work F) (st : ServiceState F)
      → Sound limits st
      → Sound limits (task_step index work st)
  unfolding task_step
  task_step-Sound limits index work st sound = elim (Option-cases (get_elem? st.tasks index)) [
    | inl missing ↦ rw (missing, task_step) sound
    | inr (task, there) ↦
        rw (there, task_step) (run_job-Sound limits st index task work task.phase there refl sound)
  ]

  cancel_entry-IsCoherent : (entry : JobEntry F) → IsCoherent (publish (cancel_entry entry))
  unfolding cancel_entry Shape
  cancel_entry-IsCoherent entry = publish-IsCoherent (cancel_entry entry) refl

  cancel_job-Sound :
      (limits : ServiceLimits) (id : ℕ) (st : ServiceState F)
      → Sound limits st
      → Sound limits (cancel_job id st)
  unfolding cancel_job
  cancel_job-Sound limits id st sound = elim (Option-cases (lookup id st.jobs)) [
    | inl missing ↦ rw (missing, cancel_job) sound
    | inr (entry, there) ↦
        rw (there, cancel_job)
          (elim (Bool-cases (is_terminal entry.snapshot.status)) [
            | inl done ↦ rw done sound
            | inr live ↦
                rw live (with_entry-Sound limits id cancel_entry st cancel_entry-IsCoherent sound)
          ])
  ]

  queued_job-IsCoherent : (id : ℕ) → IsCoherent (queued_job {F = F} id)
  unfolding Shape IsTold
  queued_job-IsCoherent id = record { shape = tt; told = refl }

  submit_job-Sound :
      (limits : ServiceLimits) (st : ServiceState F)
      → Sound limits st
      → Sound limits (submit_job st).1
  unfolding submit_job
  submit_job-Sound limits st sound =
      let jobs = prune_terminal_jobs st.limits.max_retained_jobs st.jobs in
      let fewer = length-prune_terminal_jobs st.limits.max_retained_jobs st.jobs in
      let all =
        prune_terminal_jobs-AllValues IsCoherent st.limits.max_retained_jobs st.jobs
          sound.coherent in
      elim (Bool-cases (leb st.limits.max_retained_jobs (length jobs))) [
        | inl full ↦ rw full (record {
          configured = sound.configured;
          retained = omega (arith, fewer, sound.retained);
          permitted = sound.permitted;
          coherent = all;
        })
        | inr room ↦ rw room (record {
          configured = sound.configured;
          retained = ground (
            arith,
            room,
            ap (λ l. l.max_retained_jobs) sound.configured,
            length-insert_next st.next_job (queued_job st.next_job) jobs,
          );
          permitted =
              subst (λ n. st.permits + n ≡ limits.max_concurrent_jobs)
                (sym (holders-append st.tasks (record { id = st.next_job; phase = waiting }) refl))
                sound.permitted;
          coherent =
              insert-AllValues IsCoherent st.next_job (queued_job st.next_job) jobs
                (queued_job-IsCoherent st.next_job) all;
        })
      ]

  move-Sound :
      (limits : ServiceLimits) (m : Move F) (st : ServiceState F)
      → Sound limits st
      → Sound limits (move m st)
  unfolding move
  move-Sound limits submits st sound = submit_job-Sound limits st sound
  move-Sound limits (cancels id) st sound = cancel_job-Sound limits id st sound
  move-Sound limits (works index work) st sound = task_step-Sound limits index work st sound

  serve-all :
      (limits : ServiceLimits) (moves : List (Move F)) (st : ServiceState F)
      → Sound limits st
      → Sound limits (serve moves st)
  unfolding serve
  serve-all limits [] st sound = sound
  serve-all limits (m ∷ moves) st sound =
      serve-all limits moves (move m st) (move-Sound limits m st sound)

  -- However submissions, cancellations and steps of the tasks of a new service follow each other, and
  -- whatever the simulator gives: the jobs are never more than the limit of retained ones; the free
  -- permits and those that tasks hold make up the limit of concurrent ones; a succeeded job has a result,
  -- no error and no cancellation, a failed one an error and no result, a cancelled one neither, and a
  -- cancelling one has its token set; and the last event sent of a job is its snapshot.
  pub serve-Sound :
      (limits : ServiceLimits) (moves : List (Move F))
      → Sound limits (serve moves (new_service limits))
  unfolding new_service
  serve-Sound limits moves =
      serve-all limits moves (new_service limits) (record {
        configured = refl;
        retained = omega arith;
        permitted = omega arith;
        coherent = tt;
      })
